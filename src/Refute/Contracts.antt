-- ===== src/Refute/Contracts.antt =====
-- The shared checks and the proposal of an_kla/refute_contracts.py.
use an_kla_memory.Base.{String, not, ◌||◌, Option, none, some}
use an_kla_memory.Base.{List, [], ◌∷◌, ◌++◌, if◌then◌else◌, member, ltb, length, all}
use an_kla_memory.Base.{Error, refute_policy, Result, ok, err, raise_if, ◌>>=◌, ◌>>◌}
use an_kla_memory.Base.Text.{codes}
use an_kla_memory.Base.Regex.{Regex, seq, rep, cls, range, text, fullmatch}
use an_kla_memory.Json.{Json, Fields, str, obj, keys, get}
use an_kla_memory.Json.{is_str}
use an_kla_memory.Canonical.Identifiers.{bare_digest}
use an_kla_memory.WritePolicy.Types.{Stream, stream_of}
use an_kla_memory.WritePolicy.Shape.{without}
use an_kla_memory.WriteBatch.Validate.{one_of_tuple}

abbrev pub policy_error : String → String → Error
policy_error code detail = refute_policy code (some detail)

-- `exact`: a dict with exactly these keys.
unfoldable pub exact : Json → List String → String → String → Result Fields
exact (obj fs) names code detail = elim (without names (keys fs) ++ without (keys fs) names) [
  | [] ↦ ok fs
  | k ∷ ks ↦ err (policy_error code detail)
]
exact _ names code detail = err (policy_error code detail)

-- `digest`
unfoldable pub digest : Json → String → String → Result String
digest (str s) code detail = elim (bare_digest s) [
  | ok bare ↦ ok s
  | err e ↦ err (policy_error code detail)
]
digest _ code detail = err (policy_error code detail)

-- `PROFILE`
abbrev pub profile_pattern : Regex
profile_pattern = seq (cls (range 97 122)) (
    seq (rep 0 63 (cls (λ n. range 97 122 n || range 48 57 n || range 45 45 n)))
      (seq (text "/v") (seq (cls (range 49 57)) (rep 0 9 (cls (range 48 57))))))

-- `profile`
unfoldable pub profile : Json → String → String → Result String
unfolding fullmatch
profile (str s) code detail =
    raise_if
      (not (all (λ n. ltb n 128) (codes s))
        || ltb 128 (length (codes s))
        || not (fullmatch profile_pattern s))
      (policy_error code detail)
    >> ok s
profile _ code detail = err (policy_error code detail)

-- `REASONS`
abbrev pub refute_reasons : List String
refute_reasons = "evidence_contradicts_record" ∷ "source_retracted" ∷ "integrity_violation" ∷ []

abbrev pub reason_of : String → Option String
reason_of s = if member s refute_reasons then some s else none

-- A validated refute-proposal-v1.
pub record Proposal : Type 0 where
  pub base_revision : String
  pub stream : Stream
  pub target_record_sha256 : String
  pub reason : String

abbrev pub proposal_code : String
proposal_code = "invalid_refute_proposal"

unfoldable pub validate_proposal : Json → Result Proposal
unfolding exact digest stream_of
validate_proposal value = do
  out ←
      exact value ("schema" ∷ "base_revision" ∷ "stream" ∷ "target_record_sha256" ∷ "reason" ∷ [])
        proposal_code "shape"
  let e = policy_error proposal_code "schema_or_stream"
  raise_if (not (is_str "an-kla/refute-proposal-v1" (get out "schema"))) e
  stream ← one_of_tuple stream_of (get out "stream") e
  base_revision ← digest (get out "base_revision") proposal_code "base_revision"
  target ← digest (get out "target_record_sha256") proposal_code "target_record_sha256"
  reason ← one_of_tuple reason_of (get out "reason") (policy_error proposal_code "reason")
  ok (record {
    base_revision = base_revision;
    stream = stream;
    target_record_sha256 = target;
    reason = reason;
  })
