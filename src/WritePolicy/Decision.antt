-- ===== src/WritePolicy/Decision.antt =====
-- `validate_write_decision` and `_verified_decision` of an_kla/write_policy.py.
use an_kla_memory.Base.{String, ◌==◌, Bool, true, false, not, ◌&&◌, ◌||◌, Option, none, some}
use an_kla_memory.Base.{List, [], ◌∷◌, if◌then◌else◌, member, eqb, write_policy, Result, ok, err}
use an_kla_memory.Base.{raise_if, ◌>>=◌, ◌>>◌}
use an_kla_memory.Base.Text.{Unicode, sorted}
use an_kla_memory.Base.Regex.{Regex, cls, seq, star, range, fullmatch}
use an_kla_memory.Json.{Json, Items, nil, cons, field, end, str, arr, obj, texts, get, item, is_str}
use an_kla_memory.Json.{in_set}
use an_kla_memory.Canonical.{canonical_json}
use an_kla_memory.WritePolicy.Shape.{policy_error, require_exact_keys, is_digest_value}
use an_kla_memory.WritePolicy.Shape.{validate_json_value}
use an_kla_memory.WritePolicy.Configuration.{policy_profile}
use an_kla_memory.WritePolicy.Evaluate.{Verdict, skip, write_full, write_summary, Decision}
use an_kla_memory.WritePolicy.Evaluate.{evaluate_single}

abbrev pub verdict_name : Verdict → String
verdict_name skip = "skip"
verdict_name write_full = "write-full"
verdict_name write_summary = "write-summary"

abbrev pub verdict_names : List String
verdict_names = "skip" ∷ "write-full" ∷ "write-summary" ∷ []

-- The dict that `_decision` returns.
abbrev pub decision_json : Decision → Json
decision_json d = obj (
    field "schema" (str "an-kla/write-decision-v1") (
      field "proposal_sha256" (str d.proposal_sha256) (
        field "authority_sha256" (str d.authority_sha256) (
          field "policy_profile" (str policy_profile) (
            field "policy_fingerprint" (str d.fingerprint) (
              field "decision" (str (verdict_name d.verdict))
                (field "reason_codes" (arr (texts d.reasons)) end)))))))

-- `^[a-z][a-z0-9_]*$`
abbrev reason_code_pattern : Regex
reason_code_pattern =
    seq (cls (range b'a' b'z'))
      (star (cls (λ c. range b'a' b'z' c || range b'0' b'9' c || eqb c b'_')))

-- The texts of a list of reason codes, if all are of the pattern.
abbrev reason_texts : Items → Option (List String)
reason_texts nil = some []
reason_texts (cons (str s) xs) =
    let rest = reason_texts xs in
    if fullmatch reason_code_pattern s
    then elim rest [ none ↦ none | some ss ↦ some (s ∷ ss) ]
    else none
reason_texts (cons _ xs) = none

abbrev unique : List String → List String
unique [] = []
unique (x ∷ xs) = if member x xs then unique xs else x ∷ unique xs

abbrev same_texts : List String → List String → Bool
same_texts [] [] = true
same_texts (x ∷ xs) (y ∷ ys) = x == y && same_texts xs ys
same_texts _ _ = false

-- `reasons == sorted(set(reasons))`
abbrev is_sorted_set : List String → Bool
is_sorted_set ss = same_texts ss (sorted (unique ss))

-- The four tests on `reason_codes`.
abbrev bad_reasons : Json → Bool
bad_reasons (arr nil) = true
bad_reasons (arr (cons x xs)) = elim (reason_texts (cons x xs)) [
  | none ↦ true
  | some ss ↦ not (is_sorted_set ss)
]
bad_reasons _ = true

abbrev decision_code : String
decision_code = "invalid_write_decision"

unfoldable pub validate_write_decision : Json → Result (Unit {0})
unfolding require_exact_keys is_digest_value validate_json_value fullmatch
validate_write_decision (obj decision) = do
  require_exact_keys decision
      ("schema" ∷ "proposal_sha256" ∷ "authority_sha256" ∷ "policy_profile" ∷ "policy_fingerprint"
        ∷ "decision" ∷ "reason_codes" ∷ [])
      [] decision_code "decision:keys"
  schema ← item decision "schema"
  raise_if (not (is_str "an-kla/write-decision-v1" schema))
      (policy_error decision_code "decision:schema")
  proposal_sha256 ← item decision "proposal_sha256"
  authority_sha256 ← item decision "authority_sha256"
  raise_if (not (is_digest_value proposal_sha256) || not (is_digest_value authority_sha256))
      (policy_error decision_code "proposal_sha256|authority_sha256:not_digest")
  profile ← item decision "policy_profile"
  fingerprint ← item decision "policy_fingerprint"
  raise_if (not (is_str policy_profile profile) || not (is_digest_value fingerprint))
      (policy_error decision_code "policy_profile|policy_fingerprint")
  known ← in_set verdict_names (← item decision "decision")
  raise_if (not known) (policy_error decision_code "decision")
  reasons ← item decision "reason_codes"
  raise_if (bad_reasons reasons) (policy_error decision_code "reason_codes")
  validate_json_value (obj decision) decision_code "decision:invalid_json"
validate_write_decision _ = err (policy_error decision_code "decision:not_object")

module _ (sha256 : String → String) (u : Unicode) where
  -- The tests of a decision that the caller hands in, against the recomputed one. They end in the
  -- equality of the canonical texts, so the recomputed decision stands for both afterwards.
  unfoldable pub check_decision : Json → Decision → Result Decision
  unfolding validate_write_decision
  check_decision (obj decision) expected = do
    validate_write_decision (obj decision)
    raise_if (not (is_str expected.fingerprint (get decision "policy_fingerprint")))
        (write_policy "write_policy_fingerprint_mismatch" none)
    raise_if
        (not (is_str expected.proposal_sha256 (get decision "proposal_sha256"))
          || not (is_str expected.authority_sha256 (get decision "authority_sha256")))
        (write_policy "write_content_hash_mismatch" none)
    given ← canonical_json (obj decision)
    wanted ← canonical_json (decision_json expected)
    raise_if (not (given == wanted)) (write_policy "invalid_write_decision" none)
    ok expected
  check_decision other expected = err (policy_error decision_code "decision:not_object")

  -- `_verified_decision`
  unfoldable pub verified_decision : Json → Json → Option Json → Result Decision
  unfolding check_decision
  verified_decision proposal authority none = evaluate_single sha256 u proposal authority
  verified_decision proposal authority (some decision) =
      evaluate_single sha256 u proposal authority >>= check_decision decision
