-- ===== src/Checkpoint/Contracts.antt =====
-- The shared checks of an_kla/checkpoint_policy.py.
use an_kla_memory.Base.{ℕ, zero, suc, String, ◌<>◌, false, ◌||◌, some}
use an_kla_memory.Base.{
  List, [], ◌∷◌, ◌++◌, if◌then◌else◌, Error, checkpoint_policy, Result, ok, err,
}
use an_kla_memory.Base.Text.{sorted, join, add}
use an_kla_memory.Base.Regex.{Regex, alt, rep, cls, is_hex, range, fullmatch}
use an_kla_memory.Json.{Json, Fields, str, obj, keys, arr, field, end, num, bool, texts}
use an_kla_memory.Base.Int.{pos}
use an_kla_memory.Canonical.{digest_json}
use an_kla_memory.Canonical.Identifiers.{bare_digest}
use an_kla_memory.WritePolicy.Shape.{without}

abbrev pub policy_error : String → String → Error
policy_error code detail = checkpoint_policy code (some detail)

abbrev pub state_code : String
state_code = "invalid_working_state"

abbrev pub provenance_code : String
provenance_code = "invalid_checkpoint_provenance"

abbrev pub authority_code : String
authority_code = "invalid_checkpoint_authority"

abbrev pub plan_code : String
plan_code = "invalid_checkpoint_plan"

-- `FIELDS`
abbrev pub checkpoint_fields : List String
checkpoint_fields =
    "objective" ∷ "phase" ∷ "next_step" ∷ "decisions" ∷ "blockers" ∷ "evidence" ∷ "source_state"
    ∷ "captured_at" ∷ []

-- `PROVENANCE`
abbrev pub provenances : List String
provenances = "caller_asserted" ∷ "unavailable" ∷ []

-- `GIT_OBJECT_ID`
abbrev pub git_object_id : Regex
git_object_id = alt (rep 40 40 (cls is_hex)) (rep 64 64 (cls is_hex))

-- `_DETAIL_KEY_NAME`
abbrev pub detail_key_name : Regex
detail_key_name = rep 1 64 (
    cls (λ n.
      range 65 90 n
      || range 97 122 n
      || range 48 57 n
      || range 95 95 n
      || range 46 46 n
      || range 45 45 n))

-- The names in the order of a set's iteration, each of them once.
abbrev named : List String → List String
named [] = []
named (k ∷ ks) = add (if fullmatch detail_key_name k then k else "[unnamed]") (named ks)

-- `_key_names`, on a set of texts
unfoldable pub key_names : List String → List String
unfolding fullmatch
key_names ks = sorted (named ks)

abbrev take_chars : ℕ → String → String
take_chars zero s = ""
take_chars (suc n) String.[] = ""
take_chars (suc n) (String.◌∷◌ c s) = String.◌∷◌ c (take_chars n s)

-- `_cap`: a detail that is not longer than 256 is its own beginning.
abbrev pub cap : String → String
cap detail = take_chars 256 detail

abbrev pub listed : String → List String → List String
listed label [] = []
listed label (x ∷ xs) = (label <> join "," (x ∷ xs)) ∷ []

-- `_key_detail`, on a dict
unfoldable pub key_detail : String → List String → List String → String
unfolding join key_names
key_detail path present names = cap (
    path
    <> (":keys:"
        <> join ";" (
            listed "missing=" (sorted (without names present))
            ++ listed "extra=" (key_names (without present names)))))

-- `_exact`: a dict with exactly these keys.
unfoldable pub exact : Json → List String → String → String → Result Fields
unfolding key_detail
exact (obj fs) names code path = elim (without names (keys fs) ++ without (keys fs) names) [
  | [] ↦ ok fs
  | k ∷ ks ↦ err (policy_error code (key_detail path (keys fs) names))
]
exact _ names code path = err (policy_error code (path <> ":not_object"))

-- `_digest`
unfoldable pub digest : Json → String → String → Result String
digest (str s) code detail = elim (bare_digest s) [
  | ok bare ↦ ok s
  | err e ↦ err (policy_error code detail)
]
digest _ code detail = err (policy_error code detail)

-- `_CONFIG`
unfoldable pub config : Json
config = obj (
    field "schema" (str "an-kla/checkpoint-policy-config-v1") (
      field "profile" (str "checkpoint-policy/v1") (
        field "fields" (arr (texts checkpoint_fields)) (
          field "accepted_provenance" (arr (texts provenances)) (
            field "source_profiles" (arr (texts ("none/v1" ∷ "git/v1" ∷ []))) (
              field "maximum_items_per_list" (num (pos 50)) (
                field "maximum_item_bytes" (num (pos 8192)) (
                  field "maximum_working_state_bytes" (num (pos 65536)) (
                    field "tool_observed_adapter" (bool false)
                      (field "channel_confirmed_adapter" (bool false) end))))))))))

module _ (sha256 : String → String) where
  unfoldable pub policy_fingerprint : Result String
  unfolding config
  policy_fingerprint = digest_json sha256 config
