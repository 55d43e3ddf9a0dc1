-- ===== src/Checkpoint/WorkingState.antt =====
-- `validate_working_state` and `validate_proposal` of an_kla/checkpoint_policy.py.
use an_kla_memory.Base.{ℕ, String, ◌<>◌, ◌==◌, Bool, true, false, not, ◌&&◌}
use an_kla_memory.Base.{List, [], ◌∷◌, if◌then◌else◌, member, ltb, Result, ok, err, raise_if}
use an_kla_memory.Base.{◌>>=◌, ◌>>◌}
use an_kla_memory.Base.Regex.{fullmatch}
use an_kla_memory.Json.{Json, Fields, Items, nil, cons, null, str, arr, obj, get, is_str, in_set}
use an_kla_memory.Canonical.{canonical_json, byte_length}
use an_kla_memory.Record.Temporal.{parse_verified_at}
use an_kla_memory.Record.Temporal.Format.{format_utc}
use an_kla_memory.WriteBatch.Validate.{count}
use an_kla_memory.Checkpoint.Contracts.{policy_error, state_code, provenance_code, provenances}
use an_kla_memory.Checkpoint.Contracts.{git_object_id, exact, digest}

abbrev pub is_null : Json → Bool
is_null null = true
is_null _ = false

-- `provenance not in PROVENANCE`, and the two errors for that.
abbrev pub check_provenance : Json → String → Result (Unit {0})
check_provenance provenance path = in_set provenances provenance >>= λ known.
    if known
    then ok tt
    else if is_str "tool_observed" provenance
    then err (policy_error "tool_observed_requires_adapter" (path <> ".provenance"))
    else err (policy_error provenance_code (path <> ".provenance"))

-- A text in the form that `format_utc` gives it.
unfoldable pub check_timestamp : String → String → Result (Unit {0})
unfolding parse_verified_at format_utc
check_timestamp s path = elim (parse_verified_at (str s)) [
  | err e ↦ err (policy_error state_code (path <> ".value:not_timestamp"))
  | ok parsed ↦
      raise_if (not (format_utc parsed == s))
        (policy_error state_code (path <> ".value:not_canonical_utc"))
]

unfoldable pub check_value : Bool → Json → String → Result (Unit {0})
unfolding check_timestamp
check_value timestamp null path = ok tt
check_value timestamp (str s) path = if timestamp then check_timestamp s path else ok tt
check_value timestamp _ path = err (policy_error state_code (path <> ".value:not_string"))

-- `_field`
unfoldable pub check_field : Bool → Json → String → Result (Unit {0})
unfolding exact check_value
check_field timestamp value path = do
  checked ← exact value ("value" ∷ "provenance" ∷ []) state_code path
  check_provenance (get checked "provenance") path
  if is_str "unavailable" (get checked "provenance")
      then raise_if (not (is_null (get checked "value")))
          (policy_error provenance_code (path <> ".value"))
      else check_value timestamp (get checked "value") path

-- `isinstance(item["id"], str) and item["id"]`, with its value
abbrev pub read_id : Json → String → Result String
read_id (str s) path = raise_if (s == "") (policy_error state_code (path <> "[].id")) >> ok s
read_id _ path = err (policy_error state_code (path <> "[].id"))

-- The canonical text, within a number of bytes.
unfoldable pub check_size : Json → ℕ → String → String → Result (Unit {0})
check_size value limit no_text too_large = elim (canonical_json value) [
  | err e ↦ err (policy_error state_code no_text)
  | ok text ↦ raise_if (ltb limit (byte_length text)) (policy_error state_code too_large)
]

abbrev pub item_bytes : ℕ
item_bytes = 8192

-- One item of `_items`, which gives its id.
unfoldable pub check_item : List String → Json → String → Result String
unfolding exact check_size
check_item seen raw path = do
  item ← exact raw ("id" ∷ "value" ∷ "provenance" ∷ []) state_code (path <> "[]")
  id ← read_id (get item "id") path
  raise_if (member id seen) (policy_error state_code (path <> "[].id:duplicate"))
  check_provenance (get item "provenance") (path <> "[]")
  raise_if (is_str "unavailable" (get item "provenance") && not (is_null (get item "value")))
      (policy_error provenance_code (path <> "[].value"))
  check_size (get item "value") item_bytes (path <> "[].value:not_canonical_json")
      (path <> "[].value:too_large")
  ok id

-- The loop of `_items`.
unfoldable pub check_all : List String → Items → String → Result (Unit {0})
unfolding check_item
check_all seen nil path = ok tt
check_all seen (cons raw raws) path =
    check_item seen raw path >>= λ id. check_all (id ∷ seen) raws path

abbrev pub max_items : ℕ
max_items = 50

-- `_items`
unfoldable pub check_items : Json → String → Result (Unit {0})
unfolding check_all
check_items (arr xs) path =
    raise_if (ltb max_items (count xs)) (policy_error state_code (path <> ":too_many_items"))
    >> check_all [] xs path
check_items _ path = err (policy_error state_code (path <> ":not_list"))

-- The value of a field of `git/v1`.
unfoldable pub git_value : Json → Bool → String → Result (Unit {0})
unfolding fullmatch
git_value (str s) object_id path =
    raise_if (object_id && not (fullmatch git_object_id s))
      (policy_error state_code (path <> ".value:not_object_id"))
git_value null object_id path =
    raise_if object_id (policy_error state_code (path <> ".value:not_object_id"))
git_value _ object_id path = err (
    policy_error state_code
      (path <> (if object_id then ".value:not_object_id" else ".value:not_string")))

-- `_git_source_field`
unfoldable pub check_git_field : Json → Bool → String → Result (Unit {0})
unfolding exact git_value
check_git_field value object_id path = do
  checked ← exact value ("value" ∷ "provenance" ∷ []) state_code path
  raise_if (is_str "tool_observed" (get checked "provenance"))
      (policy_error "tool_observed_requires_adapter" (path <> ".provenance"))
  raise_if (not (is_str "caller_asserted" (get checked "provenance")))
      (policy_error provenance_code (path <> ".provenance"))
  git_value (get checked "value") object_id path

-- `source[name] != {"value": None, "provenance": "unavailable"}`, on a checked field
abbrev pub is_unavailable : Json → Bool
is_unavailable (obj fs) = is_null (get fs "value") && is_str "unavailable" (get fs "provenance")
is_unavailable _ = false

abbrev none_field : Fields → String → Result (Unit {0})
none_field source name =
    check_field false (get source name) ("source_state." <> name)
    >> raise_if (not (is_unavailable (get source name)))
        (policy_error provenance_code ("source_state." <> (name <> ":not_unavailable")))

unfoldable pub check_source : Json → Result (Unit {0})
unfolding exact check_field check_git_field
check_source value = do
  source ←
      exact value ("profile" ∷ "head" ∷ "branch" ∷ "dirty_digest" ∷ []) state_code "source_state"
  if is_str "none/v1" (get source "profile")
      then none_field source "head"
        >> none_field source "branch"
        >> none_field source "dirty_digest"
      else if is_str "git/v1" (get source "profile")
      then check_git_field (get source "head") true "source_state.head"
        >> check_git_field (get source "branch") false "source_state.branch"
        >> check_git_field (get source "dirty_digest") false "source_state.dirty_digest"
      else err (policy_error state_code "source_state.profile:unknown")

abbrev pub state_bytes : ℕ
state_bytes = 65536

-- `validate_working_state`: gives `supersedes_checkpoint`.
unfoldable pub validate_working_state : Json → Result String
unfolding exact digest check_field check_items check_source check_size
validate_working_state value = do
  state ←
      exact value
        ("schema" ∷ "objective" ∷ "phase" ∷ "next_step" ∷ "decisions" ∷ "blockers" ∷ "evidence"
          ∷ "source_state" ∷ "captured_at" ∷ "supersedes_checkpoint" ∷ [])
        state_code "working_state"
  raise_if (not (is_str "an-kla/working-state-v2" (get state "schema")))
      (policy_error state_code "working_state.schema")
  check_field false (get state "objective") "objective"
  check_field false (get state "phase") "phase"
  check_field false (get state "next_step") "next_step"
  check_items (get state "decisions") "decisions"
  check_items (get state "blockers") "blockers"
  check_items (get state "evidence") "evidence"
  check_source (get state "source_state")
  check_field true (get state "captured_at") "captured_at"
  supersedes ←
      digest (get state "supersedes_checkpoint") state_code "supersedes_checkpoint:not_digest"
  check_size value state_bytes "working_state:not_canonical_json" "working_state:too_large"
  ok supersedes

-- A validated checkpoint-proposal-v1.
pub record Proposal : Type 0 where
  pub base_revision : String
  pub parent_checkpoint : String
  pub working_state : Json

unfoldable pub validate_proposal : Json → Result Proposal
unfolding exact digest validate_working_state
validate_proposal proposal = do
  value ←
      exact proposal ("schema" ∷ "base_revision" ∷ "parent_checkpoint" ∷ "working_state" ∷ [])
        state_code "proposal"
  raise_if (not (is_str "an-kla/checkpoint-proposal-v1" (get value "schema")))
      (policy_error state_code "proposal.schema")
  base ← digest (get value "base_revision") state_code "base_revision:not_digest"
  parent ← digest (get value "parent_checkpoint") state_code "parent_checkpoint:not_digest"
  supersedes ← validate_working_state (get value "working_state")
  raise_if (not (supersedes == parent))
      (policy_error "checkpoint_parent_mismatch" "supersedes_checkpoint:not_current")
  ok (record {
    base_revision = base;
    parent_checkpoint = parent;
    working_state = get value "working_state";
  })
