-- ===== src/WritePolicy/Plan.antt =====
-- `build_write_plan`, `validate_write_plan` and `verify_write_plan` of an_kla/write_policy.py.
use an_kla_memory.Base.{String, ◌<>◌, ◌==◌, Bool, true, false, not, ◌||◌, Option, none, some}
use an_kla_memory.Base.{List, [], ◌∷◌, if◌then◌else◌, Error, write_policy, temporal, subject_ref}
use an_kla_memory.Base.{value_error, type_error, key_error, Result, ok, err, raise_if, ◌>>=◌, ◌>>◌}
use an_kla_memory.Base.Text.{Unicode}
use an_kla_memory.Json.{Json, Fields, Items, nil, cons, field, end, str, arr, obj, texts, get, item}
use an_kla_memory.Json.{is_str, is_text, in_set, has}
use an_kla_memory.Canonical.{canonical_json, digest_json}
use an_kla_memory.Canonical.Identifiers.{drop_chars}
use an_kla_memory.WritePolicy.Types.{Proposal, Authority, stream_name}
use an_kla_memory.WritePolicy.Types.{operation_name, representation_name, authority_class_name}
use an_kla_memory.WritePolicy.Shape.{policy_error, require_exact_keys, is_digest_value}
use an_kla_memory.WritePolicy.Shape.{validate_json_value}
use an_kla_memory.WritePolicy.Proposal.{validate_single_proposal}
use an_kla_memory.WritePolicy.Authority.{validate_write_authority}
use an_kla_memory.WritePolicy.Configuration.{policy_profile}
use an_kla_memory.WritePolicy.Evaluate.{skip, Decision}
use an_kla_memory.WritePolicy.Decision.{decision_json, verdict_name, verdict_names}
use an_kla_memory.WritePolicy.Decision.{verified_decision}

-- The target travels in the planned item of a `supersede`.
abbrev pub target_field : Option String → Fields
target_field none = end
target_field (some target) = field "supersedes" (str target) end

abbrev pub planned_item : Proposal → Json
planned_item p = obj (
    field "stream" (str (stream_name p.stream)) (
      field "operation" (str (operation_name p.operation)) (
        field "representation" (str (representation_name p.requested))
          (field "record" (obj p.row) (target_field p.supersedes)))))

abbrev event_payload : Authority → Decision → Json
event_payload a d = obj (
    field "authority_class" (str (authority_class_name a.authority_class)) (
      field "authority_sha256" (str d.authority_sha256) (
        field "decision" (str (verdict_name d.verdict)) (
          field "policy_fingerprint" (str d.fingerprint) (
            field "policy_profile" (str policy_profile) (
              field "proposal_sha256" (str d.proposal_sha256)
                (field "reason_codes" (arr (texts d.reasons)) end)))))))

-- The event that records the decision itself.
abbrev pub decision_event : Authority → Decision → Json
decision_event a d = obj (
    field "stream" (str "events") (
      field "operation" (str "add") (
        field "representation" (str "summary") (
          field "record"
            (obj (
              field "schema" (str "an-kla/event-v1") (
                field "id" (str ("e-write-policy-" <> drop_chars 7 d.proposal_sha256)) (
                  field "type" (str "write_policy_decision")
                    (field "payload" (event_payload a d) end)))))
            end))))

-- Skipped decisions contain no records.
abbrev pub planned_records : Proposal → Authority → Decision → Items
planned_records p a d = elim d.verdict [
  | skip ↦ nil
  | _ ↦ cons (planned_item p) (cons (decision_event a d) nil)
]

abbrev pub plan_core : String → Decision → String → String → Json
plan_core base d decision_sha256 records_sha256 = obj (
    field "base_revision" (str base) (
      field "proposal_sha256" (str d.proposal_sha256) (
        field "authority_sha256" (str d.authority_sha256) (
          field "policy_fingerprint" (str d.fingerprint) (
            field "decision" (str (verdict_name d.verdict)) (
              field "decision_sha256" (str decision_sha256)
                (field "planned_records_sha256" (str records_sha256) end)))))))

abbrev pub plan_json : Json → Items → String → Json
plan_json core records fingerprint = obj (
    field "schema" (str "an-kla/write-plan-v1") (
      field "core" core
        (field "records" (arr records) (field "plan_fingerprint" (str fingerprint) end))))

abbrev plan_code : String
plan_code = "invalid_write_plan"

abbrev plan_error : String → Error
plan_error detail = policy_error plan_code detail

-- `if not _is_digest(core[field])`, for each field in turn
abbrev digest_fields : List String → Fields → Result (Unit {0})
digest_fields [] core = ok tt
digest_fields (name ∷ names) core = item core name >>= λ v.
    raise_if (not (is_digest_value v)) (plan_error ("core." <> (name <> ":not_digest")))
    >> digest_fields names core

abbrev core_fields : List String
core_fields =
    "base_revision" ∷ "proposal_sha256" ∷ "authority_sha256" ∷ "policy_fingerprint"
    ∷ "decision_sha256" ∷ "planned_records_sha256" ∷ []

unfoldable pub validate_core : Json → Result (Unit {0})
unfolding require_exact_keys is_digest_value
validate_core (obj core) = do
  require_exact_keys core
      ("base_revision" ∷ "proposal_sha256" ∷ "authority_sha256" ∷ "policy_fingerprint" ∷ "decision"
        ∷ "decision_sha256" ∷ "planned_records_sha256" ∷ [])
      [] plan_code "core:keys"
  digest_fields core_fields core
  known ← in_set verdict_names (← item core "decision")
  raise_if (not known) (plan_error "core.decision")
validate_core _ = err (plan_error "core:not_object")

-- `isinstance(item["record"], dict) and item["record"]`
abbrev is_filled : Json → Bool
is_filled (obj (field k v fs)) = true
is_filled _ = false

abbrev record_id : Json → Json
record_id (obj fs) = get fs "id"
record_id _ = Json.null

abbrev same_text : Json → Json → Bool
same_text (str s) (str t) = s == t
same_text _ _ = false

-- The co-occurrence of `operation == "supersede"` and `supersedes` in a planned item.
abbrev check_target : Fields → Json → Result (Unit {0})
check_target item_fields row =
    let operation = get item_fields "operation" in
    let target = get item_fields "supersedes" in
    if is_str "supersede" operation
    then (raise_if (not (is_text target)) (plan_error "records[]:supersedes:missing_for_supersede")
        >> raise_if (same_text target (record_id row))
            (plan_error "records[]:supersedes:self_reference_forbidden"))
    else raise_if (has "supersedes" item_fields)
        (plan_error "records[]:supersedes:present_without_supersede")

unfoldable pub validate_plan_item : Json → Result (Unit {0})
unfolding require_exact_keys
validate_plan_item (obj fs) = do
  require_exact_keys fs ("stream" ∷ "operation" ∷ "representation" ∷ "record" ∷ [])
      ("supersedes" ∷ []) plan_code "records[]:keys"
  known_stream ← in_set ("facts" ∷ "events" ∷ "episodes" ∷ []) (← item fs "stream")
  raise_if (not known_stream) (plan_error "records[]:stream|operation")
  known_operation ← in_set ("add" ∷ "supersede" ∷ "refute" ∷ "decay" ∷ []) (← item fs "operation")
  raise_if (not known_operation) (plan_error "records[]:stream|operation")
  known_representation ← in_set ("full" ∷ "summary" ∷ []) (← item fs "representation")
  raise_if (not known_representation) (plan_error "records[]:representation")
  row ← item fs "record"
  raise_if (not (is_filled row)) (plan_error "records[].record:not_object")
  check_target fs row
validate_plan_item _ = err (plan_error "records[]:not_object")

unfoldable pub validate_plan_items : Items → Result (Unit {0})
unfolding validate_plan_item
validate_plan_items nil = ok tt
validate_plan_items (cons x xs) = validate_plan_item x >> validate_plan_items xs

unfoldable pub validate_write_plan : Json → Result (Unit {0})
unfolding require_exact_keys is_digest_value validate_core validate_plan_items validate_json_value
validate_write_plan (obj plan) = do
  require_exact_keys plan ("schema" ∷ "core" ∷ "records" ∷ "plan_fingerprint" ∷ []) [] plan_code
      "plan:keys"
  schema ← item plan "schema"
  fingerprint ← item plan "plan_fingerprint"
  raise_if (not (is_str "an-kla/write-plan-v1" schema) || not (is_digest_value fingerprint))
      (plan_error "plan:schema|plan_fingerprint")
  core ← item plan "core"
  validate_core core
  records ← item plan "records"
  elim records [ arr xs ↦ validate_plan_items xs | _ ↦ err (plan_error "records:not_list") ]
  validate_json_value (obj plan) plan_code "plan:invalid_json"
validate_write_plan _ = err (plan_error "plan:not_object")

-- The errors that `verify_write_plan` turns into `invalid_write_plan`.
abbrev as_plan_error : Error → Error
as_plan_error (temporal c) = write_policy "invalid_write_plan" none
as_plan_error (subject_ref c) = write_policy "invalid_write_plan" none
as_plan_error (value_error c) = write_policy "invalid_write_plan" none
as_plan_error type_error = write_policy "invalid_write_plan" none
as_plan_error key_error = write_policy "invalid_write_plan" none
as_plan_error e = e

abbrev pub or_plan_error {ℓ} : {A : Type ℓ} → Result A → Result A
or_plan_error (ok a) = ok a
or_plan_error (err e) = err (as_plan_error e)

-- `value["k"]` on a validated dict
abbrev pub part : Json → String → Json
part (obj fs) k = get fs k
part _ k = Json.null

module _ (sha256 : String → String) where
  -- The plan of a checked decision.
  unfoldable pub assemble_plan : Proposal → Authority → Decision → Result Json
  assemble_plan p a d = do
    let records = planned_records p a d
    decision_sha256 ← digest_json sha256 (decision_json d)
    records_sha256 ← digest_json sha256 (arr records)
    let core = plan_core p.base_revision d decision_sha256 records_sha256
    fingerprint ← digest_json sha256 core
    ok (plan_json core records fingerprint)

  module _ (u : Unicode) where
    unfoldable pub build_single_plan : Json → Json → Option Json → Result Json
    unfolding assemble_plan verified_decision
    build_single_plan proposal authority decision = do
      d ← verified_decision sha256 u proposal authority decision
      p ← validate_single_proposal proposal
      a ← validate_write_authority authority
      assemble_plan p a d

    unfoldable pub verify_write_plan : Json → Json → Json → Option Json → Result (Unit {0})
    unfolding validate_write_plan build_single_plan
    verify_write_plan plan proposal authority decision = or_plan_error do
      validate_write_plan plan
      checked ← verified_decision sha256 u proposal authority decision
      core_sha256 ← digest_json sha256 (part plan "core")
      raise_if (not (is_str core_sha256 (part plan "plan_fingerprint")))
          (write_policy "write_plan_hash_mismatch" none)
      records_sha256 ← digest_json sha256 (part plan "records")
      raise_if (not (is_str records_sha256 (part (part plan "core") "planned_records_sha256")))
          (write_policy "write_content_hash_mismatch" none)
      expected ← build_single_plan proposal authority (some (decision_json checked))
      given ← canonical_json plan
      wanted ← canonical_json expected
      raise_if (not (given == wanted)) (write_policy "write_plan_hash_mismatch" none)
