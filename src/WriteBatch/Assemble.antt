-- ===== src/WriteBatch/Assemble.antt =====
-- `build_batch_write_plan` of an_kla/write_batch.py, and the dispatch of `build_write_plan`.
use an_kla_memory.Base.{
  String, Bool, ◌&&◌, Option, none, some, List, [], ◌∷◌, if◌then◌else◌, Result, ok, err, ◌>>=◌,
  key_error,
}
use an_kla_memory.Base.{stop_iteration, type_error, cons_results}
use an_kla_memory.Base.Text.{Unicode, sorted}
use an_kla_memory.Json.{
  Json, Fields, Items, nil, cons, field, end, str, arr, obj, lookup, put, texts, is_str, get,
}
use an_kla_memory.Canonical.{digest_json}
use an_kla_memory.WritePolicy.Types.{
  Operation, supersede, stream_name, operation_name, representation_name,
}
use an_kla_memory.WritePolicy.Evaluate.{Decision, Verdict, skip}
use an_kla_memory.WritePolicy.Decision.{decision_json, verdict_name}
use an_kla_memory.WritePolicy.Plan.{plan_core, plan_json, build_single_plan}
use an_kla_memory.WriteBatch.Validate.{Batch, validate_batch_proposal}
use an_kla_memory.WriteBatch.Judge.{part, is_batch, twin_of, twin_authority, evaluate_batch}

-- `item["supersedes"] = proposal["supersedes"][record["id"]]`
unfoldable pub target_field : Operation → Fields → String → Result Fields
target_field supersede targets id = elim (lookup id targets) [
  | none ↦ err key_error
  | some target ↦ ok (field "supersedes" target end)
]
target_field _ targets id = ok end

-- The planned item of one record.
abbrev pub batch_item : Batch → Fields → Fields → Json
batch_item b row target = obj (
    field "stream" (str (stream_name b.stream)) (
      field "operation" (str (operation_name b.operation)) (
        field "representation" (str (representation_name b.requested))
          (field "record" (obj row) target))))

unfoldable pub batch_items : Batch → List (String × Fields) → Result (List Json)
unfolding target_field
batch_items b [] = ok []
batch_items b ((id, row) ∷ rows) =
    cons_results (target_field b.operation b.targets id >>= λ target. ok (batch_item b row target))
      (batch_items b rows)

-- The first item on the stream of events whose record has the type of the audit event.
abbrev pub is_decision_event : Json → Bool
is_decision_event x =
    is_str "events" (part x "stream")
    && is_str "write_policy_decision" (part (part x "record") "type")

unfoldable pub find_event : Items → Result Json
find_event nil = err stop_iteration
find_event (cons x xs) = let rest = find_event xs in if is_decision_event x then ok x else rest

-- `payload[...] = ...`, four times
abbrev updated_payload : Fields → Decision → List String → Fields
updated_payload payload d digests = put "batch_records_sha256" (arr (texts digests)) (
    put "reason_codes" (arr (texts d.reasons)) (
      put "decision" (str (verdict_name d.verdict))
        (put "proposal_sha256" (str d.proposal_sha256) payload)))

-- `payload` of the event's record, which must be a dict.
abbrev pub with_payload : Fields → Fields → Json → Decision → List String → Result Json
with_payload event row (obj fs) d digests =
    ok (obj (put "record" (obj (put "payload" (obj (updated_payload fs d digests)) row)) event))
with_payload event row _ d digests = err type_error

-- The event, with what it says of the decision replaced.
unfoldable pub batch_event : Json → Decision → List String → Result Json
batch_event (obj event) d digests = elim (get event "record") [
  | obj row ↦ elim (lookup "payload" row) [
    | none ↦ err key_error
    | some payload ↦ with_payload event row payload d digests
  ]
  | _ ↦ err type_error
]
batch_event _ d digests = err type_error

abbrev pub items_of : Json → Items
items_of (arr xs) = xs
items_of _ = nil

abbrev pub followed_by : List Json → Json → Items
followed_by [] last = cons last nil
followed_by (x ∷ xs) last = cons x (followed_by xs last)

-- A decision to skip plans no records.
abbrev pub unless_skip : Verdict → Result Items → Result Items
unless_skip skip records = ok nil
unless_skip _ records = records

module _ (sha256 : String → String) where
  unfoldable pub record_digests : List (String × Fields) → Result (List String)
  record_digests [] = ok []
  record_digests ((id, row) ∷ rows) =
      cons_results (digest_json sha256 (obj row)) (record_digests rows)

  -- `core` and the plan around it
  unfoldable pub seal : String → Decision → Items → Result Json
  seal base d records = do
    decision_sha256 ← digest_json sha256 (decision_json d)
    records_sha256 ← digest_json sha256 (arr records)
    let core = plan_core base d decision_sha256 records_sha256
    fingerprint ← digest_json sha256 core
    ok (plan_json core records fingerprint)

  module _ (u : Unicode) where
    -- The records of a plan that writes: one item for each record, then the audit event of the twin.
    unfoldable pub batch_records : Batch → Json → Json → Decision → Result Items
    unfolding twin_of twin_authority build_single_plan batch_items find_event record_digests
        batch_event
    batch_records b proposal authority d = do
      let twin = twin_of proposal
      twin_sha256 ← digest_json sha256 twin
      base ← build_single_plan sha256 u twin (twin_authority authority twin_sha256) none
      items ← batch_items b b.rows
      found ← find_event (items_of (part base "records"))
      digests ← record_digests b.rows
      event ← batch_event found d (sorted digests)
      ok (followed_by items event)

    -- `decision` is not read: the batch is judged again.
    unfoldable pub build_batch_plan : Json → Json → Option Json → Result Json
    unfolding evaluate_batch validate_batch_proposal batch_records seal
    build_batch_plan proposal authority decision = do
      d ← evaluate_batch sha256 u proposal authority
      b ← validate_batch_proposal proposal
      records ← unless_skip d.verdict (batch_records b proposal authority d)
      seal b.base_revision d records

    -- `build_write_plan` goes by the schema.
    unfoldable pub build_write_plan : Json → Json → Option Json → Result Json
    unfolding build_batch_plan build_single_plan
    build_write_plan proposal authority decision =
        if is_batch proposal
        then build_batch_plan proposal authority decision
        else build_single_plan sha256 u proposal authority decision
