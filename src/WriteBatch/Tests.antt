-- ===== src/WriteBatch/Tests.antt =====
-- A batch of two records for each theorem on batches.
use an_kla_memory.Base.{String, ◌≡◌, refl, true, false, none, [], ◌∷◌, ok, err, key_error, Result}
use an_kla_memory.Base.Text.{strip, casefold}
use an_kla_memory.Json.{Json, Fields, nil, cons, field, end, str, bool, arr, obj}
use an_kla_memory.Json.Limits.{visit}
use an_kla_memory.Canonical.{canonical_json, digest_json, insert_member, member_text}
use an_kla_memory.Record.RecordText.{record_text}
use an_kla_memory.WritePolicy.Types.{
  Authority, Operation, full, summary, Stream, Proposal, tool_observed, derived_from_retrieval,
  verified, facts,
}
use an_kla_memory.WritePolicy.Authority.{validate_write_authority}
use an_kla_memory.WritePolicy.Configuration.{policy_fingerprint}
use an_kla_memory.WritePolicy.Evaluate.{Decision, ladder, contains_self_asserted, write_summary}
use an_kla_memory.WritePolicy.Ceiling.{has_verified}
use an_kla_memory.WritePolicy.Samples.{
  constant_sha256, some_digest, ascii, full_decision, summary_decision,
}
use an_kla_memory.WritePolicy.Samples.{observed_authority, derived_authority}
use an_kla_memory.WritePolicy.Proposal.{validate_single_proposal}
use an_kla_memory.WriteBatch.Validate.{Batch, validate_batch_proposal}
use an_kla_memory.WriteBatch.Judge.{evaluate_batch}
use an_kla_memory.WriteBatch.Ceiling.{batch_full_needs_observation, batch_retrieval_ceiling}
use an_kla_memory.WritePolicy.Plan.{planned_item, decision_event, build_single_plan}
use an_kla_memory.WriteBatch.Assemble.{find_event, batch_event, build_batch_plan}
use an_kla_memory.Store.Rows.{Rows}
use an_kla_memory.Store.Assign.{assign_rows}
use an_kla_memory.Store.BatchGuard.{guard_batch}
use an_kla_memory.Store.BatchPlanning.{plan_batch, plan_batch-assigns}
use an_kla_memory.Store.Reading.{records_of}
use an_kla_memory.Store.Pending.{pending}
use an_kla_memory.Base.{◌>>=◌}

abbrev row_of : String → Fields
row_of id = field "id" (str id) (field "text" (str "x") end)

abbrev batch_of : String → Json
batch_of representation = obj (
    field "schema" (str "an-kla/write-proposal-v2") (
      field "base_revision" (str some_digest) (
        field "stream" (str "facts") (
          field "operation" (str "add") (
            field "requested_representation" (str representation) (
              field "records" (arr (cons (obj (row_of "f-1")) (cons (obj (row_of "f-3")) nil))) (
                field "lineage"
                  (obj (field "derived_from_retrieval" (bool false) (field "refs" (arr nil) end)))
                  end)))))))

batch_full_run :
    evaluate_batch constant_sha256 ascii (batch_of "full") observed_authority ≡ ok full_decision
unfolding evaluate_batch validate_write_authority digest_json visit canonical_json
    policy_fingerprint ladder record_text strip contains_self_asserted casefold
    validate_single_proposal
batch_full_run = refl

batch_summary_run :
    evaluate_batch constant_sha256 ascii (batch_of "summary") derived_authority
    ≡ ok summary_decision
unfolding evaluate_batch validate_write_authority digest_json visit canonical_json
    policy_fingerprint ladder record_text strip contains_self_asserted casefold
    validate_single_proposal
batch_summary_run = refl

batch_full_needs_observation_example :
    (b : Batch) × (a : Authority) × (validate_batch_proposal (batch_of "full") ≡ ok b)
    × (validate_write_authority observed_authority ≡ ok a)
    × (b.requested ≡ full)
    × (a.authority_class ≡ tool_observed)
    × (has_verified a.evidence ≡ true)
    × (digest_json constant_sha256 (batch_of "full") ≡ ok a.proposal_sha256)
    × (a.base_revision ≡ b.base_revision)
batch_full_needs_observation_example =
    batch_full_needs_observation constant_sha256 ascii (batch_of "full") observed_authority
      full_decision batch_full_run refl

abbrev summary_batch : Batch
summary_batch = record {
  base_revision = some_digest;
  stream = facts;
  operation = Operation.add;
  requested = summary;
  rows = ("f-1", row_of "f-1") ∷ ("f-3", row_of "f-3") ∷ [];
  targets = end;
  derived = false;
}

abbrev retrieved : Authority
retrieved = record {
  proposal_sha256 = some_digest;
  base_revision = some_digest;
  authority_class = derived_from_retrieval;
  evidence = record { resolution = verified; has_sha256 = true } ∷ [];
  streams = facts ∷ [];
  representations = summary ∷ [];
  operations = Operation.add ∷ [];
}

summary_batch_valid : validate_batch_proposal (batch_of "summary") ≡ ok summary_batch
unfolding validate_batch_proposal visit canonical_json
summary_batch_valid = refl

retrieved_valid : validate_write_authority derived_authority ≡ ok retrieved
unfolding validate_write_authority visit canonical_json
retrieved_valid = refl

batch_retrieval_ceiling_example :
    (summary_batch.operation ≡ Operation.add)
    × (summary_batch.requested ≡ summary)
    × (summary_decision.verdict ≡ write_summary)
batch_retrieval_ceiling_example =
    batch_retrieval_ceiling constant_sha256 ascii (batch_of "summary") derived_authority
      summary_decision summary_batch retrieved batch_summary_run summary_batch_valid retrieved_valid
      refl (λ e. cc)

abbrev no_show : Json → String
no_show v = ""

abbrev base : Rows
base = record { facts_part = row_of "f-2" ∷ []; events_part = []; episodes_part = [] }

abbrev plan_part : Result (Decision × Json) → Json
plan_part (ok (d, plan)) = plan
plan_part (err e) = Json.null

unfoldable planned : Json
unfolding plan_batch visit canonical_json digest_json policy_fingerprint ladder record_text strip
    contains_self_asserted casefold
planned = plan_part (
    plan_batch no_show constant_sha256 ascii some_digest (ok base) (batch_of "full")
      observed_authority)

planned_run :
    plan_batch no_show constant_sha256 ascii some_digest
      (ok base)
      (batch_of "full")
      observed_authority
    ≡ ok (full_decision, planned)
unfolding planned plan_batch visit canonical_json digest_json policy_fingerprint ladder record_text
    strip contains_self_asserted casefold evaluate_batch validate_single_proposal
    validate_write_authority guard_batch build_single_plan build_batch_plan insert_member
    member_text
planned_run = refl

abbrev full_batch : Batch
full_batch = record summary_batch { requested = full }

full_batch_valid : validate_batch_proposal (batch_of "full") ≡ ok full_batch
unfolding validate_batch_proposal visit canonical_json
full_batch_valid = refl

plan_batch-assigns_example :
    (some_digest ≡ some_digest)
    × ((pending facts (records_of planned) >>= assign_rows "facts" ("f-2" ∷ []))
        ≡ ok (row_of "f-1" ∷ row_of "f-3" ∷ []))
plan_batch-assigns_example =
    plan_batch-assigns no_show constant_sha256 ascii some_digest base (batch_of "full")
      observed_authority full_decision planned full_batch planned_run (λ e. cc) full_batch_valid
      (λ e. cc)

-- A first record of type `write_policy_decision` on the stream of events stands before the audit
-- event of the twin, and is taken for it.
abbrev impostor : Proposal
impostor = record {
  base_revision = some_digest;
  stream = Stream.events;
  operation = Operation.add;
  requested = summary;
  row = field "id" (str "e-1") (field "type" (str "write_policy_decision") end);
  row_id = "e-1";
  supersedes = none;
  derived = false;
}

impostor_found :
    find_event (cons (planned_item impostor) (cons (decision_event retrieved summary_decision) nil))
    ≡ ok (planned_item impostor)
unfolding find_event
impostor_found = refl

-- It has no payload, so the plan of a valid batch ends in a `KeyError`.
impostor_fails : batch_event (planned_item impostor) summary_decision [] ≡ err key_error
unfolding batch_event
impostor_fails = refl
