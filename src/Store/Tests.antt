-- ===== src/Store/Tests.antt =====
-- A small snapshot for each theorem on the records of a revision.
use an_kla_memory.Base.{String, ◌≡◌, refl, false, some, List, [], ◌∷◌, ◌++◌, ok, member}
use an_kla_memory.Json.{Json, Fields, field, end, str}
use an_kla_memory.Canonical.{insert_member, member_text, digest_json, canonical_json}
use an_kla_memory.Record.Vigency.{is_active}
use an_kla_memory.WritePolicy.Types.{Proposal, Operation, summary, facts}
use an_kla_memory.Store.Rows.{of_stream, Rows, ids, scan_rows}
use an_kla_memory.Store.Overlay.{Supersession, overlay_rows, AllShown, overlay_rows-AllShown}
use an_kla_memory.Store.Assign.{assign_rows, assign_rows-keeps_scan}
use an_kla_memory.Base.{Option}
use an_kla_memory.Store.BatchGuard.{guard_batch, AllGuarded, guard_batch-AllGuarded}
use an_kla_memory.Store.Guard.{guard_plan, resolve_targets, planned_items, planned_targets}
use an_kla_memory.Store.Guard.{guard_plan-resolves}
use an_kla_memory.Store.Reading.{resolve_plan}
use an_kla_memory.Store.Planning.{plan_write, plan_write-resolves}
use an_kla_memory.Base.{Result, err}
use an_kla_memory.Base.Text.{strip, casefold}
use an_kla_memory.Json.{null}
use an_kla_memory.Json.Limits.{visit}
use an_kla_memory.Record.RecordText.{record_text}
use an_kla_memory.WritePolicy.Proposal.{validate_single_proposal}
use an_kla_memory.WritePolicy.Configuration.{policy_fingerprint}
use an_kla_memory.WritePolicy.Evaluate.{evaluate_single, Decision, ladder, contains_self_asserted}
use an_kla_memory.WritePolicy.Authority.{validate_write_authority}
use an_kla_memory.WritePolicy.Plan.{build_single_plan}
use an_kla_memory.WritePolicy.Samples.{
  proposal_of, observed_authority, full_decision, some_digest, ascii,
}

abbrev no_show : Json → String
no_show v = ""

abbrev constant_sha256 : String → String
constant_sha256 s = "0123456789abcdef0123456789abcdef0123456789abcdef0123456789abcdef"

abbrev row_of : String → Fields
row_of id = field "id" (str id) end

abbrev base_rows : List Fields
base_rows = row_of "f-2" ∷ row_of "f-4" ∷ []

abbrev base : Rows
base = record { facts_part = base_rows; events_part = []; episodes_part = [] }

abbrev replacement : Proposal
replacement = record {
  base_revision = "r1";
  stream = facts;
  operation = Operation.supersede;
  requested = summary;
  row = row_of "f-3";
  row_id = "f-3";
  supersedes = some "f-2";
  derived = false;
}

guarded : guard_plan no_show base_rows replacement ≡ ok tt
unfolding guard_plan is_active
guarded = refl

guard_plan-resolves_example :
    (resolve_targets no_show base (planned_items replacement "e-1")
      ≡ ok (planned_targets replacement))
    × (member "f-3" (ids no_show base_rows) ≡ false)
guard_plan-resolves_example = guard_plan-resolves no_show base replacement "e-1" guarded

scanned : scan_rows no_show "facts" [] base_rows ≡ ok base_rows
unfolding scan_rows
scanned = refl

assigned : assign_rows "facts" (ids no_show base_rows) (row_of "f-3" ∷ []) ≡ ok (row_of "f-3" ∷ [])
unfolding assign_rows
assigned = refl

assign_rows-keeps_scan_example :
    ((row_of "f-3" ∷ []) ≡ (row_of "f-3" ∷ []))
    × (scan_rows no_show "facts" [] (base_rows ++ (row_of "f-3" ∷ []))
        ≡ ok (base_rows ++ (row_of "f-3" ∷ [])))
assign_rows-keeps_scan_example =
    assign_rows-keeps_scan no_show "facts" base_rows (row_of "f-3" ∷ []) scanned assigned

abbrev flips : List Supersession
flips = record { stream = facts; target_id = "f-2"; successor = "f-3" } ∷ []

abbrev shown_rows : List Fields
shown_rows = field "id" (str "f-2") (field "status" (str "sustituida") end) ∷ row_of "f-4" ∷ []

shown_run : overlay_rows no_show constant_sha256 flips [] facts base_rows ≡ ok shown_rows
unfolding overlay_rows digest_json canonical_json
shown_run = refl

overlay_rows-AllShown_example : AllShown no_show constant_sha256 flips [] facts base_rows shown_rows
overlay_rows-AllShown_example =
    overlay_rows-AllShown no_show constant_sha256 flips [] facts base_rows shown_rows shown_run

abbrev plan_part : Result (Decision × Json) → Json
plan_part (ok (d, plan)) = plan
plan_part (err e) = null

-- The plan of the sample proposal, on the small snapshot.
unfoldable planned : Json
unfolding plan_write visit canonical_json digest_json policy_fingerprint ladder record_text strip
    contains_self_asserted casefold
planned = plan_part (
    plan_write no_show constant_sha256 ascii some_digest (ok base) (proposal_of "full")
      observed_authority)

planned_run :
    plan_write no_show constant_sha256 ascii some_digest
      (ok base)
      (proposal_of "full")
      observed_authority
    ≡ ok (full_decision, planned)
unfolding planned plan_write visit canonical_json digest_json policy_fingerprint ladder record_text
    strip contains_self_asserted casefold evaluate_single validate_single_proposal
    validate_write_authority guard_plan build_single_plan insert_member member_text
planned_run = refl

plan_write-resolves_example :
    (p : Proposal) × (validate_single_proposal (proposal_of "full") ≡ ok p)
    × (p.base_revision ≡ some_digest)
    × (resolve_plan no_show base planned ≡ ok (planned_targets p))
    × (member p.row_id (ids no_show (of_stream p.stream base)) ≡ false)
plan_write-resolves_example =
    plan_write-resolves no_show constant_sha256 ascii some_digest base (proposal_of "full")
      observed_authority full_decision planned planned_run (λ e. cc)

abbrev pairs : List (String × Option String)
pairs = ("f-5", some "f-2") ∷ ("f-6", some "f-4") ∷ []

batch_run : guard_batch no_show base_rows Operation.supersede pairs ≡ ok tt
unfolding guard_batch is_active
batch_run = refl

guard_batch-AllGuarded_example : AllGuarded no_show base_rows replacement pairs
guard_batch-AllGuarded_example =
    guard_batch-AllGuarded no_show base_rows replacement pairs refl batch_run
