-- ===== src/Store/BatchRecords.antt =====
-- The plan that `build_write_plan` makes of a batch (an_kla/write_batch.py), as a commit takes it.
use an_kla_memory.Base.{String, ◌≡◌, ◌≢◌, sym, ap, ◌∙◌, true, Option, none, List, [], subst}
use an_kla_memory.Base.{Result, ok, >>=-eq-ok, ok_inj, refl}
use an_kla_memory.Base.Text.{Unicode, sorted}
use an_kla_memory.Json.{Json, Items, arr}
use an_kla_memory.Canonical.{digest_json}
use an_kla_memory.WritePolicy.Types.{Proposal, Stream, events}
use an_kla_memory.WritePolicy.Authority.{validate_write_authority}
use an_kla_memory.WritePolicy.Proposal.{validate_single_proposal}
use an_kla_memory.WritePolicy.Evaluate.{Decision, Verdict, skip, write_full, write_summary}
use an_kla_memory.WritePolicy.Evaluate.{is_supported, evaluate_single}
use an_kla_memory.WritePolicy.Ceiling.{evaluate_single-Judged, ladder_passed}
use an_kla_memory.WritePolicy.Decision.{decision_json, verified_decision}
use an_kla_memory.WritePolicy.Plan.{build_single_plan, plan_core, planned_records}
use an_kla_memory.WriteBatch.Validate.{Batch, validate_batch_proposal}
use an_kla_memory.WriteBatch.Judge.{part, twin_of, twin_authority, evaluate_batch}
use an_kla_memory.WriteBatch.Likeness.{twin_of-asks}
use an_kla_memory.WriteBatch.Assemble.{
  batch_items, find_event, items_of, record_digests, batch_event,
}
use an_kla_memory.WriteBatch.Assemble.{seal, batch_records, build_batch_plan, unless_skip}
use an_kla_memory.Store.Reading.{records_of}
use an_kla_memory.Store.PlanItems.{assemble_plan-json}
use an_kla_memory.Store.Pending.{pending, rows_of, take_item}
use an_kla_memory.Store.Pending.{find_event-written, pending-batch_items}
use an_kla_memory.Store.Pending.{written_event}

unless_skip-written :
    (v : Verdict) (records : Result Items) → v ≢ skip → unless_skip v records ≡ records
unless_skip-written skip records h = absurd (h refl)
unless_skip-written write_full records h = refl
unless_skip-written write_summary records h = refl

module _ (sha256 : String → String) where
  seal-records :
      (base : String) (d : Decision) (records : Items) (plan : Json)
      → seal sha256 base d records ≡ ok plan
      → records_of plan ≡ records
  unfolding seal
  seal-records base d records plan h =
      let (ds, h₁, _) = >>=-eq-ok (digest_json sha256 (decision_json d)) _ h in
      let (rs, h₂, _) = >>=-eq-ok (digest_json sha256 (arr records)) _ h₁ in
      let (fp, h₃, _) = >>=-eq-ok (digest_json sha256 (plan_core base d ds rs)) _ h₂ in
      ap records_of (sym (ok_inj h₃))

  module _ (u : Unicode) where
    -- A decision to write is one on an operation that a commit takes.
    evaluate_single-supported :
        (proposal authority : Json) (d : Decision) (p : Proposal)
        → evaluate_single sha256 u proposal authority ≡ ok d
        → d.verdict ≢ skip
        → validate_single_proposal proposal ≡ ok p
        → is_supported p.operation ≡ true
    evaluate_single-supported proposal authority d p h written valid =
        let j = evaluate_single-Judged sha256 u proposal authority d h in
        let (_, known, _, _) =
          ladder_passed _ _ j.p j.a d.proposal_sha256
            (λ e. written (ap (λ (t : Verdict × List String). t.0) j.decided ∙ e)) in
        subst (λ (q : Proposal). is_supported q.operation ≡ true)
          (ok_inj (sym j.proposal_valid ∙ valid)) known

    -- The audit event of the twin's plan, on the stream of events, and the operation of the batch.
    twin_event :
        (proposal authority base found : Json) (b : Batch)
        → validate_batch_proposal proposal ≡ ok b
        → build_single_plan sha256 u (twin_of proposal) authority none ≡ ok base
        → find_event (items_of (part base "records")) ≡ ok found
        → (is_supported b.operation ≡ true)
          × ((t : Stream) (d : Decision) (digests : List String) (event : Json)
              → t ≢ events
              → batch_event found d digests ≡ ok event
              → take_item t event ≡ ok [])
    unfolding build_single_plan verified_decision
    twin_event proposal authority base found b valid h seen =
        let twin = twin_of proposal in
        let (d, h₁, judged) = >>=-eq-ok (evaluate_single sha256 u twin authority) _ h in
        let (p, h₂, valid_twin) = >>=-eq-ok (validate_single_proposal twin) _ h₁ in
        let (a, h₃, _) = >>=-eq-ok (validate_write_authority authority) _ h₂ in
        let (core, fingerprint, shape) = assemble_plan-json sha256 p a d base h₃ in
        let in_plan : find_event (planned_records p a d) ≡ ok found =
          sym (ap (λ v. find_event (items_of (part v "records"))) shape) ∙ seen in
        let written = find_event-written p a d found in_plan in
        let known = evaluate_single-supported twin authority d p judged written valid_twin in
        let (asks, _) = twin_of-asks proposal b p valid valid_twin in
        (
          ap is_supported (sym asks) ∙ known,
          λ t d' digests event other made.
              written_event p a d found known written in_plan t d' digests event other made,
        )

    batch_records-pending :
        (b : Batch) (proposal authority : Json) (d : Decision) (records : Items)
        → validate_batch_proposal proposal ≡ ok b
        → b.stream ≢ events
        → batch_records sha256 u b proposal authority d ≡ ok records
        → pending b.stream records ≡ ok (rows_of b.rows)
    unfolding batch_records
    batch_records-pending b proposal authority d records valid other h =
        let twin = twin_of proposal in
        let (sha, h₁, _) = >>=-eq-ok (digest_json sha256 twin) _ h in
        let (base, h₂, planned) =
          >>=-eq-ok (build_single_plan sha256 u twin (twin_authority authority sha) none) _ h₁ in
        let (items, h₃, made) = >>=-eq-ok (batch_items b b.rows) _ h₂ in
        let (found, h₄, seen) = >>=-eq-ok (find_event (items_of (part base "records"))) _ h₃ in
        let (digests, h₅, _) = >>=-eq-ok (record_digests sha256 b.rows) _ h₄ in
        let (event, h₆, changed) = >>=-eq-ok (batch_event found d (sorted digests)) _ h₅ in
        let (known, taken) =
          twin_event proposal (twin_authority authority sha) base found b valid planned seen in
        ap (pending b.stream) (sym (ok_inj h₆))
        ∙ pending-batch_items b b.rows items event known
            (taken b.stream d (sorted digests) event other changed) made

    -- Of the plan of a batch that is not one of events, a commit takes the rows of the batch.
    pub build_batch_plan-pending :
        (proposal authority : Json) (decision : Option Json) (d : Decision) (b : Batch)
        (plan : Json)
        → evaluate_batch sha256 u proposal authority ≡ ok d
        → d.verdict ≢ skip
        → validate_batch_proposal proposal ≡ ok b
        → b.stream ≢ events
        → build_batch_plan sha256 u proposal authority decision ≡ ok plan
        → pending b.stream (records_of plan) ≡ ok (rows_of b.rows)
    unfolding build_batch_plan
    build_batch_plan-pending proposal authority decision d b plan judged written valid other h =
        let (d₁, h₁, judged₁) = >>=-eq-ok (evaluate_batch sha256 u proposal authority) _ h in
        let (b₁, h₂, valid₁) = >>=-eq-ok (validate_batch_proposal proposal) _ h₁ in
        let (records, h₃, made) =
          >>=-eq-ok (unless_skip d₁.verdict (batch_records sha256 u b₁ proposal authority d₁)) _
            h₂ in
        let same_d : d₁ ≡ d = ok_inj (sym judged₁ ∙ judged) in
        let same_b : b₁ ≡ b = ok_inj (sym valid₁ ∙ valid) in
        let built =
          sym (
            unless_skip-written d₁.verdict (batch_records sha256 u b₁ proposal authority d₁)
              (λ e. written (ap (λ (x : Decision). x.verdict) (sym same_d) ∙ e)))
          ∙ made in
        ap (pending b.stream) (seal-records b₁.base_revision d₁ records plan h₃)
        ∙ batch_records-pending b proposal authority d₁ records valid other (
            ap (λ (x : Batch). batch_records sha256 u x proposal authority d₁) (sym same_b) ∙ built)
