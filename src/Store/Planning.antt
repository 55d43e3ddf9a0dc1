-- ===== src/Store/Planning.antt =====
-- `MemoryStore.plan_write` of an_kla/store.py, for write-proposal-v1: the decision, the guard and
-- the plan, over one CURRENT and its snapshot.
use an_kla_memory.Base.{String, ◌<>◌, ◌==◌, ◌≡◌, ◌≢◌, refl, ap, sym, ◌∙◌, false, not, none, some}
use an_kla_memory.Base.{Result, ok, raise_if, ◌>>=◌, ◌>>◌, write_policy, member}
use an_kla_memory.Base.{>>=-eq-ok, >>-eq-ok, raise_if-eq-ok, arith, eq_iff}
use an_kla_memory.Base.Text.{Unicode}
use an_kla_memory.Json.{Json}
use an_kla_memory.Canonical.Identifiers.{drop_chars}
use an_kla_memory.WritePolicy.Types.{Proposal}
use an_kla_memory.WritePolicy.Proposal.{validate_single_proposal}
use an_kla_memory.WritePolicy.Evaluate.{
  Decision, Verdict, skip, write_full, write_summary, evaluate_single,
}
use an_kla_memory.WritePolicy.Decision.{decision_json}
use an_kla_memory.WritePolicy.Plan.{build_single_plan}
use an_kla_memory.Store.Rows.{Rows, of_stream, ids}
use an_kla_memory.Store.Guard.{guard_plan, planned_targets, resolve_targets}
use an_kla_memory.Store.Reading.{resolve_plan}
use an_kla_memory.Store.PlanItems.{build_single_plan-items}
use an_kla_memory.Store.Guard.{guard_plan-resolves}

module _ (show : Json → String) (sha256 : String → String) (u : Unicode) where
  -- A decision to skip is planned without a look at the records.
  unfoldable pub guard_unless_skip : Verdict → Result Rows → Proposal → Result (Unit {0})
  guard_unless_skip skip snapshot p = ok tt
  guard_unless_skip _ snapshot p = snapshot >>= λ rows. guard_plan show (of_stream p.stream rows) p

  -- `snapshot` is what `self.snapshot(observed)` returns. The proposal that the evaluation accepted
  -- is read again for its base revision, its stream and its record.
  unfoldable pub plan_write : String → Result Rows → Json → Json → Result (Decision × Json)
  unfolding guard_unless_skip
  plan_write observed snapshot proposal authority = do
    d ← evaluate_single sha256 u proposal authority
    p ← validate_single_proposal proposal
    raise_if (not (p.base_revision == observed)) (write_policy "write_plan_base_changed" none)
    guard_unless_skip d.verdict snapshot p
    plan ← build_single_plan sha256 u proposal authority (some (decision_json d))
    ok (d, plan)

  guard_unless_skip-guarded :
      (v : Verdict) (rows : Rows) (p : Proposal)
      → v ≢ skip
      → guard_unless_skip v (ok rows) p ≡ ok tt
      → guard_plan show (of_stream p.stream rows) p ≡ ok tt
  unfolding guard_unless_skip
  guard_unless_skip-guarded skip rows p written h = absurd (written refl)
  guard_unless_skip-guarded write_full rows p written h = h
  guard_unless_skip-guarded write_summary rows p written h = h

  -- A plan to write was made for a valid proposal on the revision that was observed. On the
  -- snapshot it was made on, the new record has a fresh id, and the targets that the commit reads of
  -- the plan's records resolve to the one flip that the proposal asks for.
  pub plan_write-resolves :
      (observed : String) (rows : Rows) (proposal authority : Json) (d : Decision) (plan : Json)
      → plan_write observed (ok rows) proposal authority ≡ ok (d, plan)
      → d.verdict ≢ skip
      → (p : Proposal) × (validate_single_proposal proposal ≡ ok p)
        × (p.base_revision ≡ observed)
        × (resolve_plan show rows plan ≡ ok (planned_targets p))
        × (member p.row_id (ids show (of_stream p.stream rows)) ≡ false)
  unfolding plan_write resolve_plan
  plan_write-resolves observed rows proposal authority d plan h written =
      let (d', h₁, judged) = >>=-eq-ok (evaluate_single sha256 u proposal authority) _ h in
      let (p, h₂, valid) = >>=-eq-ok (validate_single_proposal proposal) _ h₁ in
      let (based, h₃) = raise_if-eq-ok (not (p.base_revision == observed)) _ _ h₂ in
      let (guarded, h₄) = >>-eq-ok (guard_unless_skip d'.verdict (ok rows) p) _ h₃ in
      let (plan', h₅, built) =
        >>=-eq-ok (build_single_plan sha256 u proposal authority (some (decision_json d'))) _ h₄ in
      let same : d' ≡ d = cc h₅ in
      let same_plan : plan' ≡ plan = cc h₅ in
      let written' : d'.verdict ≢ skip =
        λ e. written (ap (λ (x : Decision). x.verdict) (sym same) ∙ e) in
      let items =
        build_single_plan-items sha256 u proposal authority d' p plan' judged written' valid
          built in
      let (resolved, fresh) =
        guard_plan-resolves show rows p ("e-write-policy-" <> drop_chars 7 d'.proposal_sha256)
          (guard_unless_skip-guarded d'.verdict rows p written' guarded) in
      (
        p,
        valid,
        ground (arith, eq_iff p.base_revision observed, based),
        ap (resolve_plan show rows) (sym same_plan)
            ∙ (ap (λ m. m >>= resolve_targets show rows) items ∙ resolved),
        fresh,
      )
