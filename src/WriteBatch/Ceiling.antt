-- ===== src/WriteBatch/Ceiling.antt =====
-- What an authority can obtain for a batch: no more than for a proposal of one record.
use an_kla_memory.Base.{
  String, ◌==◌, ◌≡◌, ◌≢◌, refl, sym, ap, ◌∙◌, true, not, ◌||◌, ok, arith, eq_iff,
}
use an_kla_memory.Base.{>>=-eq-ok, Bool-cases, inl, inr}
use an_kla_memory.Base.Text.{Unicode}
use an_kla_memory.Json.{Json}
use an_kla_memory.Canonical.{digest_json}
use an_kla_memory.WritePolicy.Types.{
  Authority, Operation, full, summary, tool_observed, derived_from_retrieval,
}
use an_kla_memory.WritePolicy.Authority.{validate_write_authority}
use an_kla_memory.WritePolicy.Configuration.{policy_fingerprint}
use an_kla_memory.WritePolicy.Evaluate.{Decision, skip, write_full, write_summary, evaluate_single}
use an_kla_memory.WritePolicy.Ceiling.{
  has_verified, full_needs_observation, retrieval_ceiling, evaluate_single-Judged,
}
use an_kla_memory.WriteBatch.Validate.{Batch, validate_batch_proposal}
use an_kla_memory.WriteBatch.Judge.{twin_of, twin_authority, batch_decision, evaluate_batch}
use an_kla_memory.WriteBatch.Twin.{twin_authority-class}
use an_kla_memory.Base.{ok_inj}
use an_kla_memory.WriteBatch.Likeness.{twin_of-asks}

module _ (u : Unicode) where
  -- A batch that is not skipped has the verdict of its twin, and the authority names it.
  batch_decision-twin :
      (b : Batch) (a : Authority) (t : Decision) (digest₁ digest₂ fingerprint : String)
      → (batch_decision u b a t digest₁ digest₂ fingerprint).verdict ≢ skip
      → (a.proposal_sha256 ≡ digest₁)
        × (a.base_revision ≡ b.base_revision)
        × ((batch_decision u b a t digest₁ digest₂ fingerprint).verdict ≡ t.verdict)
  unfolding batch_decision
  batch_decision-twin b a t digest₁ digest₂ fingerprint h =
      elim (Bool-cases
        (not (a.proposal_sha256 == digest₁) || not (a.base_revision == b.base_revision))) [
          | inl outside ↦ absurd (h (rw outside refl))
          | inr inside ↦ (
            ground (arith, eq_iff a.proposal_sha256 digest₁, inside),
            ground (arith, eq_iff a.base_revision b.base_revision, inside),
            rw inside refl,
          )
        ]

module _ (sha256 : String → String) (u : Unicode) where
  -- What a batch that is not skipped went through.
  record Accepted (proposal authority : Json) (d : Decision) : Type 0 where
    b : Batch
    a : Authority
    t : Decision
    twin_sha256 : String
    batch_valid : validate_batch_proposal proposal ≡ ok b
    authority_valid : validate_write_authority authority ≡ ok a
    judged :
        evaluate_single sha256 u (twin_of proposal) (twin_authority authority twin_sha256) ≡ ok t
    same_verdict : d.verdict ≡ t.verdict
    named : digest_json sha256 proposal ≡ ok a.proposal_sha256
    based : a.base_revision ≡ b.base_revision

  evaluate_batch-Accepted :
      (proposal authority : Json) (d : Decision)
      → evaluate_batch sha256 u proposal authority ≡ ok d
      → d.verdict ≢ skip
      → Accepted proposal authority d
  unfolding evaluate_batch
  evaluate_batch-Accepted proposal authority d h written =
      let (b, h₁, batch_valid) = >>=-eq-ok (validate_batch_proposal proposal) _ h in
      let (a, h₂, authority_valid) = >>=-eq-ok (validate_write_authority authority) _ h₁ in
      let (digest, h₃, _) = >>=-eq-ok (digest_json sha256 (twin_of proposal)) _ h₂ in
      let (t, h₄, judged) =
        >>=-eq-ok (evaluate_single sha256 u (twin_of proposal) (twin_authority authority digest)) _
          h₃ in
      let (digest₁, h₅, e₁) = >>=-eq-ok (digest_json sha256 proposal) _ h₄ in
      let (digest₂, h₆, _) = >>=-eq-ok (digest_json sha256 authority) _ h₅ in
      let (fingerprint, h₇, _) = >>=-eq-ok (policy_fingerprint sha256) _ h₆ in
      let same = ap (λ (x : Decision). x.verdict) (ok_inj h₇) in
      let (named, based, verdict) =
        batch_decision-twin u b a t digest₁ digest₂ fingerprint (λ k. written (sym same ∙ k)) in
      record {
        b = b;
        a = a;
        t = t;
        twin_sha256 = digest;
        batch_valid = batch_valid;
        authority_valid = authority_valid;
        judged = judged;
        same_verdict = sym same ∙ verdict;
        named = e₁ ∙ ap ok (sym named);
        based = based;
      }

  -- A decision to write a batch in full was reached from a valid batch that asks for the full
  -- representation and a valid authority of class `tool_observed` with verified evidence, which
  -- names the digest of exactly this batch and its base revision.
  pub batch_full_needs_observation :
      (proposal authority : Json) (d : Decision)
      → evaluate_batch sha256 u proposal authority ≡ ok d
      → d.verdict ≡ write_full
      → (b : Batch) × (a : Authority) × (validate_batch_proposal proposal ≡ ok b)
        × (validate_write_authority authority ≡ ok a)
        × (b.requested ≡ full)
        × (a.authority_class ≡ tool_observed)
        × (has_verified a.evidence ≡ true)
        × (digest_json sha256 proposal ≡ ok a.proposal_sha256)
        × (a.base_revision ≡ b.base_revision)
  batch_full_needs_observation proposal authority d h in_full =
      let x = evaluate_batch-Accepted proposal authority d h (λ k. cc (in_full, k)) in
      let (p, a', p_valid, a'_valid, ground_of, _, _) =
        full_needs_observation sha256 u (twin_of proposal) (twin_authority authority x.twin_sha256)
          x.t x.judged (sym x.same_verdict ∙ in_full) in
      let (same_class, same_evidence) =
        twin_authority-class authority x.twin_sha256 x.a a' x.authority_valid a'_valid in
      let (_, same_requested) = twin_of-asks proposal x.b p x.batch_valid p_valid in
      (
        x.b,
        x.a,
        x.batch_valid,
        x.authority_valid,
        sym same_requested ∙ ground_of.asked,
        sym same_class ∙ ground_of.observed,
        ap has_verified (sym same_evidence) ∙ ground_of.evidenced,
        x.named,
        x.based,
      )

  -- An authority of class `derived_from_retrieval` obtains for a batch nothing but summaries that
  -- are added.
  pub batch_retrieval_ceiling :
      (proposal authority : Json) (d : Decision) (b : Batch) (a : Authority)
      → evaluate_batch sha256 u proposal authority ≡ ok d
      → validate_batch_proposal proposal ≡ ok b
      → validate_write_authority authority ≡ ok a
      → a.authority_class ≡ derived_from_retrieval
      → d.verdict ≢ skip
      → (b.operation ≡ Operation.add) × (b.requested ≡ summary) × (d.verdict ≡ write_summary)
  batch_retrieval_ceiling proposal authority d b a h vb va c written =
      let x = evaluate_batch-Accepted proposal authority d h written in
      let j =
        evaluate_single-Judged sha256 u (twin_of proposal) (twin_authority authority x.twin_sha256)
          x.t x.judged in
      let (same_class, _) =
        twin_authority-class authority x.twin_sha256 a j.a va j.authority_valid in
      let (same_operation, same_requested) = twin_of-asks proposal b j.p vb j.proposal_valid in
      let (added, asked, v) =
        retrieval_ceiling sha256 u (twin_of proposal) (twin_authority authority x.twin_sha256) x.t
          j.p j.a x.judged j.proposal_valid j.authority_valid (same_class ∙ c)
          (λ k. written (x.same_verdict ∙ k)) in
      (sym same_operation ∙ added, sym same_requested ∙ asked, x.same_verdict ∙ v)
