-- ===== src/WritePolicy/Ceiling.antt =====
-- What an authority can obtain: the ladder of `evaluate_write`, from the decision back to the
-- validated proposal and authority.
use an_kla_memory.Base.{String, ◌==◌, ◌≡◌, refl, sym, ◌∙◌, eq_iff, ◌≢◌, Bool, true, List, [], any}
use an_kla_memory.Base.{Result, ok, err, arith, if◌then◌else◌, inl, inr, ap, subst}
use an_kla_memory.Base.{Bool-cases}
use an_kla_memory.Base.Text.{Unicode, add}
use an_kla_memory.Json.{Json, obj}
use an_kla_memory.Canonical.{digest_json}
use an_kla_memory.Record.RecordText.{record_text}
use an_kla_memory.WritePolicy.Types.{Proposal, Authority, Evidence, AuthorityClass, Operation}
use an_kla_memory.WritePolicy.Types.{Representation, full, summary, tool_observed}
use an_kla_memory.WritePolicy.Types.{channel_confirmed, model_derived, derived_from_retrieval}
use an_kla_memory.WritePolicy.Types.{supersede, refute, decay}
use an_kla_memory.WritePolicy.Proposal.{validate_single_proposal}
use an_kla_memory.WritePolicy.Authority.{validate_write_authority, is_verified}
use an_kla_memory.WritePolicy.Configuration.{policy_fingerprint}
use an_kla_memory.WritePolicy.Evaluate.{Verdict, skip, write_full, write_summary, Decision, ladder}
use an_kla_memory.WritePolicy.Evaluate.{
  contains_self_asserted, judge, decision_of, class_rung, in_scope,
}
use an_kla_memory.WritePolicy.Evaluate.{is_supported, evaluate_single}

abbrev pub has_verified : List Evidence → Bool
has_verified evidence = any (λ e. is_verified e.resolution) evidence

-- What a decision to write the record in full rests on.
pub record FullGround (p : Proposal) (a : Authority) : Type 0 where
  pub observed : a.authority_class ≡ tool_observed
  pub evidenced : has_verified a.evidence ≡ true
  pub asked : p.requested ≡ full

class_rung-full :
    (c : AuthorityClass) (evidence : List Evidence) (op : Operation) (r : Representation) (w : Bool)
    (reasons : List String)
    → (class_rung c evidence op r w reasons).0 ≡ write_full
    → (c ≡ tool_observed) × (has_verified evidence ≡ true) × (r ≡ full)
unfolding class_rung
class_rung-full AuthorityClass.unresolved evidence op r w reasons h = cc
class_rung-full tool_observed evidence op full w reasons h = ground arith
class_rung-full tool_observed evidence op summary w reasons h = ground arith
class_rung-full channel_confirmed evidence op r w reasons h = cc
class_rung-full model_derived evidence op full w reasons h = ground arith
class_rung-full model_derived evidence op summary w reasons h = ground arith
class_rung-full derived_from_retrieval evidence op full w reasons h = ground arith
class_rung-full derived_from_retrieval evidence op summary w reasons h = ground arith

-- An authority that the model read off a retrieval adds a summary, or obtains nothing.
class_rung-retrieval :
    (evidence : List Evidence) (op : Operation) (r : Representation) (w : Bool)
    (reasons : List String)
    → (class_rung derived_from_retrieval evidence op r w reasons).0 ≢ skip
    → (op ≡ Operation.add)
      × (r ≡ summary)
      × ((class_rung derived_from_retrieval evidence op r w reasons).0 ≡ write_summary)
unfolding class_rung
class_rung-retrieval evidence Operation.add full w reasons h = absurd (h refl)
class_rung-retrieval evidence Operation.add summary w reasons h = (refl, refl, refl)
class_rung-retrieval evidence supersede r w reasons h = absurd (h refl)
class_rung-retrieval evidence refute r w reasons h = absurd (h refl)
class_rung-retrieval evidence decay r w reasons h = absurd (h refl)

-- A decision other than `skip` passed the first two tests, and the class decided the rest.
pub ladder_passed :
    (s w : Bool) (p : Proposal) (a : Authority) (digest : String)
    → (ladder s w p a digest).0 ≢ skip
    → (in_scope p a digest ≡ true)
      × (is_supported p.operation ≡ true)
      × (reasons : List String) × (ladder s w p a digest
          ≡ class_rung a.authority_class a.evidence p.operation p.requested w reasons)
unfolding ladder
ladder_passed s w p a digest h = elim (Bool-cases (in_scope p a digest)) [
  | inl inside ↦ elim (Bool-cases (is_supported p.operation)) [
    | inl known ↦
        let first : List String = if s then add "self_asserted_authority_ignored" [] else [] in
        (
          inside,
          known,
          if p.derived then add "derived_from_retrieval" first else first,
          rw (inside, known),
        )
    | inr unknown ↦ absurd (h (rw (inside, unknown)))
  ]
  | inr outside ↦ absurd (h (rw outside))
]

-- The scope test binds the digest and the base revision.
in_scope_binding :
    (p : Proposal) (a : Authority) (digest : String)
    → in_scope p a digest ≡ true
    → (a.proposal_sha256 ≡ digest) × (a.base_revision ≡ p.base_revision)
in_scope_binding p a digest h =
    ground (arith, eq_iff a.proposal_sha256 digest, eq_iff a.base_revision p.base_revision)

ladder-retrieval :
    (s w : Bool) (p : Proposal) (a : Authority) (digest : String)
    → a.authority_class ≡ derived_from_retrieval
    → (ladder s w p a digest).0 ≢ skip
    → (p.operation ≡ Operation.add)
      × (p.requested ≡ summary)
      × ((ladder s w p a digest).0 ≡ write_summary)
ladder-retrieval s w p a digest c written =
    let (_, _, reasons, e) = ladder_passed s w p a digest written in
    let retrieved = ap (λ k. class_rung k a.evidence p.operation p.requested w reasons) c in
    let first = ap (λ (t : Verdict × List String). t.0) (e ∙ retrieved) in
    let (added, asked, v) =
      class_rung-retrieval a.evidence p.operation p.requested w reasons
        (λ k. written (first ∙ k)) in
    (added, asked, first ∙ v)

module _ (sha256 : String → String) (u : Unicode) where
  -- What `evaluate_write` computed on the way to a decision.
  pub record Judged (proposal authority : Json) (d : Decision) : Type 0 where
    pub p : Proposal
    pub a : Authority
    pub proposal_valid : validate_single_proposal proposal ≡ ok p
    pub authority_valid : validate_write_authority authority ≡ ok a
    pub proposal_digest : digest_json sha256 proposal ≡ ok d.proposal_sha256
    pub authority_digest : digest_json sha256 authority ≡ ok d.authority_sha256
    pub fingerprint : policy_fingerprint sha256 ≡ ok d.fingerprint
    pub decided :
        (d.verdict, d.reasons)
        ≡ ladder
            (contains_self_asserted u (obj p.row))
            (record_text u p.row == "")
            p
            a
            d.proposal_sha256

  -- One result after the other, each of them a value.
  judge-Judged :
      (proposal authority : Json) (d : Decision) (rp : Result Proposal) (ra : Result Authority)
      (r₁ r₂ r₃ : Result String)
      → validate_single_proposal proposal ≡ rp
      → validate_write_authority authority ≡ ra
      → digest_json sha256 proposal ≡ r₁
      → digest_json sha256 authority ≡ r₂
      → policy_fingerprint sha256 ≡ r₃
      → judge u rp ra r₁ r₂ r₃ ≡ ok d
      → Judged proposal authority d
  unfolding judge
  judge-Judged proposal authority d (err e) ra r₁ r₂ r₃ ep ea e₁ e₂ e₃ h = cc
  judge-Judged proposal authority d (ok p) (err e) r₁ r₂ r₃ ep ea e₁ e₂ e₃ h = cc
  judge-Judged proposal authority d (ok p) (ok a) (err e) r₂ r₃ ep ea e₁ e₂ e₃ h = cc
  judge-Judged proposal authority d (ok p) (ok a) (ok x) (err e) r₃ ep ea e₁ e₂ e₃ h = cc
  judge-Judged proposal authority d (ok p) (ok a) (ok x) (ok y) (err e) ep ea e₁ e₂ e₃ h = cc
  judge-Judged proposal authority d (ok p) (ok a) (ok x) (ok y) (ok z) ep ea e₁ e₂ e₃ h =
      let same : decision_of u p a x y z ≡ d = cc in
      subst (λ c. Judged proposal authority c) same
        (record {
          p = p;
          a = a;
          proposal_valid = ep;
          authority_valid = ea;
          proposal_digest = e₁;
          authority_digest = e₂;
          fingerprint = e₃;
          decided = refl;
        })

  pub evaluate_single-Judged :
      (proposal authority : Json) (d : Decision)
      → evaluate_single sha256 u proposal authority ≡ ok d
      → Judged proposal authority d
  unfolding evaluate_single
  evaluate_single-Judged proposal authority d h =
      judge-Judged proposal authority d _ _ _ _ _ refl refl refl refl refl h

  -- Where `ladder` says `write_full`, its class rung says so.
  ladder-full :
      (s w : Bool) (p : Proposal) (a : Authority) (digest : String)
      → (ladder s w p a digest).0 ≡ write_full
      → FullGround p a × (in_scope p a digest ≡ true) × (is_supported p.operation ≡ true)
  ladder-full s w p a digest h =
      let (inside, known, reasons, e) = ladder_passed s w p a digest (λ k. cc (h, k)) in
      let (c, v, r) =
        class_rung-full a.authority_class a.evidence p.operation p.requested w reasons
          (ap (λ (t : Verdict × List String). t.0) (sym e) ∙ h) in
      (record { observed = c; evidenced = v; asked = r }, inside, known)

  -- A decision to write in full was reached from a valid proposal that asks for the full
  -- representation and a valid authority of class `tool_observed` with verified evidence, which
  -- names the digest of exactly this proposal and its base revision.
  pub full_needs_observation :
      (proposal authority : Json) (d : Decision)
      → evaluate_single sha256 u proposal authority ≡ ok d
      → d.verdict ≡ write_full
      → (p : Proposal) × (a : Authority) × (validate_single_proposal proposal ≡ ok p)
        × (validate_write_authority authority ≡ ok a)
        × FullGround p a
        × (digest_json sha256 proposal ≡ ok a.proposal_sha256)
        × (a.base_revision ≡ p.base_revision)
  full_needs_observation proposal authority d h in_full =
      let j = evaluate_single-Judged proposal authority d h in
      let (g, inside, known) =
        ladder-full _ _ j.p j.a d.proposal_sha256
          (ap (λ (t : Verdict × List String). t.0) (sym j.decided) ∙ in_full) in
      let (named, based) = in_scope_binding j.p j.a d.proposal_sha256 inside in
      (
        j.p,
        j.a,
        j.proposal_valid,
        j.authority_valid,
        g,
        j.proposal_digest ∙ ap ok (sym named),
        based,
      )

  -- An authority of class `derived_from_retrieval` obtains nothing but a summary that is added:
  -- never the full representation, and never the replacement of a current record.
  pub retrieval_ceiling :
      (proposal authority : Json) (d : Decision) (p : Proposal) (a : Authority)
      → evaluate_single sha256 u proposal authority ≡ ok d
      → validate_single_proposal proposal ≡ ok p
      → validate_write_authority authority ≡ ok a
      → a.authority_class ≡ derived_from_retrieval
      → d.verdict ≢ skip
      → (p.operation ≡ Operation.add) × (p.requested ≡ summary) × (d.verdict ≡ write_summary)
  retrieval_ceiling proposal authority d p a h vp va c written =
      let j = evaluate_single-Judged proposal authority d h in
      let same_p : j.p ≡ p = cc (j.proposal_valid, vp) in
      let same_a : j.a ≡ a = cc (j.authority_valid, va) in
      let verdict = ap (λ (t : Verdict × List String). t.0) j.decided in
      let (added, asked, summarised) =
        ladder-retrieval _ _ j.p j.a d.proposal_sha256
          (ap (λ (x : Authority). x.authority_class) same_a ∙ c) (λ k. written (verdict ∙ k)) in
      (
        ap (λ (x : Proposal). x.operation) (sym same_p) ∙ added,
        ap (λ (x : Proposal). x.requested) (sym same_p) ∙ asked,
        verdict ∙ summarised,
      )
