-- ===== src/Refute/RoundTrip.antt =====
-- From a decision to the plan that is built of it, and to its verification.
use an_kla_memory.Base.{String, ◌≡◌, refl, sym, ap, ◌∙◌, subst, Bool, true, ◌&&◌}
use an_kla_memory.Base.{Option, none, some, List, ok}
use an_kla_memory.Base.{
  Option-cases, inl, inr, >>=-eq-ok, >>-eq-ok, raise_if-eq-ok, eq_refl, ok_inj, arith,
}
use an_kla_memory.Json.{Json, Fields, obj, get}
use an_kla_memory.Json.Equal.{equal}
use an_kla_memory.Canonical.{digest_json, digest_bytes}
use an_kla_memory.Canonical.Identifiers.{is_digest}
use an_kla_memory.Canonical.Parts.{digest_json-get, is_finite, digest_json-is_finite}
use an_kla_memory.WritePolicy.Types.{authority_class_of}
use an_kla_memory.WriteBatch.Validate.{one_of_tuple}
use an_kla_memory.Refute.Contracts.{Proposal, validate_proposal, exact, digest}
use an_kla_memory.Refute.Claim.{Claim, validate_claim}
use an_kla_memory.Refute.Contracts.{policy_error}
use an_kla_memory.Refute.Claim.{read_evidence, validate_scope, validate_issuer, claim_code}
use an_kla_memory.Refute.Evaluate.{Verdict, Decision, Resolver, decision_json}
use an_kla_memory.Refute.Evaluate.{attestation_id_of, evaluate, text_or_none}
use an_kla_memory.Refute.Plan.{validate_decision}
use an_kla_memory.Refute.Plan.{
  is_same, is_skip, is_none, seal, build_plan, verify_plan, plan_json, core_json, same_id,
}
use an_kla_memory.Refute.Outcomes.{Fits, skipped, refuted, Made, evaluate-Made}
use an_kla_memory.Refute.Reading.{digest_json-is_digest, validate_decision_ok}

decision-is_finite : (id : Option String) → (is_finite (text_or_none id) && true) ≡ true
unfolding is_finite
decision-is_finite none = refl
decision-is_finite (some id) = refl

module _ (sha256 : String → String) where
  -- The canonical texts of the decision and of the core are written whatever they hold.
  seal_ok :
      (p : Proposal) (c : Claim) (d : Decision) (evidence_sha : String)
      → digest_json sha256 c.evidence_value ≡ ok evidence_sha
      → (decision_sha : String) × (fp : String) × (seal sha256 (decision_json d) p c d
          ≡ ok (plan_json sha256 (core_json sha256 p d decision_sha evidence_sha) fp))
  unfolding seal is_finite
  seal_ok p c d evidence_sha h =
      let (decision_sha, e1) =
        digest_json-is_finite sha256 (decision_json d) (decision-is_finite d.attestation_id) in
      let core = core_json sha256 p d decision_sha evidence_sha in
      let (fp, e2) = digest_json-is_finite sha256 core (decision-is_finite d.attestation_id) in
      (decision_sha, fp, rw (e1, h, e2) refl)

exact-obj :
    (v : Json) (names : List String) (code detail : String) (out : Fields)
    → exact v names code detail ≡ ok out
    → v ≡ obj out
unfolding exact
exact-obj v names code detail out h = ground (arith)

same_id_refl : (id : Option String) → same_id id id ≡ true
same_id_refl none = refl
same_id_refl (some s) = eq_refl s

module _ (sha256 : String → String) where
  -- The evidence of a claim that has a digest has one.
  evidence_digest :
      (claim : Json) (c : Claim) (s : String)
      → validate_claim claim ≡ ok c
      → digest_json sha256 claim ≡ ok s
      → (t : String) × (digest_json sha256 c.evidence_value ≡ ok t)
  unfolding validate_claim
  evidence_digest claim c s h digested =
      let (out, h1, e1) = >>=-eq-ok (exact claim _ claim_code "shape") _ h in
      let (_, h2) = raise_if-eq-ok _ _ _ h1 in
      let (ps, h3, e3) = >>=-eq-ok (digest (get out "proposal_sha256") _ _) _ h2 in
      let (base, h4, e4) = >>=-eq-ok (digest (get out "base_revision") _ _) _ h3 in
      let (class, h5, e5) =
        >>=-eq-ok
          (one_of_tuple authority_class_of (get out "requested_authority_class")
            (policy_error claim_code "requested_authority_class"))
          _ h4 in
      let (_, h6) = >>-eq-ok (validate_issuer (get out "issuer_claim")) _ h5 in
      let (evidence, h7, e7) = >>=-eq-ok (read_evidence (get out "evidence")) _ h6 in
      let (scope, h8, e8) = >>=-eq-ok (validate_scope (get out "scope")) _ h7 in
      let is_obj = exact-obj claim _ claim_code "shape" out e1 in
      let (t, found) = digest_json-get sha256 "evidence" out (rw is_obj at digested) in
      (t, ap (λ (x : Claim). digest_json sha256 x.evidence_value) (sym (ok_inj h8)) ∙ found)

  -- A plan equals itself, also as the order of dicts has it.
  equal-plan_json :
      (same_number : Json → Json → Bool) (p : Proposal) (d : Decision)
      (decision_sha evidence_sha fp : String)
      → let plan = plan_json sha256 (core_json sha256 p d decision_sha evidence_sha) fp in
        equal same_number plan plan ≡ true
  unfolding equal
  equal-plan_json same_number p d decision_sha evidence_sha fp =
      elim (Option-cases d.attestation_id) [
        | inl e ↦ rw e (simp eq_refl refl)
        | inr (id, e) ↦ rw e (simp eq_refl refl)
      ]

  -- The four comparisons of `build_plan` pass for the decision of these inputs.
  build_plan_ok :
      (enforce : Bool) (proposal claim : Json) (attestation : Option Json) (p : Proposal)
      (c : Claim) (d : Decision)
      → validate_proposal proposal ≡ ok p
      → validate_claim claim ≡ ok c
      → validate_decision sha256 enforce (decision_json d) ≡ ok d
      → attestation_id_of sha256 attestation ≡ ok d.attestation_id
      → digest_json sha256 proposal ≡ ok d.proposal_sha256
      → digest_json sha256 claim ≡ ok d.claim_sha256
      → is_same (is_skip sha256 d.verdict) (is_none sha256 attestation) ≡ true
      → build_plan sha256 enforce proposal claim attestation (decision_json d)
        ≡ seal sha256 (decision_json d) p c d
  unfolding build_plan
  build_plan_ok enforce proposal claim attestation p c d vp vc vd ea ep ec skips =
      rw
        (
          vp,
          vc,
          vd,
          ea,
          ep,
          eq_refl d.proposal_sha256,
          ec,
          eq_refl d.claim_sha256,
          same_id_refl d.attestation_id,
          skips,
        )
        refl

  -- The decision skips exactly if there is no attestation.
  Fits_skips :
      (v : Verdict) (reason : String) (attestation : Option Json)
      → Fits v reason attestation
      → is_same (is_skip sha256 v) (is_none sha256 attestation) ≡ true
  Fits_skips _ _ _ (skipped reason known) = refl
  Fits_skips _ _ _ (refuted a) = refl

  Made-Fits :
      (proposal claim : Json) (d : Decision) (a : Option Json)
      → Made sha256 proposal claim (d, a)
      → Fits d.verdict d.reason a × (attestation_id_of sha256 a ≡ ok d.attestation_id)
  Made-Fits proposal claim d a made =
      let k = made.decided in
      (
        subst (λ v. Fits v d.reason a) (sym k.verdict_is)
            (subst (λ r. Fits made.verdict r a) (sym k.reason_is)
              (subst (λ o. Fits made.verdict made.reason o) (sym k.beside) made.fits)),
        ap (λ o. attestation_id_of sha256 o) k.beside ∙ k.attestation_digest,
      )

module _ (sha256 : String → String)
    (gives_hex : (s : String) → is_digest (digest_bytes sha256 s) ≡ true) where
  -- Whatever `evaluate` decides, a plan is built of the decision, and `verify_plan` takes it,
  -- with or without the installed policy enforced, if SHA-256 gives 64 hexadecimal digits.
  pub evaluate-verify_plan :
      (same_number : Json → Json → Bool) (enforce : Bool) (proposal claim observations : Json)
      (resolver : Option Resolver) (d : Decision) (attestation : Option Json)
      → evaluate sha256 same_number proposal claim observations resolver ≡ ok (d, attestation)
      → (plan : Json) × (build_plan sha256 enforce proposal claim attestation (decision_json d)
          ≡ ok plan)
        × (verify_plan sha256 same_number enforce plan proposal claim attestation (decision_json d)
            ≡ ok plan)
  unfolding verify_plan
  evaluate-verify_plan same_number enforce proposal claim observations resolver d attestation h =
      let (p, c, vp, vc, made) =
        evaluate-Made sha256 same_number proposal claim observations resolver (d, attestation) h in
      let k = made.decided in
      let (fits, ea) = Made-Fits sha256 proposal claim d attestation made in
      let hex = digest_json-is_digest sha256 gives_hex in
      let vd =
        validate_decision_ok sha256 gives_hex enforce d.proposal_sha256 d.claim_sha256 d.fingerprint
          d.attestation_id d.verdict d.reason attestation
          (hex proposal d.proposal_sha256 k.proposal_digest)
          (hex claim d.claim_sha256 k.claim_digest) k.fingerprint_is ea fits in
      let (es, ee) = evidence_digest sha256 claim c d.claim_sha256 vc k.claim_digest in
      let (ds, fp, sealed) = seal_ok sha256 p c d es ee in
      let built =
        build_plan_ok sha256 enforce proposal claim attestation p c d vp vc vd ea k.proposal_digest
          k.claim_digest (Fits_skips sha256 d.verdict d.reason attestation fits)
        ∙ sealed in
      (
        plan_json sha256 (core_json sha256 p d ds es) fp,
        built,
        rw (built, equal-plan_json sha256 same_number p d ds es fp) refl,
      )
