-- ===== src/Checkpoint/Grant.antt =====
-- What a plan to write a checkpoint rests on.
use an_kla_memory.Base.{
  String, ◌==◌, ◌≡◌, refl, sym, ap, ◌∙◌, eq_iff, Bool, true, false, not, ◌&&◌, ◌||◌,
}
use an_kla_memory.Base.{List, [], ◌∷◌, ◌++◌, if◌then◌else◌, some, ok}
use an_kla_memory.Base.{arith, >>=-eq-ok, raise_if-eq-ok, ok_inj, Bool-cases, inl, inr}
use an_kla_memory.Json.{Json, Fields, str, obj, lookup}
use an_kla_memory.Json.Equal.{equal, equal-lookup}
use an_kla_memory.Canonical.{digest_json}
use an_kla_memory.WritePolicy.Plan.{part}
use an_kla_memory.WriteBatch.Validate.{same_set}
use an_kla_memory.Checkpoint.Contracts.{checkpoint_fields, policy_fingerprint}
use an_kla_memory.Checkpoint.WorkingState.{Proposal, validate_proposal}
use an_kla_memory.Checkpoint.Authority.{Authority, AuthorityClass, unresolved, model_derived}
use an_kla_memory.Checkpoint.Authority.{validate_authority, is_filled}
use an_kla_memory.Checkpoint.Evaluate.{Verdict, skip, write, Decision, decision_json, reason_if}
use an_kla_memory.Checkpoint.Evaluate.{is_unresolved, reasons_of, is_revision, evaluate}
use an_kla_memory.Checkpoint.Evaluate.{checkpoint_json, seal, unchanged, is_write, build_plan}
use an_kla_memory.Checkpoint.Evaluate.{core_json, verdict_name}

-- Without a reason, every test of `evaluate` passed.
no_reason :
    (named based whole : Bool) (c : AuthorityClass)
    → is_filled (
        reason_if (not named || not based) "authority_binding_mismatch"
        ++ (reason_if (not whole) "authority_scope_mismatch"
            ++ reason_if (is_unresolved c) "unresolved_authority"))
      ≡ false
    → (named ≡ true) × (based ≡ true) × (whole ≡ true) × (c ≡ model_derived)
no_reason true true true model_derived h = (refl, refl, refl, refl)
no_reason true true true unresolved h = cc
no_reason true true false c h = cc
no_reason true false whole c h = cc
no_reason false based whole c h = cc

-- What a decision to write rests on: a proposal and an authority that are valid, the authority
-- being the model's own and for the digest and the base of exactly this proposal and all fields.
pub record Granted (sha256 : String → String) (proposal authority : Json) : Type 0 where
  pub p : Proposal
  pub a : Authority
  pub proposal_valid : validate_proposal proposal ≡ ok p
  pub authority_valid : validate_authority authority ≡ ok a
  pub names_proposal : digest_json sha256 proposal ≡ ok a.proposal_sha256
  pub same_base : a.base_revision ≡ p.base_revision
  pub all_fields : same_set a.fields checkpoint_fields ≡ true
  pub by_model : a.authority_class ≡ model_derived

one_of_both : (a b c : Bool) → (not a && not (b && c)) ≡ false → a ≡ false → c ≡ true
one_of_both a b c h e = ground arith

of_double_negation : (b : Bool) → not b ≡ false → b ≡ true
of_double_negation b h = ground arith

verdict_cases :
    (reasons : List String)
    → (if is_filled reasons then skip else write) ≡ write
    → is_filled reasons ≡ false
verdict_cases [] h = refl
verdict_cases (r ∷ rs) h = cc

module _ (sha256 : String → String) where
  evaluate-Granted :
      (proposal authority : Json) (d : Decision)
      → evaluate sha256 proposal authority ≡ ok d
      → d.verdict ≡ write
      → Granted sha256 proposal authority
  unfolding evaluate reasons_of
  evaluate-Granted proposal authority d h written =
      let (p, h1, vp) = >>=-eq-ok (validate_proposal proposal) _ h in
      let (a, h2, va) = >>=-eq-ok (validate_authority authority) _ h1 in
      let (hash, h3, e3) = >>=-eq-ok (digest_json sha256 proposal) _ h2 in
      let (hash', h4, e4) = >>=-eq-ok (digest_json sha256 authority) _ h3 in
      let (named, based, whole, class) =
        no_reason (a.proposal_sha256 == hash) (a.base_revision == p.base_revision)
          (same_set a.fields checkpoint_fields) a.authority_class
          (verdict_cases (reasons_of p a hash)
            (ap (λ (x : Decision). x.verdict) (ok_inj h4) ∙ written)) in
      record {
        p = p;
        a = a;
        proposal_valid = vp;
        authority_valid = va;
        names_proposal = e3 ∙ ap ok (sym ((eq_iff a.proposal_sha256 hash).0 named));
        same_base = (eq_iff a.base_revision p.base_revision).0 based;
        all_fields = whole;
        by_model = class;
      }

  module _ (same_number : Json → Json → Bool) where
    named_write :
        (v : Verdict) (w : Json)
        → some (str (verdict_name v)) ≡ some w
        → equal same_number (str "write") w ≡ true
        → v ≡ write
    unfolding equal
    named_write write w found same = refl
    named_write skip w found same = cc

    -- A decision that says "write" is the one that was computed.
    decision-is_write :
        (decision : Fields) (d : Decision)
        → equal same_number (obj decision) (decision_json d) ≡ true
        → lookup "decision" decision ≡ some (str "write")
        → d.verdict ≡ write
    unfolding equal
    decision-is_write decision d h says =
        let (w, found, same) =
          equal-lookup same_number "decision" (str "write") decision _ h says in
        named_write d.verdict w found same

    -- The decision of a plan that says "write" is the computed one, not the unchanged one.
    check-is_write :
        (decision : Fields) (d : Decision)
        → (not (equal same_number (obj decision) (decision_json d))
            && not (
                is_write sha256 d.verdict
                && equal same_number (obj decision) (decision_json (unchanged sha256 d))))
          ≡ false
        → lookup "decision" decision ≡ some (str "write")
        → d.verdict ≡ write
    check-is_write decision d h says =
        elim (Bool-cases (equal same_number (obj decision) (decision_json d))) [
          | inl e ↦ decision-is_write decision d e says
          | inr e ↦
              let other =
                one_of_both (equal same_number (obj decision) (decision_json d))
                  (is_write sha256 d.verdict)
                  (equal same_number (obj decision) (decision_json (unchanged sha256 d))) h e in
              cc (decision-is_write decision (unchanged sha256 d) other says)
        ]

    seal-checkpoint :
        (p : Proposal) (d : Decision) (decision revision plan : Json)
        → seal sha256 p d decision revision ≡ ok plan
        → part plan "checkpoint" ≡ checkpoint_json sha256 revision p.working_state
    unfolding seal
    seal-checkpoint p d decision revision plan h =
        let checkpoint = checkpoint_json sha256 revision p.working_state in
        let (fp, h1, e1) = >>=-eq-ok (policy_fingerprint sha256) _ h in
        let (ds, h2, e2) = >>=-eq-ok (digest_json sha256 decision) _ h1 in
        let (cs, h3, e3) = >>=-eq-ok (digest_json sha256 checkpoint) _ h2 in
        let (pf, h4, e4) = >>=-eq-ok (digest_json sha256 (core_json sha256 p d fp ds cs)) _ h3 in
        ap (λ v. part v "checkpoint") (sym (ok_inj h4))

    -- A plan whose decision is to write a checkpoint was built for a valid proposal and a valid
    -- authority of the class `model_derived` whose scope is all the fields and which names the
    -- digest and the base revision of exactly this proposal. What it writes is the working state
    -- of the proposal, under a number of at least 1.
    pub build_plan-Granted :
        (proposal authority : Json) (decision : Fields) (revision plan : Json)
        → build_plan sha256 same_number proposal authority decision revision ≡ ok plan
        → lookup "decision" decision ≡ some (str "write")
        → (g : Granted sha256 proposal authority) × (is_revision revision ≡ true)
          × (part plan "checkpoint" ≡ checkpoint_json sha256 revision g.p.working_state)
    unfolding build_plan
    build_plan-Granted proposal authority decision revision plan h says =
        let (d, h1, e1) = >>=-eq-ok (evaluate sha256 proposal authority) _ h in
        let (checked, h2) = raise_if-eq-ok _ _ _ h1 in
        let (numbered, h3) = raise_if-eq-ok (not (is_revision revision)) _ _ h2 in
        let (p, h4, e4) = >>=-eq-ok (validate_proposal proposal) _ h3 in
        let g = evaluate-Granted proposal authority d e1 (check-is_write decision d checked says) in
        let same : p ≡ g.p = ok_inj (sym e4 ∙ g.proposal_valid) in
        (
          g,
          of_double_negation (is_revision revision) numbered,
          seal-checkpoint p d (obj decision) revision plan h4
              ∙ ap (λ (x : Proposal). checkpoint_json sha256 revision x.working_state) same,
        )
