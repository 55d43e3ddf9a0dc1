-- ===== src/Refute/Outcomes.antt =====
-- What `evaluate` can return, for the plan that is built of it.
use an_kla_memory.Base.{String, ◌≡◌, refl, Bool, true, false, not, Option, none, some}
use an_kla_memory.Base.{List, if◌then◌else◌, member, Result, ok, Bool-cases}
use an_kla_memory.Base.{>>=-eq-ok, >>-eq-ok, raise_if-eq-ok, inl, inr}
use an_kla_memory.Json.{Json, Fields}
use an_kla_memory.Canonical.{digest_json}
use an_kla_memory.Refute.Contracts.{Proposal, validate_proposal}
use an_kla_memory.Refute.Claim.{Claim, validate_claim}
use an_kla_memory.Refute.Claim.{is_privileged}
use an_kla_memory.Refute.Attestation.{validate_observations, validate_attestation, is_null}
use an_kla_memory.Refute.Evaluate.{Verdict, skip, refute, Decision, Resolver, is_true, is_bound}
use an_kla_memory.Refute.Evaluate.{lacks_evidence, decide, accept, confirm, ask, evaluate}
use an_kla_memory.Refute.Plan.{skip_reasons}
use an_kla_memory.Refute.Safety.{Decided, decide-Decided}

abbrev Outcome : Type 0
Outcome = Decision × Option Json

-- The verdict, its reason and its attestation belong together.
pub data Fits : Verdict → String → Option Json → Type 0 where
  skipped : (reason : String) → member reason skip_reasons ≡ true → Fits skip reason none
  refuted : (a : Json) → Fits refute "refute_accepted" (some a)

module _ (sha256 : String → String) where
  pub record Made (proposal claim : Json) (out : Outcome) : Type 0 where
    pub verdict : Verdict
    pub reason : String
    pub attestation : Option Json
    pub fits : Fits verdict reason attestation
    pub decided : Decided sha256 proposal claim verdict reason attestation out

  decide-Made :
      (proposal claim : Json) (verdict : Verdict) (reason : String) (attestation : Option Json)
      (out : Outcome)
      → Fits verdict reason attestation
      → decide sha256 proposal claim verdict reason attestation ≡ ok out
      → Made proposal claim out
  decide-Made proposal claim verdict reason attestation out fits h = record {
    verdict = verdict;
    reason = reason;
    attestation = attestation;
    fits = fits;
    decided = decide-Decided sha256 proposal claim verdict reason attestation out h;
  }

  skip-Made :
      (proposal claim : Json) (reason : String) (out : Outcome)
      → member reason skip_reasons ≡ true
      → decide sha256 proposal claim skip reason none ≡ ok out
      → Made proposal claim out
  skip-Made proposal claim reason out known h =
      decide-Made proposal claim skip reason none out (skipped reason known) h

  module _ (same_number : Json → Json → Bool) where
    confirm-Made :
        (r : Resolver) (proposal : Json) (p : Proposal) (claim : Json) (c : Claim)
        (observations : Json) (items : List Fields) (raw : Json) (out : Outcome)
        → confirm sha256 same_number r proposal p claim c observations items raw ≡ ok out
        → Made proposal claim out
    unfolding confirm accept
    confirm-Made r proposal p claim c observations items raw out h =
        elim (Bool-cases (is_null raw)) [
          | inl e ↦ skip-Made proposal claim "verified_evidence_required" out refl (rw e at h)
          | inr e ↦
              let (valid, h1) =
                >>-eq-ok
                  (validate_attestation same_number sha256 raw proposal p claim c observations items
                    r.descriptor)
                  _ (rw e at h) in
              let (v, h2, says) = >>=-eq-ok (r.verify raw proposal claim observations) _ h1 in
              let (t, h3) = raise_if-eq-ok (not (is_true v)) _ _ h2 in
              decide-Made proposal claim refute "refute_accepted" (some raw) out (refuted raw) h3
        ]

    ask-Made :
        (resolver : Option Resolver) (proposal : Json) (p : Proposal) (claim : Json) (c : Claim)
        (observations : Json) (items : List Fields) (out : Outcome)
        → ask sha256 same_number resolver proposal p claim c observations items ≡ ok out
        → Made proposal claim out
    unfolding ask
    ask-Made none proposal p claim c observations items out h =
        skip-Made proposal claim "refute_authority_resolver_unavailable" out refl h
    ask-Made (some host) proposal p claim c observations items out h =
        elim (Bool-cases (lacks_evidence c.evidence items)) [
          | inl e ↦ skip-Made proposal claim "verified_evidence_required" out refl (rw e at h)
          | inr e ↦
              let (raw, k, says) =
                >>=-eq-ok (host.resolve proposal claim observations) _ (rw e at h) in
              confirm-Made host proposal p claim c observations items raw out k
        ]

    gate-Made :
        (bound privileged : Bool) (proposal claim : Json) (rest : Result Outcome) (out : Outcome)
        → (if not bound
            then decide sha256 proposal claim skip "authority_scope_mismatch" none
            else if not privileged
            then decide sha256 proposal claim skip "refute_requires_privileged_authority" none
            else rest)
          ≡ ok out
        → (rest ≡ ok out → Made proposal claim out)
        → Made proposal claim out
    gate-Made false privileged proposal claim rest out h k =
        skip-Made proposal claim "authority_scope_mismatch" out refl h
    gate-Made true false proposal claim rest out h k =
        skip-Made proposal claim "refute_requires_privileged_authority" out refl h
    gate-Made true true proposal claim rest out h k = k h

    -- Whatever `evaluate` returns was decided for a valid proposal and a valid claim.
    pub evaluate-Made :
        (proposal claim observations : Json) (resolver : Option Resolver) (out : Outcome)
        → evaluate sha256 same_number proposal claim observations resolver ≡ ok out
        → (p : Proposal) × (c : Claim) × (validate_proposal proposal ≡ ok p)
          × (validate_claim claim ≡ ok c)
          × Made proposal claim out
    unfolding evaluate
    evaluate-Made proposal claim observations resolver out h =
        let (p, h1, vp) = >>=-eq-ok (validate_proposal proposal) _ h in
        let (c, h2, vc) = >>=-eq-ok (validate_claim claim) _ h1 in
        let (items, h3, vo) = >>=-eq-ok (validate_observations same_number observations c) _ h2 in
        let (s, h4, named) = >>=-eq-ok (digest_json sha256 proposal) _ h3 in
        (
          p,
          c,
          vp,
          vc,
          gate-Made (is_bound p c s) (is_privileged c.authority_class) proposal claim
              (ask sha256 same_number resolver proposal p claim c observations items) out h4
              (λ k. ask-Made resolver proposal p claim c observations items out k),
        )
