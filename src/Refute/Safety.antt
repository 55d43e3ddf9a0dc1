-- ===== src/Refute/Safety.antt =====
-- What a decision to refute rests on.
use an_kla_memory.Base.{String, ◌≡◌, refl, ap, ◌∙◌, eq_iff, Bool, true, false, not}
use an_kla_memory.Base.{Option, none, some, List, if◌then◌else◌, Result, ok, arith, inl, inr}
use an_kla_memory.Base.{Bool-cases, >>=-eq-ok, >>-eq-ok, raise_if-eq-ok, subst, ok_inj}
use an_kla_memory.Json.{Json, Fields, bool}
use an_kla_memory.Canonical.{digest_json}
use an_kla_memory.WritePolicy.Types.{stream_name}
use an_kla_memory.Refute.Contracts.{Proposal, validate_proposal}
use an_kla_memory.Refute.Claim.{Claim, validate_claim}
use an_kla_memory.Refute.Claim.{is_privileged}
use an_kla_memory.Refute.Attestation.{validate_observations, validate_attestation, is_null}
use an_kla_memory.Refute.Evaluate.{Verdict, skip, refute, Decision, Resolver, is_true, is_bound}
use an_kla_memory.Refute.Evaluate.{lacks_evidence, policy_fingerprint, attestation_id_of, decide}
use an_kla_memory.Refute.Evaluate.{accept, confirm, ask, evaluate}

abbrev Outcome : Type 0
Outcome = Decision × Option Json

is_true_eq : (v : Json) → not (is_true v) ≡ false → v ≡ bool true
is_true_eq v h = ground arith

module _ (sha256 : String → String) where
  -- `_decision` says what it was asked to say, of this proposal and this claim.
  pub record Decided (proposal claim : Json) (verdict : Verdict) (reason : String)
      (attestation : Option Json) (out : Outcome) : Type 0 where
    pub verdict_is : out.0.verdict ≡ verdict
    pub reason_is : out.0.reason ≡ reason
    pub beside : out.1 ≡ attestation
    pub proposal_digest : digest_json sha256 proposal ≡ ok out.0.proposal_sha256
    pub claim_digest : digest_json sha256 claim ≡ ok out.0.claim_sha256
    pub attestation_digest : attestation_id_of sha256 attestation ≡ ok out.0.attestation_id
    pub fingerprint_is : policy_fingerprint sha256 ≡ ok out.0.fingerprint

  pub decide-Decided :
      (proposal claim : Json) (verdict : Verdict) (reason : String) (attestation : Option Json)
      (out : Outcome)
      → decide sha256 proposal claim verdict reason attestation ≡ ok out
      → Decided proposal claim verdict reason attestation out
  unfolding decide
  decide-Decided proposal claim verdict reason attestation out h =
      let (ps, h1, e1) = >>=-eq-ok (digest_json sha256 proposal) _ h in
      let (cs, h2, e2) = >>=-eq-ok (digest_json sha256 claim) _ h1 in
      let (id, h3, e3) = >>=-eq-ok (attestation_id_of sha256 attestation) _ h2 in
      let (fp, h4, e4) = >>=-eq-ok (policy_fingerprint sha256) _ h3 in
      subst (λ o. Decided proposal claim verdict reason attestation o) (ok_inj h4)
        (record {
          verdict_is = refl;
          reason_is = refl;
          beside = refl;
          proposal_digest = e1;
          claim_digest = e2;
          attestation_digest = e3;
          fingerprint_is = e4;
        })

  -- A decision with another verdict was not reached this way.
  decide_not :
      {C : Type 0} (proposal claim : Json) (reason : String) (out : Outcome)
      → decide sha256 proposal claim skip reason none ≡ ok out
      → out.0.verdict ≡ refute
      → C
  decide_not proposal claim reason out h refuted =
      cc (refuted, Decided.verdict_is (decide-Decided proposal claim skip reason none out h))

  module _ (same_number : Json → Json → Bool) where
    -- What a decision to refute rests on: a proposal and a claim that are valid, the claim being of
    -- a privileged class and for exactly this proposal; evidence that the store has; and an
    -- attestation that is valid for all of these and that the resolver itself verified.
    pub record Proven (proposal claim observations : Json) (resolver : Option Resolver)
        (attestation : Option Json) : Type 0 where
      pub p : Proposal
      pub c : Claim
      pub items : List Fields
      pub host : Resolver
      pub raw : Json
      pub proposal_valid : validate_proposal proposal ≡ ok p
      pub claim_valid : validate_claim claim ≡ ok c
      pub observed : validate_observations same_number observations c ≡ ok items
      pub privileged : is_privileged c.authority_class ≡ true
      pub names_proposal : digest_json sha256 proposal ≡ ok c.proposal_sha256
      pub same_base : c.base_revision ≡ p.base_revision
      pub same_stream : stream_name c.scope_stream ≡ stream_name p.stream
      pub same_target : c.scope_target ≡ p.target_record_sha256
      pub evidence_present : lacks_evidence c.evidence items ≡ false
      pub has_resolver : resolver ≡ some host
      pub resolved : host.resolve proposal claim observations ≡ ok raw
      pub attested :
          validate_attestation same_number sha256 raw proposal p claim c observations items
            host.descriptor
          ≡ ok tt
      pub verified : host.verify raw proposal claim observations ≡ ok (bool true)
      pub returned : attestation ≡ some raw

    -- `accept` was reached, and passed.
    confirm_accepts :
        (r : Resolver) (proposal : Json) (p : Proposal) (claim : Json) (c : Claim)
        (observations : Json) (items : List Fields) (raw : Json) (out : Outcome)
        → confirm sha256 same_number r proposal p claim c observations items raw ≡ ok out
        → out.0.verdict ≡ refute
        → (validate_attestation same_number sha256 raw proposal p claim c observations items
              r.descriptor
            ≡ ok tt)
          × (r.verify raw proposal claim observations ≡ ok (bool true))
          × (out.1 ≡ some raw)
    unfolding confirm accept
    confirm_accepts r proposal p claim c observations items raw out h refuted =
        elim (Bool-cases (is_null raw)) [
          | inl e ↦ decide_not proposal claim "verified_evidence_required" out (rw e at h) refuted
          | inr e ↦
              let (valid, h1) =
                >>-eq-ok
                  (validate_attestation same_number sha256 raw proposal p claim c observations items
                    r.descriptor)
                  _ (rw e at h) in
              let (v, h2, says) = >>=-eq-ok (r.verify raw proposal claim observations) _ h1 in
              let (t, h3) = raise_if-eq-ok (not (is_true v)) _ _ h2 in
              let d = decide-Decided proposal claim refute "refute_accepted" (some raw) out h3 in
              (valid, says ∙ ap ok (is_true_eq v t), d.beside)
        ]

    -- The resolver was asked, the store having all of the evidence.
    ask_confirms :
        (resolver : Option Resolver) (proposal : Json) (p : Proposal) (claim : Json) (c : Claim)
        (observations : Json) (items : List Fields) (out : Outcome)
        → ask sha256 same_number resolver proposal p claim c observations items ≡ ok out
        → out.0.verdict ≡ refute
        → (lacks_evidence c.evidence items ≡ false)
          × (host : Resolver) × (raw : Json) × (resolver ≡ some host)
          × (host.resolve proposal claim observations ≡ ok raw)
          × (confirm sha256 same_number host proposal p claim c observations items raw ≡ ok out)
    unfolding ask
    ask_confirms none proposal p claim c observations items out h refuted =
        decide_not proposal claim "refute_authority_resolver_unavailable" out h refuted
    ask_confirms (some host) proposal p claim c observations items out h refuted =
        elim (Bool-cases (lacks_evidence c.evidence items)) [
          | inl e ↦ decide_not proposal claim "verified_evidence_required" out (rw e at h) refuted
          | inr e ↦
              let (raw, k, says) =
                >>=-eq-ok (host.resolve proposal claim observations) _ (rw e at h) in
              (e, host, raw, refl, says, k)
        ]

    -- The scope test passed, and the class is privileged.
    gate_passed :
        (bound privileged : Bool) (proposal claim : Json) (rest : Result Outcome) (out : Outcome)
        → (if not bound
            then decide sha256 proposal claim skip "authority_scope_mismatch" none
            else if not privileged
            then decide sha256 proposal claim skip "refute_requires_privileged_authority" none
            else rest)
          ≡ ok out
        → out.0.verdict ≡ refute
        → (bound ≡ true) × (privileged ≡ true) × (rest ≡ ok out)
    gate_passed false privileged proposal claim rest out h refuted =
        decide_not proposal claim "authority_scope_mismatch" out h refuted
    gate_passed true false proposal claim rest out h refuted =
        decide_not proposal claim "refute_requires_privileged_authority" out h refuted
    gate_passed true true proposal claim rest out h refuted = (refl, refl, h)

    is_bound_eqs :
        (p : Proposal) (c : Claim) (s : String)
        → is_bound p c s ≡ true
        → (s ≡ c.proposal_sha256)
          × (c.base_revision ≡ p.base_revision)
          × (stream_name c.scope_stream ≡ stream_name p.stream)
          × (c.scope_target ≡ p.target_record_sha256)
    is_bound_eqs p c s h = ground (
      arith,
      eq_iff c.proposal_sha256 s,
      eq_iff c.base_revision p.base_revision,
      eq_iff (stream_name c.scope_stream) (stream_name p.stream),
      eq_iff c.scope_target p.target_record_sha256,
    )

    -- Nothing is refuted unless the proposal and the claim are valid, the claim is of a privileged
    -- class and names the digest, the base and the target of exactly this proposal, the store has
    -- all the evidence that it is asked for, and the resolver gave an attestation that is valid for
    -- all of these and that it verified.
    pub refute_needs_proof :
        (proposal claim observations : Json) (resolver : Option Resolver) (d : Decision)
        (attestation : Option Json)
        → evaluate sha256 same_number proposal claim observations resolver ≡ ok (d, attestation)
        → d.verdict ≡ refute
        → Proven proposal claim observations resolver attestation
    unfolding evaluate
    refute_needs_proof proposal claim observations resolver d attestation h refuted =
        let out : Outcome = (d, attestation) in
        let (p, h1, vp) = >>=-eq-ok (validate_proposal proposal) _ h in
        let (c, h2, vc) = >>=-eq-ok (validate_claim claim) _ h1 in
        let (items, h3, vo) = >>=-eq-ok (validate_observations same_number observations c) _ h2 in
        let (s, h4, named) = >>=-eq-ok (digest_json sha256 proposal) _ h3 in
        let (bound, privileged, h5) =
          gate_passed (is_bound p c s) (is_privileged c.authority_class) proposal claim
            (ask sha256 same_number resolver proposal p claim c observations items) out h4
            refuted in
        let (present, host, raw, has, resolved, h6) =
          ask_confirms resolver proposal p claim c observations items out h5 refuted in
        let (attested, verified, returned) =
          confirm_accepts host proposal p claim c observations items raw out h6 refuted in
        let (same, base, stream, target) = is_bound_eqs p c s bound in
        record {
          p = p;
          c = c;
          items = items;
          host = host;
          raw = raw;
          proposal_valid = vp;
          claim_valid = vc;
          observed = vo;
          privileged = privileged;
          names_proposal = named ∙ ap ok same;
          same_base = base;
          same_stream = stream;
          same_target = target;
          evidence_present = present;
          has_resolver = has;
          resolved = resolved;
          attested = attested;
          verified = verified;
          returned = returned;
        }
