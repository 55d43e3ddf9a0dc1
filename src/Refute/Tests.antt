-- ===== src/Refute/Tests.antt =====
-- A refutation that a host's resolver confirms.
use an_kla_memory.Base.{String, ◌≡◌, refl, Bool, true, false, some, ok}
use an_kla_memory.Json.{Json, Fields, field, end, bool, str, arr, obj, cons, nil}
use an_kla_memory.Canonical.Identifiers.{is_digest}
use an_kla_memory.Base.Text.{join}
use an_kla_memory.Canonical.Identifiers.{bare_digest}
use an_kla_memory.Canonical.{digest_bytes, digest_json, canonical_json, insert_member, member_text}
use an_kla_memory.Refute.Evaluate.{evaluate, Decision, Resolver, refute, decision_json}
use an_kla_memory.Refute.Plan.{build_plan, verify_plan}
use an_kla_memory.Refute.Safety.{Proven, refute_needs_proof}
use an_kla_memory.Refute.RoundTrip.{evaluate-verify_plan}

-- A stand-in for SHA-256, and the digest that it gives everything.
abbrev constant_sha256 : String → String
constant_sha256 s = "0123456789abcdef0123456789abcdef0123456789abcdef0123456789abcdef"

abbrev the_digest : Json
the_digest = str "sha256:0123456789abcdef0123456789abcdef0123456789abcdef0123456789abcdef"

-- No number stands in these values.
abbrev no_numbers : Json → Json → Bool
no_numbers v w = false

abbrev sample_proposal : Json
sample_proposal = obj (
    field "schema" (str "an-kla/refute-proposal-v1") (
      field "base_revision" the_digest (
        field "stream" (str "facts")
          (field "target_record_sha256" the_digest (field "reason" (str "source_retracted") end)))))

abbrev issuer_of : String → Json
issuer_of kind = obj (
    field "kind" (str kind)
      (field "subject_sha256" the_digest (field "configuration_fingerprint" the_digest end)))

abbrev sample_evidence : Fields → Json
sample_evidence more = obj (field "kind" (str "fact") (field "record_sha256" the_digest more))

abbrev sample_scope : Json
sample_scope = obj (
    field "operation" (str "refute")
      (field "stream" (str "facts") (field "target_record_sha256" the_digest end)))

abbrev sample_claim : Json
sample_claim = obj (
    field "schema" (str "an-kla/refute-authority-claim-v1") (
      field "proposal_sha256" the_digest (
        field "base_revision" the_digest (
          field "requested_authority_class" (str "tool_observed") (
            field "issuer_claim" (issuer_of "tool") (
              field "evidence" (arr (cons (sample_evidence end) nil))
                (field "scope" sample_scope end)))))))

abbrev sample_observations : Json
sample_observations = obj (
    field "schema" (str "an-kla/refute-observations-v1") (
      field "base_revision" the_digest (
        field "items"
          (arr (
            cons
              (obj (
                field "schema" (str "an-kla/refute-observation-v1") (
                  field "evidence" (sample_evidence end) (
                    field "store_resolution" (str "present")
                      (field "observed_sha256" the_digest end)))))
              nil))
          end)))

abbrev sample_descriptor : Json
sample_descriptor = obj (
    field "profile" (str "lab/v1")
      (field "subject_sha256" the_digest (field "configuration_fingerprint" the_digest end)))

abbrev sample_attestation : Json
sample_attestation = obj (
    field "schema" (str "an-kla/refute-authority-attestation-v1") (
      field "proposal_sha256" the_digest (
        field "authority_claim_sha256" the_digest (
          field "base_revision" the_digest (
            field "resolver" sample_descriptor (
              field "authority_class" (str "tool_observed") (
                field "issuer" (issuer_of "tool") (
                  field "observations_sha256" the_digest (
                    field "evidence_resolutions"
                      (arr (
                        cons
                          (sample_evidence (
                            field "resolution" (str "verified")
                              (field "observation_sha256" the_digest end)))
                          nil))
                      (field "scope" sample_scope (
                        field "proof"
                          (obj
                            (field "profile" (str "lab/v1") (field "proof_sha256" the_digest end)))
                          end)))))))))))

abbrev sample_resolver : Resolver
sample_resolver = record {
  descriptor = sample_descriptor;
  resolve = λ p c o. ok sample_attestation;
  verify = λ a p c o. ok (bool true);
}

abbrev sample_decision : Decision
sample_decision = record {
  proposal_sha256 = "sha256:0123456789abcdef0123456789abcdef0123456789abcdef0123456789abcdef";
  claim_sha256 = "sha256:0123456789abcdef0123456789abcdef0123456789abcdef0123456789abcdef";
  attestation_id = some "sha256:0123456789abcdef0123456789abcdef0123456789abcdef0123456789abcdef";
  fingerprint = "sha256:0123456789abcdef0123456789abcdef0123456789abcdef0123456789abcdef";
  verdict = refute;
  reason = "refute_accepted";
}

evaluated :
    evaluate constant_sha256 no_numbers sample_proposal sample_claim sample_observations
      (some sample_resolver)
    ≡ ok (sample_decision, some sample_attestation)
unfolding evaluate bare_digest canonical_json join insert_member member_text digest_json
evaluated = refl

refute_needs_proof_example :
    Proven constant_sha256 no_numbers sample_proposal sample_claim sample_observations
      (some sample_resolver)
      (some sample_attestation)
refute_needs_proof_example =
    refute_needs_proof constant_sha256 no_numbers sample_proposal sample_claim sample_observations
      (some sample_resolver) sample_decision (some sample_attestation) evaluated refl

constant_is_digest : (s : String) → is_digest (digest_bytes constant_sha256 s) ≡ true
unfolding is_digest digest_bytes
constant_is_digest s = refl

evaluate-verify_plan_example :
    (plan : Json) × (build_plan constant_sha256 true sample_proposal sample_claim
        (some sample_attestation)
        (decision_json sample_decision)
      ≡ ok plan)
    × (verify_plan constant_sha256 no_numbers true plan sample_proposal sample_claim
          (some sample_attestation)
          (decision_json sample_decision)
        ≡ ok plan)
evaluate-verify_plan_example =
    evaluate-verify_plan constant_sha256 constant_is_digest no_numbers true sample_proposal
      sample_claim sample_observations (some sample_resolver) sample_decision
      (some sample_attestation) evaluated
