-- ===== src/Refute/Evaluate.antt =====
-- `evaluate` of an_kla/refute_policy.py. The resolver is an object of the host.
use an_kla_memory.Base.{String, ◌==◌, Bool, true, false, not, ◌&&◌, ◌||◌, Option, none, some, List}
use an_kla_memory.Base.{[], ◌∷◌, if◌then◌else◌, Result, ok, raise_if, ◌>>=◌, ◌>>◌}
use an_kla_memory.Json.{Json, Fields, field, end, bool, str, arr, obj, null, texts}
use an_kla_memory.Canonical.{digest_json}
use an_kla_memory.WritePolicy.Types.{stream_name}
use an_kla_memory.Refute.Contracts.{Proposal, validate_proposal}
use an_kla_memory.Refute.Claim.{Claim, Evidence, validate_claim}
use an_kla_memory.Refute.Contracts.{policy_error}
use an_kla_memory.Refute.Claim.{is_privileged}
use an_kla_memory.Refute.Attestation.{validate_observations, validate_attestation, is_outside}
use an_kla_memory.Refute.Attestation.{is_present, is_null, attestation_code}

abbrev pub policy_profile : String
policy_profile = "refute-policy/v1"

-- `_CONFIG`
unfoldable pub config : Json
config = obj (
    field "schema" (str "an-kla/refute-policy-config-v1") (
      field "profile" (str policy_profile) (
        field "supported_operations" (arr (texts ("refute" ∷ []))) (
          field "allowed_authority_classes"
            (arr (texts ("channel_confirmed" ∷ "tool_observed" ∷ [])))
            (field "evidence_kinds"
              (arr
                (texts ("artifact" ∷ "event" ∷ "fact" ∷ "episode" ∷ "revision" ∷ "external" ∷ [])))
              (field "reason_codes"
                (arr (
                  texts (
                    "authority_scope_mismatch" ∷ "refute_accepted"
                    ∷ "refute_authority_resolver_unavailable"
                    ∷ "refute_requires_privileged_authority" ∷ "verified_evidence_required" ∷ [])))
                (field "terminal_error_codes"
                  (arr (
                    texts (
                      "invalid_refute_attestation" ∷ "invalid_refute_authority_claim"
                      ∷ "invalid_refute_decision" ∷ "invalid_refute_plan"
                      ∷ "invalid_refute_planning_result" ∷ "invalid_refute_proposal"
                      ∷ "invalid_refute_target" ∷ "lifecycle_chain_invalid"
                      ∷ "lifecycle_chain_limit_exceeded" ∷ "refute_content_hash_mismatch"
                      ∷ "refute_plan_base_changed" ∷ "refute_policy_fingerprint_mismatch"
                      ∷ "revision_schema_downgrade" ∷ "revision_transition_invalid" ∷ [])))
                  (field "overlay_format" (str "refutations/v1") (
                    field "revision_schema" (str "an-kla/revision-v2")
                      (field "resolver_required" (bool true) end))))))))))

-- `decision`: "skip" or "refute".
pub data Verdict : Type 0 where
  skip refute : Verdict

abbrev pub verdict_name : Verdict → String
verdict_name skip = "skip"
verdict_name refute = "refute"

pub record Decision : Type 0 where
  pub proposal_sha256 : String
  pub claim_sha256 : String
  pub attestation_id : Option String
  pub fingerprint : String
  pub verdict : Verdict
  pub reason : String

abbrev pub text_or_none : Option String → Json
text_or_none none = null
text_or_none (some s) = str s

-- The dict that `_decision` returns.
abbrev pub decision_json : Decision → Json
decision_json d = obj (
    field "schema" (str "an-kla/refute-decision-v1") (
      field "proposal_sha256" (str d.proposal_sha256) (
        field "authority_claim_sha256" (str d.claim_sha256) (
          field "authority_attestation_id" (text_or_none d.attestation_id) (
            field "policy_profile" (str policy_profile) (
              field "policy_fingerprint" (str d.fingerprint) (
                field "decision" (str (verdict_name d.verdict))
                  (field "reason_codes" (arr (texts (d.reason ∷ []))) end))))))))

-- What the program asks of the host's resolver. `resolve` gives `null` for `None`.
pub record Resolver : Type 0 where
  pub descriptor : Json
  pub resolve : Json → Json → Json → Result Json
  pub verify : Json → Json → Json → Json → Result Json

-- `... is True`
abbrev pub is_true : Json → Bool
is_true (bool b) = b
is_true _ = false

-- A piece of evidence of the store that is not present there, `zip` with the observations.
unfoldable pub lacks_evidence : List Evidence → List Fields → Bool
lacks_evidence (e ∷ es) (o ∷ os) =
    not (is_outside e.kind) && not (is_present o) || lacks_evidence es os
lacks_evidence _ _ = false

-- The claim names the proposal's digest, its base and exactly its target.
abbrev pub is_bound : Proposal → Claim → String → Bool
is_bound p c proposal_sha =
    c.proposal_sha256 == proposal_sha
    && c.base_revision == p.base_revision
    && stream_name c.scope_stream == stream_name p.stream
    && c.scope_target == p.target_record_sha256

module _ (sha256 : String → String) where
  -- `policy_fingerprint`
  unfoldable pub policy_fingerprint : Result String
  unfolding config
  policy_fingerprint = digest_json sha256 config

  -- `digest_json(attestation) if attestation is not None else None`
  abbrev pub attestation_id_of : Option Json → Result (Option String)
  attestation_id_of none = ok none
  attestation_id_of (some a) = digest_json sha256 a >>= λ id. ok (some id)

  -- `_decision`, with what is returned beside it.
  unfoldable pub decide :
      Json → Json → Verdict → String → Option Json → Result (Decision × Option Json)
  unfolding policy_fingerprint
  decide proposal claim verdict reason attestation = do
    proposal_sha ← digest_json sha256 proposal
    claim_sha ← digest_json sha256 claim
    id ← attestation_id_of attestation
    fingerprint ← policy_fingerprint
    ok (
      record {
        proposal_sha256 = proposal_sha;
        claim_sha256 = claim_sha;
        attestation_id = id;
        fingerprint = fingerprint;
        verdict = verdict;
        reason = reason;
      },
      attestation,
    )

  module _ (same_number : Json → Json → Bool) where
    -- What the resolver gives is validated, and it has to verify it itself.
    unfoldable pub accept :
        Resolver
        → Json
        → Proposal
        → Json
        → Claim
        → Json
        → List Fields
        → Json
        → Result (Decision × Option Json)
    unfolding validate_attestation decide
    accept resolver proposal p claim c observations items raw = do
      validate_attestation same_number sha256 raw proposal p claim c observations items
          resolver.descriptor
      verified ← resolver.verify raw proposal claim observations
      raise_if (not (is_true verified))
          (policy_error attestation_code "resolver_verification_failed")
      decide proposal claim refute "refute_accepted" (some raw)

    unfoldable pub confirm :
        Resolver
        → Json
        → Proposal
        → Json
        → Claim
        → Json
        → List Fields
        → Json
        → Result (Decision × Option Json)
    unfolding decide accept
    confirm resolver proposal p claim c observations items raw =
        if is_null raw
        then decide proposal claim skip "verified_evidence_required" none
        else accept resolver proposal p claim c observations items raw

    unfoldable pub ask :
        Option Resolver
        → Json
        → Proposal
        → Json
        → Claim
        → Json
        → List Fields
        → Result (Decision × Option Json)
    unfolding decide confirm lacks_evidence
    ask none proposal p claim c observations items =
        decide proposal claim skip "refute_authority_resolver_unavailable" none
    ask (some resolver) proposal p claim c observations items =
        let asked : Result (Decision × Option Json) =
          resolver.resolve proposal claim observations >>= λ raw.
          confirm resolver proposal p claim c observations items raw in
        if lacks_evidence c.evidence items
        then decide proposal claim skip "verified_evidence_required" none
        else asked

    -- `evaluate`: the decision, and the attestation if there is one.
    unfoldable pub evaluate : Json → Json → Json → Option Resolver → Result (Decision × Option Json)
    unfolding validate_proposal validate_claim validate_observations decide ask
    evaluate proposal claim observations resolver = do
      p ← validate_proposal proposal
      c ← validate_claim claim
      items ← validate_observations same_number observations c
      proposal_sha ← digest_json sha256 proposal
      if not (is_bound p c proposal_sha)
          then decide proposal claim skip "authority_scope_mismatch" none
          else if not (is_privileged c.authority_class)
          then decide proposal claim skip "refute_requires_privileged_authority" none
          else ask resolver proposal p claim c observations items
