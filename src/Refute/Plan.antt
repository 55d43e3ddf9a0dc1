-- ===== src/Refute/Plan.antt =====
-- `validate_decision`, `build_plan` and `verify_plan` of an_kla/refute_policy.py.
use an_kla_memory.Base.{String, ◌==◌, Bool, true, false, not, Option, none, some, List}
use an_kla_memory.Base.{[], ◌∷◌, if◌then◌else◌, refute_policy, Result, ok, err, raise_if}
use an_kla_memory.Base.{◌>>=◌, ◌>>◌}
use an_kla_memory.Json.{Json, nil, cons, field, end, null, str, arr, obj, get}
use an_kla_memory.Json.{is_str, in_set}
use an_kla_memory.Json.Equal.{equal}
use an_kla_memory.Canonical.{digest_json}
use an_kla_memory.WritePolicy.Types.{stream_name}
use an_kla_memory.WritePolicy.Shape.{one_of}
use an_kla_memory.Refute.Contracts.{Proposal, validate_proposal, policy_error}
use an_kla_memory.Refute.Claim.{Claim, validate_claim}
use an_kla_memory.Refute.Contracts.{exact, digest}
use an_kla_memory.Refute.Evaluate.{policy_profile, policy_fingerprint, Verdict, skip, refute}
use an_kla_memory.Refute.Evaluate.{verdict_name, Decision, text_or_none, attestation_id_of}

abbrev pub decision_code : String
decision_code = "invalid_refute_decision"

abbrev verdict_of : String → Option Verdict
verdict_of s = if s == "skip" then some skip else if s == "refute" then some refute else none

abbrev pub skip_reasons : List String
skip_reasons =
    "authority_scope_mismatch" ∷ "refute_authority_resolver_unavailable"
    ∷ "refute_requires_privileged_authority" ∷ "verified_evidence_required" ∷ []

-- `out["reason_codes"]`, if it is a list with one element
abbrev only_reason : Json → Option Json
only_reason (arr (cons reason nil)) = some reason
only_reason _ = none

-- `!=` between texts or `None`
abbrev pub same_id : Option String → Option String → Bool
same_id none none = true
same_id (some s) (some t) = s == t
same_id _ _ = false

-- The attestation's id and the reason agree with the decision.
unfoldable pub check_reason : Verdict → Json → Json → Result (Option String)
unfolding digest
check_reason refute id reason = do
  attestation_id ← digest id decision_code "authority_attestation_id"
  raise_if (not (is_str "refute_accepted" reason)) (policy_error decision_code "reason_codes")
  ok (some attestation_id)
check_reason skip null reason = do
  known ← in_set skip_reasons reason
  raise_if (not known) (policy_error decision_code "reason_codes")
  ok none
check_reason skip _ reason = err (policy_error decision_code "reason_codes")

-- `==` on Booleans
abbrev pub is_same : Bool → Bool → Bool
is_same true b = b
is_same false b = not b

abbrev text_of : Json → String
text_of (str s) = s
text_of _ = ""

module _ (sha256 : String → String) where
  -- `if enforce_installed_policy and ...`
  abbrev pub check_installed : Bool → String → Result (Unit {0})
  check_installed false fingerprint = ok tt
  check_installed true fingerprint = policy_fingerprint sha256 >>= λ installed.
      raise_if (not (fingerprint == installed))
        (refute_policy "refute_policy_fingerprint_mismatch" none)

  unfoldable pub validate_decision : Bool → Json → Result Decision
  unfolding exact digest check_reason
  validate_decision enforce value = do
    out ←
        exact value
          ("schema" ∷ "proposal_sha256" ∷ "authority_claim_sha256" ∷ "authority_attestation_id"
            ∷ "policy_profile" ∷ "policy_fingerprint" ∷ "decision" ∷ "reason_codes" ∷ [])
          decision_code "shape"
    let e = policy_error decision_code "values"
    raise_if (not (is_str "an-kla/refute-decision-v1" (get out "schema"))) e
    raise_if (not (is_str policy_profile (get out "policy_profile"))) e
    verdict ← one_of verdict_of (get out "decision") e
    reason ← elim (only_reason (get out "reason_codes")) [ none ↦ err e | some r ↦ ok r ]
    proposal_sha ← digest (get out "proposal_sha256") decision_code "proposal_sha256"
    claim_sha ← digest (get out "authority_claim_sha256") decision_code "authority_claim_sha256"
    fingerprint ← digest (get out "policy_fingerprint") decision_code "policy_fingerprint"
    check_installed enforce fingerprint
    id ← check_reason verdict (get out "authority_attestation_id") reason
    ok (record {
      proposal_sha256 = proposal_sha;
      claim_sha256 = claim_sha;
      attestation_id = id;
      fingerprint = fingerprint;
      verdict = verdict;
      reason = text_of reason;
    })

  abbrev pub is_skip : Verdict → Bool
  is_skip skip = true
  is_skip refute = false

  abbrev pub is_none : Option Json → Bool
  is_none none = true
  is_none (some a) = false

  abbrev pub target_json : Proposal → Json
  target_json p = obj (
      field "stream" (str (stream_name p.stream))
        (field "record_sha256" (str p.target_record_sha256) end))

  abbrev pub core_json : Proposal → Decision → String → String → Json
  core_json p d decision_sha evidence_sha = obj (
      field "base_revision" (str p.base_revision) (
        field "proposal_sha256" (str d.proposal_sha256) (
          field "authority_claim_sha256" (str d.claim_sha256) (
            field "authority_attestation_id" (text_or_none d.attestation_id) (
              field "policy_fingerprint" (str d.fingerprint) (
                field "decision" (str (verdict_name d.verdict)) (
                  field "decision_sha256" (str decision_sha) (
                    field "target" (target_json p) (
                      field "reason" (str p.reason)
                        (field "evidence_sha256" (str evidence_sha) end))))))))))

  abbrev pub plan_json : Json → String → Json
  plan_json core fingerprint = obj (
      field "schema" (str "an-kla/refute-plan-v1")
        (field "core" core (field "plan_fingerprint" (str fingerprint) end)))

  -- The plan of checked parts. The digests of the proposal, of the claim and of the attestation are
  -- those of the decision by then.
  unfoldable pub seal : Json → Proposal → Claim → Decision → Result Json
  seal decision p c d = do
    decision_sha ← digest_json sha256 decision
    evidence_sha ← digest_json sha256 c.evidence_value
    let core = core_json p d decision_sha evidence_sha
    fingerprint ← digest_json sha256 core
    ok (plan_json core fingerprint)

  unfoldable pub build_plan : Bool → Json → Json → Option Json → Json → Result Json
  unfolding validate_proposal validate_claim validate_decision seal
  build_plan enforce proposal claim attestation decision = do
    p ← validate_proposal proposal
    c ← validate_claim claim
    d ← validate_decision enforce decision
    id ← attestation_id_of sha256 attestation
    let e = policy_error "invalid_refute_plan" "binding"
    proposal_sha ← digest_json sha256 proposal
    raise_if (not (d.proposal_sha256 == proposal_sha)) e
    claim_sha ← digest_json sha256 claim
    raise_if (not (d.claim_sha256 == claim_sha)) e
    raise_if (not (same_id d.attestation_id id)) e
    raise_if (not (is_same (is_skip d.verdict) (is_none attestation))) e
    seal decision p c d

  unfoldable pub verify_plan :
      (Json → Json → Bool) → Bool → Json → Json → Json → Option Json → Json → Result Json
  unfolding build_plan equal
  verify_plan same_number enforce plan proposal claim attestation decision = do
    expected ← build_plan enforce proposal claim attestation decision
    raise_if (not (equal same_number plan expected)) (policy_error "invalid_refute_plan" "content")
    ok expected
