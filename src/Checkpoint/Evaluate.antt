-- ===== src/Checkpoint/Evaluate.antt =====
-- `evaluate`, `build_plan` and `verify_plan` of an_kla/checkpoint_policy.py.
use an_kla_memory.Base.{suc, String, ◌==◌, Bool, true, false, not, ◌&&◌, ◌||◌}
use an_kla_memory.Base.{List, [], ◌∷◌, ◌++◌, if◌then◌else◌, Result, ok, raise_if, ◌>>=◌, ◌>>◌}
use an_kla_memory.Base.Int.{pos}
use an_kla_memory.Base.Text.{sorted}
use an_kla_memory.Json.{Json, Fields, field, end, num, str, arr, obj, texts}
use an_kla_memory.Json.Equal.{equal}
use an_kla_memory.Canonical.{digest_json}
use an_kla_memory.WriteBatch.Validate.{same_set}
use an_kla_memory.Checkpoint.Contracts.{
  policy_error, plan_code, checkpoint_fields, policy_fingerprint,
}
use an_kla_memory.Checkpoint.WorkingState.{Proposal, validate_proposal}
use an_kla_memory.Checkpoint.Authority.{Authority, AuthorityClass, unresolved, model_derived}
use an_kla_memory.Checkpoint.Authority.{validate_authority, is_filled}

-- `decision`: "skip" or "write".
pub data Verdict : Type 0 where
  skip write : Verdict

abbrev pub verdict_name : Verdict → String
verdict_name skip = "skip"
verdict_name write = "write"

pub record Decision : Type 0 where
  pub proposal_sha256 : String
  pub authority_sha256 : String
  pub verdict : Verdict
  pub reasons : List String

-- The dict that `evaluate` returns.
abbrev pub decision_json : Decision → Json
decision_json d = obj (
    field "schema" (str "an-kla/checkpoint-decision-v1") (
      field "proposal_sha256" (str d.proposal_sha256) (
        field "authority_sha256" (str d.authority_sha256) (
          field "decision" (str (verdict_name d.verdict))
            (field "reasons" (arr (texts d.reasons)) end)))))

-- `if test: reasons.add(reason)`
abbrev pub reason_if : Bool → String → List String
reason_if true reason = reason ∷ []
reason_if false reason = []

abbrev pub is_unresolved : AuthorityClass → Bool
is_unresolved unresolved = true
is_unresolved model_derived = false

unfoldable pub reasons_of : Proposal → Authority → String → List String
reasons_of p a proposal_hash =
    reason_if (not (a.proposal_sha256 == proposal_hash) || not (a.base_revision == p.base_revision))
      "authority_binding_mismatch"
    ++ (reason_if (not (same_set a.fields checkpoint_fields)) "authority_scope_mismatch"
        ++ reason_if (is_unresolved a.authority_class) "unresolved_authority")

abbrev pub decision_of : String → String → List String → Decision
decision_of proposal_hash authority_hash reasons = record {
  proposal_sha256 = proposal_hash;
  authority_sha256 = authority_hash;
  verdict = if is_filled reasons then skip else write;
  reasons = sorted reasons;
}

-- `isinstance(revision, int) and not isinstance(revision, bool) and revision >= 1`
abbrev pub is_revision : Json → Bool
is_revision (num (pos (suc n))) = true
is_revision _ = false

module _ (sha256 : String → String) where
  unfoldable pub evaluate : Json → Json → Result Decision
  unfolding validate_proposal validate_authority reasons_of
  evaluate proposal authority = do
    p ← validate_proposal proposal
    a ← validate_authority authority
    proposal_hash ← digest_json sha256 proposal
    authority_hash ← digest_json sha256 authority
    ok (decision_of proposal_hash authority_hash (reasons_of p a proposal_hash))

  abbrev pub checkpoint_json : Json → Json → Json
  checkpoint_json revision working_state = obj (
      field "schema" (str "an-kla/checkpoint-v2")
        (field "revision" revision (field "working_state" working_state end)))

  abbrev pub core_json : Proposal → Decision → String → String → String → Json
  core_json p d fingerprint decision_sha checkpoint_sha = obj (
      field "base_revision" (str p.base_revision) (
        field "parent_checkpoint" (str p.parent_checkpoint) (
          field "proposal_sha256" (str d.proposal_sha256) (
            field "authority_sha256" (str d.authority_sha256) (
              field "policy_fingerprint" (str fingerprint) (
                field "decision_sha256" (str decision_sha)
                  (field "checkpoint_sha256" (str checkpoint_sha) end)))))))

  abbrev pub plan_json : Json → Json → String → Json
  plan_json core checkpoint fingerprint = obj (
      field "schema" (str "an-kla/checkpoint-plan-v1") (
        field "core" core
          (field "checkpoint" checkpoint (field "plan_fingerprint" (str fingerprint) end))))

  -- The plan of a checked decision; `expected` has the digests of the inputs.
  unfoldable pub seal : Proposal → Decision → Json → Json → Result Json
  unfolding policy_fingerprint
  seal p expected decision revision = do
    let checkpoint = checkpoint_json revision p.working_state
    fingerprint ← policy_fingerprint sha256
    decision_sha ← digest_json sha256 decision
    checkpoint_sha ← digest_json sha256 checkpoint
    let core = core_json p expected fingerprint decision_sha checkpoint_sha
    plan_fingerprint ← digest_json sha256 core
    ok (plan_json core checkpoint plan_fingerprint)

  -- The same decision, were the checkpoint unchanged.
  abbrev pub unchanged : Decision → Decision
  unchanged d = record {
    proposal_sha256 = d.proposal_sha256;
    authority_sha256 = d.authority_sha256;
    verdict = skip;
    reasons = "checkpoint_unchanged" ∷ [];
  }

  abbrev pub is_write : Verdict → Bool
  is_write write = true
  is_write skip = false

  module _ (same_number : Json → Json → Bool) where
    -- `decision` and `plan` are mappings. The fields of the proposal are read off it once more after
    -- `evaluate` has validated it.
    unfoldable pub build_plan : Json → Json → Fields → Json → Result Json
    unfolding evaluate equal seal validate_proposal
    build_plan proposal authority decision revision = do
      expected ← evaluate proposal authority
      raise_if
          (not (equal same_number (obj decision) (decision_json expected))
            && not (
                is_write expected.verdict
                && equal same_number (obj decision) (decision_json (unchanged expected))))
          (policy_error plan_code "decision:mismatch")
      raise_if (not (is_revision revision)) (policy_error plan_code "revision")
      p ← validate_proposal proposal
      seal p expected (obj decision) revision

    unfoldable pub verify_plan : Fields → Json → Json → Fields → Json → Result (Unit {0})
    unfolding build_plan equal
    verify_plan plan proposal authority decision revision = do
      expected ← build_plan proposal authority decision revision
      raise_if (not (equal same_number (obj plan) expected))
          (policy_error plan_code "plan:mismatch")
