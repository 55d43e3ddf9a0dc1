-- ===== src/Store/PlanItems.antt =====
-- The items that a commit reads of the plan that `build_write_plan` (an_kla/write_policy.py) makes of
-- one proposal.
use an_kla_memory.Base.{String, ◌<>◌, ◌==◌, ◌≡◌, ◌≢◌, refl, sym, ap, ◌∙◌, some}
use an_kla_memory.Base.{[], ◌∷◌, ok, not, ◌||◌}
use an_kla_memory.Base.{subst}
use an_kla_memory.Base.{>>=-eq-ok, >>-eq-ok, raise_if-eq-ok, ok_inj}
use an_kla_memory.Base.Text.{Unicode}
use an_kla_memory.Json.{
  Json, Fields, Items, nil, cons, null, bool, num, real, not_finite, str, arr, obj,
}
use an_kla_memory.Json.{get, item, is_str}
use an_kla_memory.Canonical.{canonical_json, digest_json}
use an_kla_memory.Canonical.Identifiers.{drop_chars}
use an_kla_memory.WritePolicy.Types.{Proposal, Authority, stream_of}
use an_kla_memory.WritePolicy.Types.{operation_of}
use an_kla_memory.WritePolicy.Shape.{require_exact_keys, validate_json_value}
use an_kla_memory.WritePolicy.Shape.{validate_record_fields}
use an_kla_memory.WritePolicy.Proposal.{validate_single_proposal, read_request, read_content}
use an_kla_memory.WritePolicy.Proposal.{proposal_code, supersedes_of, validate_lineage}
use an_kla_memory.WritePolicy.Authority.{validate_write_authority}
use an_kla_memory.WritePolicy.Evaluate.{
  Decision, Verdict, skip, write_full, write_summary, evaluate_single,
}
use an_kla_memory.WritePolicy.Decision.{decision_json, verified_decision, check_decision}
use an_kla_memory.WritePolicy.Decision.{validate_write_decision}
use an_kla_memory.WritePolicy.Plan.{planned_item, decision_event, planned_records}
use an_kla_memory.WritePolicy.Plan.{build_single_plan, assemble_plan, plan_core, plan_json}
use an_kla_memory.WriteBatch.Named.{IsNamed, validate_record_fields-IsNamed}
use an_kla_memory.Store.Guard.{planned_items}
use an_kla_memory.Store.Reading.{
  read_item, read_items, records_of, read_item-planned_item, as_str-eq,
}

-- What is planned, where the verdict is not to skip.
written_records : (v : Verdict) (xs : Items) → v ≢ skip → (elim v [ skip ↦ nil | _ ↦ xs ]) ≡ xs
written_records skip xs h = absurd (h refl)
written_records write_full xs h = refl
written_records write_summary xs h = refl

-- A valid proposal has its record's id under `id`.
obj-IsNamed :
    (fs : Fields) (p : Proposal) → validate_single_proposal (obj fs) ≡ ok p → IsNamed p.row p.row_id
unfolding validate_single_proposal read_content
obj-IsNamed fs p h =
    let (_, h₁) =
      >>-eq-ok
        (require_exact_keys fs
          ("schema" ∷ "base_revision" ∷ "stream" ∷ "operation" ∷ "requested_representation"
            ∷ "record" ∷ "lineage" ∷ [])
          ("supersedes" ∷ []) proposal_code "proposal:keys")
        _ h in
    let ((base, stream, operation, requested), h₂, _) = >>=-eq-ok (read_request fs) _ h₁ in
    let (row, h₃, _) = >>=-eq-ok (item fs "record") _ h₂ in
    let (row_id, h₄, named) = >>=-eq-ok (validate_record_fields row proposal_code "record") _ h₃ in
    let (target, h₅, _) = >>=-eq-ok (supersedes_of operation fs row_id) _ h₄ in
    let (lineage, h₆, _) = >>=-eq-ok (item fs "lineage") _ h₅ in
    let (derived, h₇, _) = >>=-eq-ok (validate_lineage lineage) _ h₆ in
    let (_, h₈) =
      >>-eq-ok (validate_json_value (obj fs) proposal_code "proposal:invalid_json") _ h₇ in
    subst (λ (q : Proposal). IsNamed q.row q.row_id) (ok_inj h₈)
      (validate_record_fields-IsNamed row proposal_code "record" row_id named)

validate_single_proposal-IsNamed :
    (proposal : Json) (p : Proposal)
    → validate_single_proposal proposal ≡ ok p
    → IsNamed p.row p.row_id
unfolding validate_single_proposal
validate_single_proposal-IsNamed (obj fs) p h = obj-IsNamed fs p h
validate_single_proposal-IsNamed null p h = (cc, cc)
validate_single_proposal-IsNamed (bool x) p h = (cc, cc)
validate_single_proposal-IsNamed (num n) p h = (cc, cc)
validate_single_proposal-IsNamed (real r) p h = (cc, cc)
validate_single_proposal-IsNamed not_finite p h = (cc, cc)
validate_single_proposal-IsNamed (str s) p h = (cc, cc)
validate_single_proposal-IsNamed (arr xs) p h = (cc, cc)

read_items-planned_records :
    (p : Proposal) (a : Authority) (d : Decision)
    → d.verdict ≢ skip
    → get p.row "id" ≡ str p.row_id
    → read_items (planned_records p a d)
      ≡ ok (planned_items p ("e-write-policy-" <> drop_chars 7 d.proposal_sha256))
unfolding read_items read_item stream_of operation_of
read_items-planned_records p a d written named =
    ap read_items
      (written_records d.verdict (cons (planned_item p) (cons (decision_event a d) nil)) written)
    ∙ rw (read_item-planned_item p named) refl

module _ (sha256 : String → String) where
  pub assemble_plan-json :
      (p : Proposal) (a : Authority) (d : Decision) (plan : Json)
      → assemble_plan sha256 p a d ≡ ok plan
      → (core : Json) × (fingerprint : String) × (plan
          ≡ plan_json core (planned_records p a d) fingerprint)
  unfolding assemble_plan
  assemble_plan-json p a d plan h =
      let (ds, h₁, _) = >>=-eq-ok (digest_json sha256 (decision_json d)) _ h in
      let (rs, h₂, _) = >>=-eq-ok (digest_json sha256 (arr (planned_records p a d))) _ h₁ in
      let (fp, h₃, _) = >>=-eq-ok (digest_json sha256 (plan_core p.base_revision d ds rs)) _ h₂ in
      (plan_core p.base_revision d ds rs, fp, sym (ok_inj h₃))

  module _ (u : Unicode) where
    -- A decision that was handed in is the one that is computed again.
    check_decision-same :
        (given : Json) (expected d : Decision)
        → check_decision sha256 u given expected ≡ ok d
        → expected ≡ d
    unfolding check_decision
    check_decision-same (obj given) expected d h =
        let (_, h₁) = >>-eq-ok (validate_write_decision (obj given)) _ h in
        let (_, h₂) =
          raise_if-eq-ok (not (is_str expected.fingerprint (get given "policy_fingerprint"))) _ _
            h₁ in
        let (_, h₃) =
          raise_if-eq-ok
            (not (is_str expected.proposal_sha256 (get given "proposal_sha256"))
              || not (is_str expected.authority_sha256 (get given "authority_sha256")))
            _ _ h₂ in
        let (given_text, h₄, _) = >>=-eq-ok (canonical_json (obj given)) _ h₃ in
        let (wanted, h₅, _) = >>=-eq-ok (canonical_json (decision_json expected)) _ h₄ in
        let (_, h₆) = raise_if-eq-ok (not (given_text == wanted)) _ _ h₅ in ok_inj h₆
    check_decision-same null expected d h = cc
    check_decision-same (bool x) expected d h = cc
    check_decision-same (num n) expected d h = cc
    check_decision-same (real r) expected d h = cc
    check_decision-same not_finite expected d h = cc
    check_decision-same (str s) expected d h = cc
    check_decision-same (arr xs) expected d h = cc

    -- The items that the commit reads of the plan of a decision to write are the record of the
    -- proposal, under its operation and with its target, and the event of the decision.
    pub build_single_plan-items :
        (proposal authority : Json) (d : Decision) (p : Proposal) (plan : Json)
        → evaluate_single sha256 u proposal authority ≡ ok d
        → d.verdict ≢ skip
        → validate_single_proposal proposal ≡ ok p
        → build_single_plan sha256 u proposal authority (some (decision_json d)) ≡ ok plan
        → read_items (records_of plan)
          ≡ ok (planned_items p ("e-write-policy-" <> drop_chars 7 d.proposal_sha256))
    unfolding build_single_plan verified_decision
    build_single_plan-items proposal authority d p plan judged written valid h =
        let (d₁, h₁, verified) =
          >>=-eq-ok (verified_decision sha256 u proposal authority (some (decision_json d))) _ h in
        let (p₁, h₂, valid₁) = >>=-eq-ok (validate_single_proposal proposal) _ h₁ in
        let (a, h₃, _) = >>=-eq-ok (validate_write_authority authority) _ h₂ in
        let (d₂, checked, judged₁) =
          >>=-eq-ok (evaluate_single sha256 u proposal authority)
            (check_decision sha256 u (decision_json d)) verified in
        let same_d : d₁ ≡ d =
          sym (check_decision-same (decision_json d) d₂ d₁ checked)
          ∙ ok_inj (sym judged₁ ∙ judged) in
        let same_p : p₁ ≡ p = ok_inj (sym valid₁ ∙ valid) in
        let built : assemble_plan sha256 p a d ≡ ok plan =
          ap (λ q. assemble_plan sha256 q a d) (sym same_p)
          ∙ (ap (λ x. assemble_plan sha256 p₁ a x) (sym same_d) ∙ h₃) in
        let (named, _) = validate_single_proposal-IsNamed proposal p valid in
        let (core, fingerprint, shape) = assemble_plan-json p a d plan built in
        ap (λ v. read_items (records_of v)) shape
        ∙ read_items-planned_records p a d written (as_str-eq (get p.row "id") named)
