-- ===== src/Checkpoint/Tests.antt =====
-- A checkpoint that the model writes by its own authority.
use an_kla_memory.Base.{String, ◌≡◌, refl, Bool, true, false, [], ◌∷◌, ok}
use an_kla_memory.Base.Int.{pos}
use an_kla_memory.Json.{Json, Fields, field, end, null, num, str, arr, obj, cons, nil, texts, get}
use an_kla_memory.Canonical.{
  canonical_json, digest_json, byte_length, quoted, insert_member, member_text,
}
use an_kla_memory.Canonical.Identifiers.{bare_digest}
use an_kla_memory.WritePolicy.Plan.{part}
use an_kla_memory.Checkpoint.WorkingState.{validate_working_state, check_timestamp, state_bytes}
use an_kla_memory.Checkpoint.Evaluate.{build_plan}
use an_kla_memory.Checkpoint.Evaluate.{checkpoint_json, is_revision}
use an_kla_memory.Checkpoint.Bounds.{HasSize, IsBounded, validate_working_state-IsBounded}
use an_kla_memory.Checkpoint.Grant.{Granted, build_plan-Granted}

abbrev constant_sha256 : String → String
constant_sha256 s = "0123456789abcdef0123456789abcdef0123456789abcdef0123456789abcdef"

abbrev the_digest : Json
the_digest = str "sha256:0123456789abcdef0123456789abcdef0123456789abcdef0123456789abcdef"

-- No number stands in the values that are compared.
abbrev no_numbers : Json → Json → Bool
no_numbers v w = false

canonical_timestamp : check_timestamp "2026-02-28T23:59:58.000007Z" "captured_at" ≡ ok tt
unfolding check_timestamp
canonical_timestamp = refl

abbrev asserted : String → Json
asserted text = obj (field "value" (str text) (field "provenance" (str "caller_asserted") end))

abbrev absent : Json
absent = obj (field "value" null (field "provenance" (str "unavailable") end))

abbrev one_item : Json
one_item = arr (
    cons
      (obj (
        field "id" (str "d-1")
          (field "value" (str "keep the lock") (field "provenance" (str "caller_asserted") end))))
      nil)

abbrev no_source : Json
no_source = obj (
    field "profile" (str "none/v1")
      (field "head" absent (field "branch" absent (field "dirty_digest" absent end))))

abbrev state_fields : Fields
state_fields = field "schema" (str "an-kla/working-state-v2") (
    field "objective" (asserted "close the audit") (
      field "phase" absent (
        field "next_step" absent (
          field "decisions" one_item (
            field "blockers" (arr nil) (
              field "evidence" (arr nil) (
                field "source_state" no_source
                  (field "captured_at" absent (field "supersedes_checkpoint" the_digest end)))))))))

abbrev sample_proposal : Json
sample_proposal = obj (
    field "schema" (str "an-kla/checkpoint-proposal-v1") (
      field "base_revision" the_digest
        (field "parent_checkpoint" the_digest (field "working_state" (obj state_fields) end))))

abbrev sample_authority : Json
sample_authority = obj (
    field "schema" (str "an-kla/checkpoint-authority-v1") (
      field "proposal_sha256" the_digest (
        field "base_revision" the_digest (
          field "authority_class" (str "model_derived") (
            field "issuer"
              (obj (
                field "kind" (str "model")
                  (field "id" (str "m-1") (field "configuration_fingerprint" the_digest end))))
              (field "evidence" (arr nil) (
                field "scope"
                  (obj (
                    field "operation" (str "checkpoint") (
                      field "fields"
                        (arr (
                          texts (
                            "blockers" ∷ "captured_at" ∷ "decisions" ∷ "evidence" ∷ "next_step"
                            ∷ "objective" ∷ "phase" ∷ "source_state" ∷ [])))
                        end)))
                  end)))))))

abbrev sample_decision : Fields
sample_decision = field "schema" (str "an-kla/checkpoint-decision-v1") (
    field "reasons" (arr nil) (
      field "decision" (str "write")
        (field "proposal_sha256" the_digest (field "authority_sha256" the_digest end))))

abbrev some_text : String
some_text = "sha256:0123456789abcdef0123456789abcdef0123456789abcdef0123456789abcdef"

state_valid : validate_working_state (obj state_fields) ≡ ok some_text
unfolding validate_working_state canonical_json byte_length quoted bare_digest insert_member
    member_text
state_valid = refl

validate_working_state-IsBounded_example :
    (fs : Fields) × (obj state_fields ≡ obj fs)
    × HasSize (obj state_fields) state_bytes
    × IsBounded (get fs "decisions")
    × IsBounded (get fs "blockers")
    × IsBounded (get fs "evidence")
validate_working_state-IsBounded_example =
    validate_working_state-IsBounded (obj state_fields) some_text state_valid

planned :
    (plan : Json) × (build_plan constant_sha256 no_numbers sample_proposal sample_authority
        sample_decision
        (num (pos 1))
      ≡ ok plan)
unfolding build_plan bare_digest canonical_json byte_length quoted insert_member member_text
    digest_json
planned = (_, refl)

build_plan-Granted_example :
    (g : Granted constant_sha256 sample_proposal sample_authority) × (is_revision (num (pos 1))
      ≡ true)
    × (part planned.0 "checkpoint"
        ≡ checkpoint_json constant_sha256 (num (pos 1)) g.p.working_state)
build_plan-Granted_example =
    build_plan-Granted constant_sha256 no_numbers sample_proposal sample_authority sample_decision
      (num (pos 1)) planned.0 planned.1 refl
