-- ===== src/WritePolicy/Configuration.antt =====
-- `_POLICY_CONFIGURATION` of an_kla/write_policy.py, whose digest every decision carries.
use an_kla_memory.Base.{String, List, [], ◌∷◌, true, false, Result}
use an_kla_memory.Base.Int.{pos}
use an_kla_memory.Json.{Json, obj, field, end, arr, str, bool, num, texts}
use an_kla_memory.Canonical.{digest_json}

abbrev pub policy_profile : String
policy_profile = "write-policy/v1"

-- `_SELF_ASSERTED_AUTHORITY_KEYS`, sorted
abbrev pub self_asserted_keys : List String
self_asserted_keys =
    "authority" ∷ "authority_class" ∷ "candidate_risk" ∷ "confidence" ∷ "human_confirmed" ∷ "risk"
    ∷ "trusted" ∷ "verified" ∷ []

abbrev policy_evidence_kinds : Json
policy_evidence_kinds = obj (
    field "an-kla/write-authority-v1"
      (arr (texts ("artifact" ∷ "event" ∷ "external" ∷ "revision" ∷ [])))
      (field "an-kla/write-authority-v2"
        (arr (texts ("artifact" ∷ "attestation_receipt" ∷ "event" ∷ "external" ∷ "revision" ∷ [])))
        end))

abbrev attestation : Json
attestation = obj (
    field "decision" (str "ADR-0046") (
      field "receipt_schema" (str "an-kla/attest-receipt-v1") (
        field "signature" (str "hmac-sha256/local-key") (
          field "verification_points" (arr (texts ("plan-write" ∷ "commit-write-plan" ∷ []))) (
            field "terminal_error_codes"
              (arr (
                texts (
                  "attest_command_not_allowed" ∷ "attest_not_initialized" ∷ "attest_timeout"
                  ∷ "receipt_identity_mismatch" ∷ "receipt_invalid" ∷ "receipt_replayed"
                  ∷ "receipt_whitelist_changed" ∷ [])))
              end)))))

abbrev reason_codes : Json
reason_codes = arr (
    texts (
      "authority_scope_mismatch" ∷ "channel_confirmation_resolved"
      ∷ "channel_confirmed_requires_adapter" ∷ "derived_authority_capped" ∷ "derived_from_retrieval"
      ∷ "operation_not_supported" ∷ "record_without_indexable_text" ∷ "representation_accepted"
      ∷ "self_asserted_authority_ignored" ∷ "summary_required_for_authority_ceiling"
      ∷ "supersede_requires_non_derived_authority" ∷ "tool_evidence_verified"
      ∷ "unresolved_authority" ∷ []))

abbrev terminal_error_codes : Json
terminal_error_codes = arr (
    texts (
      "channel_confirmed_requires_adapter" ∷ "invalid_supersede_target" ∷ "invalid_write_authority"
      ∷ "invalid_write_decision" ∷ "invalid_write_plan" ∷ "invalid_write_proposal"
      ∷ "subject_ref_namespace_mismatch" ∷ "write_content_hash_mismatch" ∷ "write_plan_base_changed"
      ∷ "write_plan_hash_mismatch" ∷ "write_policy_fingerprint_mismatch" ∷ []))

-- Its members, in the order of the source.
unfoldable pub policy_configuration : Json
policy_configuration = obj (
    field "schema" (str "an-kla/write-policy-config-v1") (
      field "profile" (str policy_profile) (
        field "supported_operations" (arr (texts ("add" ∷ "supersede" ∷ []))) (
          field "authority_schemas"
            (arr (texts ("an-kla/write-authority-v1" ∷ "an-kla/write-authority-v2" ∷ [])))
            (field "evidence_kinds" policy_evidence_kinds (
              field "attestation" attestation (
                field "reason_codes" reason_codes (
                  field "terminal_error_codes" terminal_error_codes (
                    field "derived_authority"
                      (obj (
                        field "allowed_operations" (arr (texts ("add" ∷ "supersede" ∷ [])))
                          (field "maximum_representation" (str "summary") end)))
                      (field "require_verified_tool_evidence" (bool true) (
                        field "channel_confirmed_adapter" (bool false) (
                          field "max_batch_records" (num (pos 1000)) (
                            field "record_validators"
                              (obj (
                                field "subject_ref" (str "an-kla-subject-ref/v1")
                                  (field "verified_at" (str "an-kla-verified-at/v1") end)))
                              (field "self_asserted_authority_keys" (arr (texts self_asserted_keys))
                                end))))))))))))))

unfoldable pub policy_fingerprint : (String → String) → Result String
unfolding policy_configuration
policy_fingerprint sha256 = digest_json sha256 policy_configuration
