-- ===== src/WritePolicy/Tests.antt =====
-- A concrete proposal and authority for each theorem on the decisions of the policy.
use an_kla_memory.Base.{◌≡◌, refl, true, false, [], ◌∷◌}
use an_kla_memory.Base.{ok, none}
use an_kla_memory.Base.Text.{strip, casefold}
use an_kla_memory.Json.{end, field, str}
use an_kla_memory.Json.Limits.{visit}
use an_kla_memory.Canonical.{digest_json, canonical_json}
use an_kla_memory.Record.RecordText.{record_text}
use an_kla_memory.WritePolicy.Types.{Proposal, Authority, Operation, summary, facts, verified}
use an_kla_memory.WritePolicy.Types.{derived_from_retrieval}
use an_kla_memory.WritePolicy.Proposal.{validate_single_proposal}
use an_kla_memory.WritePolicy.Authority.{validate_write_authority}
use an_kla_memory.WritePolicy.Configuration.{policy_fingerprint}
use an_kla_memory.WritePolicy.Evaluate.{
  evaluate_single, ladder, contains_self_asserted, write_summary,
}
use an_kla_memory.WritePolicy.Ceiling.{FullGround, full_needs_observation, retrieval_ceiling}
use an_kla_memory.WritePolicy.Samples.{
  constant_sha256, some_digest, ascii, proposal_of, full_decision, summary_decision,
  observed_authority, derived_authority,
}

full_run :
    evaluate_single constant_sha256 ascii (proposal_of "full") observed_authority ≡ ok full_decision
unfolding evaluate_single validate_single_proposal validate_write_authority digest_json visit
    canonical_json policy_fingerprint ladder record_text strip contains_self_asserted casefold
full_run = refl

summary_run :
    evaluate_single constant_sha256 ascii (proposal_of "summary") derived_authority
    ≡ ok summary_decision
unfolding evaluate_single validate_single_proposal validate_write_authority digest_json visit
    canonical_json policy_fingerprint ladder record_text strip contains_self_asserted casefold
summary_run = refl

abbrev summary_proposal : Proposal
summary_proposal = record {
  base_revision = some_digest;
  stream = facts;
  operation = Operation.add;
  requested = summary;
  row = field "id" (str "f-1") (field "text" (str "x") end);
  row_id = "f-1";
  supersedes = none;
  derived = false;
}

abbrev retrieved : Authority
retrieved = record {
  proposal_sha256 = some_digest;
  base_revision = some_digest;
  authority_class = derived_from_retrieval;
  evidence = record { resolution = verified; has_sha256 = true } ∷ [];
  streams = facts ∷ [];
  representations = summary ∷ [];
  operations = Operation.add ∷ [];
}

summary_proposal_valid : validate_single_proposal (proposal_of "summary") ≡ ok summary_proposal
unfolding validate_single_proposal visit canonical_json
summary_proposal_valid = refl

retrieved_valid : validate_write_authority derived_authority ≡ ok retrieved
unfolding validate_write_authority visit canonical_json
retrieved_valid = refl

full_needs_observation_example :
    (p : Proposal) × (a : Authority) × (validate_single_proposal (proposal_of "full") ≡ ok p)
    × (validate_write_authority observed_authority ≡ ok a)
    × FullGround p a
    × (digest_json constant_sha256 (proposal_of "full") ≡ ok a.proposal_sha256)
    × (a.base_revision ≡ p.base_revision)
full_needs_observation_example =
    full_needs_observation constant_sha256 ascii (proposal_of "full") observed_authority
      full_decision full_run refl

retrieval_ceiling_example :
    (summary_proposal.operation ≡ Operation.add)
    × (summary_proposal.requested ≡ summary)
    × (summary_decision.verdict ≡ write_summary)
retrieval_ceiling_example =
    retrieval_ceiling constant_sha256 ascii (proposal_of "summary") derived_authority
      summary_decision summary_proposal retrieved summary_run summary_proposal_valid retrieved_valid
      refl (λ e. cc)
