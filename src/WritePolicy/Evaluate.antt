-- ===== src/WritePolicy/Evaluate.antt =====
-- `evaluate_write` of an_kla/write_policy.py, for one proposal and one authority.
use an_kla_memory.Base.{String, ◌==◌, Bool, true, false, not, ◌&&◌, ◌||◌, List, [], map, any}
use an_kla_memory.Base.{if◌then◌else◌, member, Result, ok, ◌>>=◌}
use an_kla_memory.Base.Text.{Unicode, casefold, add, sorted}
use an_kla_memory.Json.{Json, Items, Fields, nil, cons, end, field, arr, obj}
use an_kla_memory.Canonical.{digest_json}
use an_kla_memory.Record.RecordText.{record_text}
use an_kla_memory.WritePolicy.Types.{Proposal, Authority, Evidence, AuthorityClass, Operation}
use an_kla_memory.WritePolicy.Types.{Representation, full, summary, tool_observed}
use an_kla_memory.WritePolicy.Types.{channel_confirmed, model_derived, derived_from_retrieval}
use an_kla_memory.WritePolicy.Types.{supersede, refute, decay, stream_name, operation_name}
use an_kla_memory.WritePolicy.Types.{representation_name}
use an_kla_memory.WritePolicy.Proposal.{validate_single_proposal}
use an_kla_memory.WritePolicy.Authority.{validate_write_authority, channel_confirmed_adapter}
use an_kla_memory.WritePolicy.Authority.{is_verified}
use an_kla_memory.WritePolicy.Configuration.{self_asserted_keys, policy_fingerprint}

-- `decision`: "skip", "write-full" or "write-summary".
pub data Verdict : Type 0 where
  skip write_full write_summary : Verdict

pub record Decision : Type 0 where
  pub proposal_sha256 : String
  pub authority_sha256 : String
  pub fingerprint : String
  pub verdict : Verdict
  pub reasons : List String

module _ (u : Unicode) where
  -- `_contains_self_asserted_authority`
  unfoldable mutual
    pub contains_self_asserted : Json → Bool
    contains_self_asserted (obj fs) = keys_self_asserted fs || values_self_asserted fs
    contains_self_asserted (arr xs) = items_self_asserted xs
    contains_self_asserted _ = false

    keys_self_asserted : Fields → Bool
    keys_self_asserted end = false
    keys_self_asserted (field k v fs) =
        member (casefold u k) self_asserted_keys || keys_self_asserted fs

    values_self_asserted : Fields → Bool
    values_self_asserted end = false
    values_self_asserted (field k v fs) = contains_self_asserted v || values_self_asserted fs

    items_self_asserted : Items → Bool
    items_self_asserted nil = false
    items_self_asserted (cons x xs) = contains_self_asserted x || items_self_asserted xs

-- `_decision`: an accepted representation is a reason, and the reasons are sorted.
abbrev pub close : Verdict → List String → Verdict × List String
close skip reasons = (skip, sorted reasons)
close v reasons = (v, sorted (add "representation_accepted" reasons))

-- `operation in supported_operations`, which are also those allowed to a derived authority.
abbrev pub is_supported : Operation → Bool
is_supported refute = false
is_supported decay = false
is_supported _ = true

abbrev is_supersede : Operation → Bool
is_supersede supersede = true
is_supersede _ = false

abbrev is_full : Representation → Bool
is_full full = true
is_full summary = false

abbrev is_retrieval : AuthorityClass → Bool
is_retrieval derived_from_retrieval = true
is_retrieval _ = false

-- The end of the ladder: the representation that was asked for.
abbrev pub accept : Bool → Representation → List String → Verdict × List String
accept without_text full reasons =
    close write_full (if without_text then add "record_without_indexable_text" reasons else reasons)
accept without_text summary reasons =
    close write_summary
      (if without_text then add "record_without_indexable_text" reasons else reasons)

-- The `else` branch: an authority that is derived.
unfoldable pub derived_rung :
    AuthorityClass → Operation → Representation → Bool → List String → Verdict × List String
derived_rung authority_class operation requested without_text before =
    let reasons = add "derived_authority_capped" before in
    if is_supersede operation && is_retrieval authority_class
    then close skip (add "supersede_requires_non_derived_authority" reasons)
    else if not (is_supported operation)
    then close skip reasons
    else if is_full requested
    then close skip (add "summary_required_for_authority_ceiling" reasons)
    else accept without_text requested reasons

-- The branches on the authority class.
unfoldable pub class_rung :
    AuthorityClass
    → List Evidence
    → Operation
    → Representation
    → Bool
    → List String
    → Verdict × List String
unfolding derived_rung
class_rung AuthorityClass.unresolved evidence operation requested without_text reasons =
    close skip (add "unresolved_authority" reasons)
class_rung tool_observed evidence operation requested without_text reasons =
    if any (λ e. is_verified e.resolution) evidence
    then accept without_text requested (add "tool_evidence_verified" reasons)
    else close skip (add "unresolved_authority" reasons)
class_rung channel_confirmed evidence operation requested without_text reasons =
    if channel_confirmed_adapter
    then accept without_text requested (add "channel_confirmation_resolved" reasons)
    else close skip (add "channel_confirmed_requires_adapter" reasons)
class_rung model_derived evidence operation requested without_text reasons =
    derived_rung model_derived operation requested without_text reasons
class_rung derived_from_retrieval evidence operation requested without_text reasons =
    derived_rung derived_from_retrieval operation requested without_text reasons

-- The authority speaks of this proposal and covers what it asks.
abbrev pub in_scope : Proposal → Authority → String → Bool
in_scope p a proposal_sha256 =
    a.proposal_sha256 == proposal_sha256
    && (a.base_revision == p.base_revision)
    && member (stream_name p.stream) (map stream_name a.streams)
    && member (representation_name p.requested) (map representation_name a.representations)
    && member (operation_name p.operation) (map operation_name a.operations)

unfoldable pub ladder : Bool → Bool → Proposal → Authority → String → Verdict × List String
unfolding class_rung
ladder self_asserted without_text p a proposal_sha256 =
    let first = if self_asserted then add "self_asserted_authority_ignored" [] else [] in
    if not (in_scope p a proposal_sha256)
    then close skip (add "authority_scope_mismatch" first)
    else if not (is_supported p.operation)
    then close skip (add "operation_not_supported" first)
    else class_rung a.authority_class a.evidence p.operation p.requested without_text
        (if p.derived then add "derived_from_retrieval" first else first)

module _ (u : Unicode) where
  abbrev pub decision_of : Proposal → Authority → String → String → String → Decision
  decision_of p a proposal_sha256 authority_sha256 fingerprint =
      let result =
        ladder (contains_self_asserted u (obj p.row)) (record_text u p.row == "") p a
          proposal_sha256 in
      record {
        proposal_sha256 = proposal_sha256;
        authority_sha256 = authority_sha256;
        fingerprint = fingerprint;
        verdict = result.0;
        reasons = result.1;
      }

  -- The validations and the digests, in their order, then the ladder.
  unfoldable pub judge :
      Result Proposal
      → Result Authority
      → Result String
      → Result String
      → Result String
      → Result Decision
  judge valid_proposal valid_authority digest₁ digest₂ digest₃ = do
    p ← valid_proposal
    a ← valid_authority
    proposal_sha256 ← digest₁
    authority_sha256 ← digest₂
    fingerprint ← digest₃
    ok (decision_of p a proposal_sha256 authority_sha256 fingerprint)

unfoldable pub evaluate_single : (String → String) → Unicode → Json → Json → Result Decision
unfolding judge
evaluate_single sha256 u proposal authority =
    judge u (validate_single_proposal proposal) (validate_write_authority authority)
      (digest_json sha256 proposal) (digest_json sha256 authority) (policy_fingerprint sha256)
