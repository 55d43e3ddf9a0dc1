-- ===== src/WriteBatch/Judge.antt =====
-- `_twin_v1`, `_twin_authority` and `evaluate_batch_write` of an_kla/write_batch.py, and the dispatch
-- of `evaluate_write`: the ladder is climbed once, for a proposal of one record.
use an_kla_memory.Base.{
  String, ◌==◌, Bool, not, ◌||◌, List, [], ◌∷◌, if◌then◌else◌, Result, ok, ◌>>=◌,
}
use an_kla_memory.Base.Text.{Unicode, add, sorted}
use an_kla_memory.Json.{Json, Fields, cons, field, end, str, arr, obj, get, put, is_str}
use an_kla_memory.Canonical.{digest_json}
use an_kla_memory.Record.RecordText.{record_text}
use an_kla_memory.WritePolicy.Types.{Authority}
use an_kla_memory.WritePolicy.Authority.{validate_write_authority}
use an_kla_memory.WritePolicy.Configuration.{policy_fingerprint}
use an_kla_memory.WritePolicy.Evaluate.{Decision, skip, contains_self_asserted, evaluate_single}
use an_kla_memory.WriteBatch.Validate.{Batch, validate_batch_proposal}

abbrev pub first_item : Json → Json
first_item (arr (cons x xs)) = x
first_item _ = Json.null

abbrev pub part : Json → String → Json
part (obj fs) k = get fs k
part _ k = Json.null

-- `proposal["supersedes"][id]`
abbrev pub target_for : Json → Json → Json
target_for (obj targets) (str id) = get targets id
target_for _ _ = Json.null

-- `twin["supersedes"]`, where the operation is `supersede`
abbrev twin_target : Fields → Fields
twin_target fs =
    let first_id = part (first_item (get fs "records")) "id" in
    if is_str "supersede" (get fs "operation")
    then field "supersedes" (target_for (get fs "supersedes") first_id) end
    else end

-- `_twin_v1`, for a validated proposal.
unfoldable pub twin_of : Json → Json
twin_of (obj fs) = obj (
    field "schema" (str "an-kla/write-proposal-v1") (
      field "base_revision" (get fs "base_revision") (
        field "stream" (get fs "stream") (
          field "operation" (get fs "operation") (
            field "requested_representation" (get fs "requested_representation") (
              field "record" (first_item (get fs "records"))
                (field "lineage" (get fs "lineage") (twin_target fs))))))))
twin_of other = other

-- `_twin_authority`: the authority, with the digest of the twin.
unfoldable pub twin_authority : Json → String → Json
twin_authority (obj fs) twin_sha256 = obj (put "proposal_sha256" (str twin_sha256) fs)
twin_authority other twin_sha256 = other

module _ (u : Unicode) where
  -- The loop over the records of a batch that is in scope.
  unfoldable pub row_reasons : List (String × Fields) → List String → List String
  unfolding contains_self_asserted record_text
  row_reasons [] reasons = reasons
  row_reasons ((id, row) ∷ rows) reasons =
      let asserted =
        if contains_self_asserted u (obj row)
        then add "self_asserted_authority_ignored" reasons
        else reasons in
      row_reasons rows
        (if record_text u row == "" then add "record_without_indexable_text" asserted else asserted)

  -- The decision on the batch, from the one on its twin: the authority must name the batch.
  unfoldable pub batch_decision : Batch → Authority → Decision → String → String → String → Decision
  unfolding row_reasons
  batch_decision b a twin proposal_sha256 authority_sha256 fingerprint =
      if not (a.proposal_sha256 == proposal_sha256) || not (a.base_revision == b.base_revision)
      then record {
        proposal_sha256 = proposal_sha256;
        authority_sha256 = authority_sha256;
        fingerprint = fingerprint;
        verdict = skip;
        reasons = sorted (add "authority_scope_mismatch" twin.reasons);
      }
      else record {
        proposal_sha256 = proposal_sha256;
        authority_sha256 = authority_sha256;
        fingerprint = fingerprint;
        verdict = twin.verdict;
        reasons = sorted (row_reasons b.rows twin.reasons);
      }

-- `proposal.get("schema") == "an-kla/write-proposal-v2"`
abbrev pub is_batch : Json → Bool
is_batch proposal = is_str "an-kla/write-proposal-v2" (part proposal "schema")

module _ (sha256 : String → String) (u : Unicode) where
  unfoldable pub evaluate_batch : Json → Json → Result Decision
  unfolding validate_batch_proposal twin_of twin_authority evaluate_single batch_decision
  evaluate_batch proposal authority = do
    b ← validate_batch_proposal proposal
    a ← validate_write_authority authority
    let twin = twin_of proposal
    twin_sha256 ← digest_json sha256 twin
    decision ← evaluate_single sha256 u twin (twin_authority authority twin_sha256)
    proposal_sha256 ← digest_json sha256 proposal
    authority_sha256 ← digest_json sha256 authority
    fingerprint ← policy_fingerprint sha256
    ok (batch_decision u b a decision proposal_sha256 authority_sha256 fingerprint)

  -- `evaluate_write` goes by the schema.
  unfoldable pub evaluate_write : Json → Json → Result Decision
  unfolding evaluate_batch evaluate_single
  evaluate_write proposal authority =
      if is_batch proposal
      then evaluate_batch proposal authority
      else evaluate_single sha256 u proposal authority
