-- ===== src/WriteBatch/Readings.antt =====
-- Where the operation and the representation of a validated proposal come from.
use an_kla_memory.Base.{String, ◌≡◌, ◌∙◌, sym, ap, not, List, [], ◌∷◌}
use an_kla_memory.Base.{ok, >>=-eq-ok, >>-eq-ok, raise_if-eq-ok}
use an_kla_memory.Json.{Json, Fields, obj, item, is_str}
use an_kla_memory.WritePolicy.Types.{Proposal, stream_of, operation_of, representation_of}
use an_kla_memory.WritePolicy.Shape.{one_of, validate_record_fields, validate_json_value}
use an_kla_memory.WritePolicy.Proposal.{validate_lineage, proposal_code, fail, supersedes_of}
use an_kla_memory.WritePolicy.Proposal.{Request, base_from, read_request, read_content}
use an_kla_memory.WriteBatch.Validate.{Batch, one_of_tuple, batch_operation_of, validate_records}
use an_kla_memory.WriteBatch.Validate.{
  targets_of, validate_batch_lineage, row_ids, read_batch_request, read_batch_content,
}
use an_kla_memory.Base.{result_map, ok_inj}

abbrev pub keys_of : String → List String
keys_of rows =
    "schema" ∷ "base_revision" ∷ "stream" ∷ "operation" ∷ "requested_representation" ∷ rows
    ∷ "lineage" ∷ []

-- Where the operation and the representation of a request come from.
pub record SingleRead (fs : Fields) (q : Request) : Type 0 where
  pub operation_value : Json
  pub requested_value : Json
  pub has_operation : item fs "operation" ≡ ok operation_value
  pub has_requested : item fs "requested_representation" ≡ ok requested_value
  pub reads_operation : one_of operation_of operation_value (fail "operation") ≡ ok q.2
  pub reads_requested :
      one_of representation_of requested_value (fail "requested_representation") ≡ ok q.3

pub record BatchRead (fs : Fields) (q : Request) : Type 0 where
  pub operation_value : Json
  pub requested_value : Json
  pub has_operation : item fs "operation" ≡ ok operation_value
  pub has_requested : item fs "requested_representation" ≡ ok requested_value
  pub reads_operation : one_of_tuple batch_operation_of operation_value (fail "operation") ≡ ok q.2
  pub reads_requested :
      one_of_tuple representation_of requested_value (fail "requested_representation") ≡ ok q.3

pub read_request-SingleRead : (fs : Fields) (q : Request) → read_request fs ≡ ok q → SingleRead fs q
unfolding read_request
read_request-SingleRead fs q h =
    let (schema, h₂, _) = >>=-eq-ok (item fs "schema") _ h in
    let (_, h₃) = raise_if-eq-ok (not (is_str "an-kla/write-proposal-v1" schema)) _ _ h₂ in
    let (base, h₄, _) = >>=-eq-ok (item fs "base_revision") _ h₃ in
    let (_, h₅, _) = >>=-eq-ok (base_from base) _ h₄ in
    let (stream_value, h₆, _) = >>=-eq-ok (item fs "stream") _ h₅ in
    let (_, h₇, _) = >>=-eq-ok (one_of stream_of stream_value (fail "stream")) _ h₆ in
    let (operation_value, h₈, has_operation) = >>=-eq-ok (item fs "operation") _ h₇ in
    let (operation, h₉, reads_operation) =
      >>=-eq-ok (one_of operation_of operation_value (fail "operation")) _ h₈ in
    let (requested_value, h₁₀, has_requested) =
      >>=-eq-ok (item fs "requested_representation") _ h₉ in
    let (requested, h₁₁, reads_requested) =
      >>=-eq-ok (one_of representation_of requested_value (fail "requested_representation")) _
        h₁₀ in
    record {
      operation_value = operation_value;
      requested_value = requested_value;
      has_operation = has_operation;
      has_requested = has_requested;
      reads_operation = reads_operation ∙ ap (λ r. result_map (λ (x : Request). x.2) r) h₁₁;
      reads_requested = reads_requested ∙ ap (λ r. result_map (λ (x : Request). x.3) r) h₁₁;
    }

pub read_batch_request-BatchRead :
    (fs : Fields) (q : Request) → read_batch_request fs ≡ ok q → BatchRead fs q
unfolding read_batch_request
read_batch_request-BatchRead fs q h =
    let (schema, h₂, _) = >>=-eq-ok (item fs "schema") _ h in
    let (_, h₃) = raise_if-eq-ok (not (is_str "an-kla/write-proposal-v2" schema)) _ _ h₂ in
    let (stream_value, h₄, _) = >>=-eq-ok (item fs "stream") _ h₃ in
    let (_, h₅, _) = >>=-eq-ok (one_of_tuple stream_of stream_value (fail "stream")) _ h₄ in
    let (operation_value, h₆, has_operation) = >>=-eq-ok (item fs "operation") _ h₅ in
    let (operation, h₇, reads_operation) =
      >>=-eq-ok (one_of_tuple batch_operation_of operation_value (fail "operation")) _ h₆ in
    let (requested_value, h₈, has_requested) =
      >>=-eq-ok (item fs "requested_representation") _ h₇ in
    let (requested, h₉, reads_requested) =
      >>=-eq-ok (one_of_tuple representation_of requested_value (fail "requested_representation")) _
        h₈ in
    let (base, h₁₀, _) = >>=-eq-ok (item fs "base_revision") _ h₉ in
    let (_, h₁₁, _) = >>=-eq-ok (base_from base) _ h₁₀ in
    record {
      operation_value = operation_value;
      requested_value = requested_value;
      has_operation = has_operation;
      has_requested = has_requested;
      reads_operation = reads_operation ∙ ap (λ r. result_map (λ (x : Request). x.2) r) h₁₁;
      reads_requested = reads_requested ∙ ap (λ r. result_map (λ (x : Request). x.3) r) h₁₁;
    }

pub read_content-asked :
    (fs : Fields) (q : Request) (p : Proposal)
    → read_content fs q ≡ ok p
    → (p.operation ≡ q.2) × (p.requested ≡ q.3)
unfolding read_content
read_content-asked fs (base, stream, operation, requested) p h =
    let (row, h₁, _) = >>=-eq-ok (item fs "record") _ h in
    let (row_id, h₂, _) = >>=-eq-ok (validate_record_fields row proposal_code "record") _ h₁ in
    let (_, h₃, _) = >>=-eq-ok (supersedes_of operation fs row_id) _ h₂ in
    let (lineage, h₄, _) = >>=-eq-ok (item fs "lineage") _ h₃ in
    let (_, h₅, _) = >>=-eq-ok (validate_lineage lineage) _ h₄ in
    let (_, h₆) =
      >>-eq-ok (validate_json_value (obj fs) proposal_code "proposal:invalid_json") _ h₅ in
    (
      ok_inj (ap (λ r. result_map (λ (x : Proposal). x.operation) r) (sym h₆)),
      ok_inj (ap (λ r. result_map (λ (x : Proposal). x.requested) r) (sym h₆)),
    )

pub read_batch_content-asked :
    (fs : Fields) (q : Request) (b : Batch)
    → read_batch_content fs q ≡ ok b
    → (b.operation ≡ q.2) × (b.requested ≡ q.3)
unfolding read_batch_content
read_batch_content-asked fs (base, stream, operation, requested) b h =
    let (records, h₁, _) = >>=-eq-ok (item fs "records") _ h in
    let (rows, h₂, _) = >>=-eq-ok (validate_records records) _ h₁ in
    let (_, h₃, _) = >>=-eq-ok (targets_of operation fs (row_ids rows)) _ h₂ in
    let (lineage, h₄, _) = >>=-eq-ok (item fs "lineage") _ h₃ in
    let (_, h₅, _) = >>=-eq-ok (validate_batch_lineage lineage) _ h₄ in
    let (_, h₆) =
      >>-eq-ok (validate_json_value (obj fs) proposal_code "proposal:invalid_json") _ h₅ in
    (
      ok_inj (ap (λ r. result_map (λ (x : Batch). x.operation) r) (sym h₆)),
      ok_inj (ap (λ r. result_map (λ (x : Batch). x.requested) r) (sym h₆)),
    )
