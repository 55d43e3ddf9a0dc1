-- ===== src/WritePolicy/Proposal.antt =====
-- `validate_write_proposal` of an_kla/write_policy.py, for write-proposal-v1.
use an_kla_memory.Base.{String, ◌==◌, Bool, not, Option, none, some, [], ◌∷◌}
use an_kla_memory.Base.{if◌then◌else◌, Error, Result, ok, err, raise_if, ◌>>=◌, ◌>>◌}
use an_kla_memory.Json.{Json, Fields, bool, str, arr, obj, has, item, lookup, is_str}
use an_kla_memory.WritePolicy.Types.{Proposal, Operation, Stream, Representation, stream_of}
use an_kla_memory.WritePolicy.Types.{operation_of, representation_of, supersede}
use an_kla_memory.WritePolicy.Shape.{policy_error, require_exact_keys, is_digest_value, one_of}
use an_kla_memory.WritePolicy.Shape.{
  validate_references, validate_record_fields, validate_json_value,
}

abbrev pub proposal_code : String
proposal_code = "invalid_write_proposal"

abbrev pub fail : String → Error
fail detail = policy_error proposal_code detail

-- The co-occurrence of `operation == "supersede"` and `supersedes`: returns the target.
abbrev pub supersedes_of : Operation → Fields → String → Result (Option String)
supersedes_of supersede fs row_id = elim (lookup "supersedes" fs) [
  | some (str target) ↦
      if target == ""
      then err (fail "supersedes:missing_for_supersede")
      else if target == row_id
      then err (fail "supersedes:self_reference_forbidden")
      else ok (some target)
  | _ ↦ err (fail "supersedes:missing_for_supersede")
]
supersedes_of _ fs row_id =
    raise_if (has "supersedes" fs) (fail "supersedes:present_without_supersede") >> ok none

-- `lineage`: returns `derived_from_retrieval`.
unfoldable pub validate_lineage : Json → Result Bool
unfolding require_exact_keys validate_references
validate_lineage (obj lineage) = do
  require_exact_keys lineage ("derived_from_retrieval" ∷ "refs" ∷ []) [] proposal_code
      "lineage:keys"
  derived ← item lineage "derived_from_retrieval"
  flag ← elim derived [ bool b ↦ ok b | _ ↦ err (fail "lineage.derived_from_retrieval:not_bool") ]
  refs ← item lineage "refs"
  elim refs [
    | arr xs ↦ validate_references xs proposal_code "lineage.refs[]:invalid"
    | _ ↦ err (fail "lineage.refs:not_list")
  ]
  ok flag
validate_lineage _ = err (fail "lineage:not_object")

-- The record of a validated proposal is an object.
abbrev pub fields_of : Json → Fields
fields_of (obj fs) = fs
fields_of _ = Fields.end

-- What a proposal asks: its base revision, stream, operation and representation.
abbrev pub Request : Type 0
Request = String × Stream × Operation × Representation

abbrev pub base_from : Json → Result String
base_from (str s) = if is_digest_value (str s) then ok s else err (fail "base_revision:not_digest")
base_from _ = err (fail "base_revision:not_digest")

unfoldable pub read_request : Fields → Result Request
unfolding is_digest_value stream_of operation_of representation_of
read_request fs = do
  schema ← item fs "schema"
  raise_if (not (is_str "an-kla/write-proposal-v1" schema)) (fail "proposal:schema")
  base_revision ← base_from (← item fs "base_revision")
  stream ← one_of stream_of (← item fs "stream") (fail "stream")
  operation ← one_of operation_of (← item fs "operation") (fail "operation")
  requested ←
      one_of representation_of (← item fs "requested_representation")
        (fail "requested_representation")
  ok (base_revision, stream, operation, requested)

-- The record, its target and the lineage, for what is asked.
unfoldable pub read_content : Fields → Request → Result Proposal
unfolding validate_record_fields validate_lineage validate_json_value
read_content fs (base_revision, stream, operation, requested) = do
  row ← item fs "record"
  row_id ← validate_record_fields row proposal_code "record"
  supersedes ← supersedes_of operation fs row_id
  derived ← validate_lineage (← item fs "lineage")
  validate_json_value (obj fs) proposal_code "proposal:invalid_json"
  ok (record {
    base_revision = base_revision;
    stream = stream;
    operation = operation;
    requested = requested;
    row = fields_of row;
    row_id = row_id;
    supersedes = supersedes;
    derived = derived;
  })

unfoldable pub validate_single_proposal : Json → Result Proposal
unfolding require_exact_keys read_request read_content
validate_single_proposal (obj fs) = do
  require_exact_keys fs
      ("schema" ∷ "base_revision" ∷ "stream" ∷ "operation" ∷ "requested_representation" ∷ "record"
        ∷ "lineage" ∷ [])
      ("supersedes" ∷ []) proposal_code "proposal:keys"
  asked ← read_request fs
  read_content fs asked
validate_single_proposal _ = err (fail "proposal:not_object")
