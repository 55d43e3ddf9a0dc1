-- ===== src/WriteBatch/Validate.antt =====
-- `validate_batch_proposal` of an_kla/write_batch.py.
use an_kla_memory.Base.{
  ℕ, suc, String, ◌<>◌, ◌==◌, Bool, true, false, not, ◌&&◌, ◌||◌, Option, none, some,
}
use an_kla_memory.Base.{
  List, [], ◌∷◌, all, any, member, distinct, ltb, if◌then◌else◌, Error, Result, ok, err, raise_if,
}
use an_kla_memory.Base.{◌>>=◌, ◌>>◌}
use an_kla_memory.Json.{
  Json, Fields, Items, nil, cons, field, end, bool, str, arr, obj, keys, has, item, lookup, is_str,
}
use an_kla_memory.Canonical.{decimal}
use an_kla_memory.WritePolicy.Types.{
  Stream, Operation, Representation, stream_of, representation_of, add, supersede,
}
use an_kla_memory.WritePolicy.Shape.{require_exact_keys, is_digest_value, validate_references}
use an_kla_memory.WritePolicy.Shape.{validate_record_fields, validate_json_value}
use an_kla_memory.WritePolicy.Proposal.{proposal_code, fields_of, fail, Request, base_from}

-- A validated write-proposal-v2. `rows` are the records with their ids, `targets` the dict
-- `supersedes`, empty where there is none.
pub record Batch : Type 0 where
  pub base_revision : String
  pub stream : Stream
  pub operation : Operation
  pub requested : Representation
  pub rows : List (String × Fields)
  pub targets : Fields
  pub derived : Bool

-- `_POLICY_CONFIGURATION["max_batch_records"]`
abbrev pub max_batch_records : ℕ
max_batch_records = 1000

abbrev pub batch_operation_of : String → Option Operation
batch_operation_of s =
    if s == "add" then some add else if s == "supersede" then some supersede else none

-- `value not in ("...", ...)`: a tuple compares, and a value without a hash is merely not in it.
abbrev pub one_of_tuple {ℓ} : {A : Type ℓ} → (String → Option A) → Json → Error → Result A
one_of_tuple parse (str s) e = elim (parse s) [ none ↦ err e | some a ↦ ok a ]
one_of_tuple parse _ e = err e

abbrev pub row_ids : List (String × Fields) → List String
row_ids [] = []
row_ids ((id, row) ∷ rows) = id ∷ row_ids rows

-- `set(xs) == set(ys)`
abbrev pub same_set : List String → List String → Bool
same_set xs ys = all (λ x. member x ys) xs && all (λ y. member y xs) ys

abbrev pub is_empty : Fields → Bool
is_empty end = true
is_empty (field k v fs) = false

abbrev pub count : Items → ℕ
count nil = 0
count (cons x xs) = suc (count xs)

-- The loop over the records, `index` being the position.
unfoldable pub validate_rows : ℕ → Items → Result (List (String × Fields))
unfolding validate_record_fields
validate_rows index nil = ok []
validate_rows index (cons row rows) = do
  id ← validate_record_fields row proposal_code ("records[" <> (decimal index <> "]"))
  rest ← validate_rows (suc index) rows
  ok ((id, fields_of row) ∷ rest)

-- The values of `supersedes`, if all are texts with something in them.
abbrev pub target_texts : Fields → Option (List String)
target_texts end = some []
target_texts (field k (str t) fs) =
    let rest = target_texts fs in
    if t == "" then none else elim rest [ none ↦ none | some ts ↦ some (t ∷ ts) ]
target_texts (field k _ fs) = none

-- `any(t == k for k, t in supersedes.items())`
abbrev pub has_self_target : Fields → Bool
has_self_target end = false
has_self_target (field k v fs) = is_str k v || has_self_target fs

-- The checks on `supersedes` of a batch that supersedes, after the first.
unfoldable pub check_targets : Fields → List String → Result Fields
check_targets targets ids = elim (target_texts targets) [
  | none ↦ err (fail "supersedes:target_invalid")
  | some ts ↦
      raise_if (has_self_target targets) (fail "supersedes:self_reference_forbidden")
      >> raise_if (any (λ t. member t ids) ts) (fail "supersedes:intra_batch_forbidden")
      >> raise_if (not (distinct ts)) (fail "supersedes:duplicate_target")
      >> ok targets
]

unfoldable pub targets_of : Operation → Fields → List String → Result Fields
unfolding check_targets
targets_of supersede fs ids = elim (lookup "supersedes" fs) [
  | some (obj targets) ↦
      raise_if (is_empty targets || not (same_set (keys targets) ids))
        (fail "supersedes:missing_for_supersede")
      >> check_targets targets ids
  | _ ↦ err (fail "supersedes:missing_for_supersede")
]
targets_of _ fs ids =
    raise_if (has "supersedes" fs) (fail "supersedes:present_without_supersede") >> ok end

-- `records`: a list with something in it, within the limit, each valid, no id twice.
unfoldable pub validate_records : Json → Result (List (String × Fields))
unfolding validate_rows
validate_records (arr (cons row rows)) = do
  raise_if (ltb max_batch_records (count (cons row rows))) (fail "records:max_batch_records")
  pairs ← validate_rows 0 (cons row rows)
  raise_if (not (distinct (row_ids pairs))) (fail "records:duplicate_id")
  ok pairs
validate_records _ = err (fail "records:not_list")

-- `lineage`: returns `derived_from_retrieval`.
unfoldable pub validate_batch_lineage : Json → Result Bool
unfolding validate_references
validate_batch_lineage (obj lineage) = do
  raise_if (not (same_set (keys lineage) ("derived_from_retrieval" ∷ "refs" ∷ []))) (fail "lineage")
  derived ← item lineage "derived_from_retrieval"
  flag ← elim derived [ bool b ↦ ok b | _ ↦ err (fail "lineage.derived_from_retrieval") ]
  refs ← item lineage "refs"
  elim refs [
    | arr xs ↦ validate_references xs proposal_code "lineage.refs[]:invalid"
    | _ ↦ err (fail "lineage.refs")
  ]
  ok flag
validate_batch_lineage _ = err (fail "lineage")

-- The schema, stream, operation, representation and base revision, in the order of the source.
unfoldable pub read_batch_request : Fields → Result Request
unfolding is_digest_value stream_of representation_of
read_batch_request fs = do
  schema ← item fs "schema"
  raise_if (not (is_str "an-kla/write-proposal-v2" schema)) (fail "proposal:schema")
  stream ← one_of_tuple stream_of (← item fs "stream") (fail "stream")
  operation ← one_of_tuple batch_operation_of (← item fs "operation") (fail "operation")
  requested ←
      one_of_tuple representation_of (← item fs "requested_representation")
        (fail "requested_representation")
  base_revision ← base_from (← item fs "base_revision")
  ok (base_revision, stream, operation, requested)

-- The records, the targets and the lineage, for what is asked.
unfoldable pub read_batch_content : Fields → Request → Result Batch
unfolding validate_records targets_of validate_batch_lineage validate_json_value
read_batch_content fs (base_revision, stream, operation, requested) = do
  rows ← validate_records (← item fs "records")
  targets ← targets_of operation fs (row_ids rows)
  derived ← validate_batch_lineage (← item fs "lineage")
  validate_json_value (obj fs) proposal_code "proposal:invalid_json"
  ok (record {
    base_revision = base_revision;
    stream = stream;
    operation = operation;
    requested = requested;
    rows = rows;
    targets = targets;
    derived = derived;
  })

unfoldable pub validate_batch_proposal : Json → Result Batch
unfolding require_exact_keys read_batch_request read_batch_content
validate_batch_proposal (obj fs) = do
  require_exact_keys fs
      ("schema" ∷ "base_revision" ∷ "stream" ∷ "operation" ∷ "requested_representation" ∷ "records"
        ∷ "lineage" ∷ [])
      ("supersedes" ∷ []) proposal_code "proposal:keys"
  asked ← read_batch_request fs
  read_batch_content fs asked
validate_batch_proposal _ = err (fail "proposal:not_object")
