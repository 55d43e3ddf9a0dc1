-- ===== src/Revision/Ascent.antt =====
-- `validate_revision_chain` of an_kla/revision_validation.py.
use an_kla_memory.Base.{
  ℕ, zero, suc, String, ◌==◌, Bool, true, false, not, ◌&&◌, ◌||◌, Option, none, some,
}
use an_kla_memory.Base.{
  List, [], ◌∷◌, if◌then◌else◌, member, eqb, leb, Error, Result, ok, err, raise_if, ◌>>=◌, ◌>>◌,
}
use an_kla_memory.Base.{type_error}
use an_kla_memory.Json.{Json, Fields, Items, nil, cons, null, str, arr, obj, get, lookup, is_str}
use an_kla_memory.Json.Equal.{equal}
use an_kla_memory.Canonical.{digest_json}
use an_kla_memory.WriteBatch.Validate.{count}
use an_kla_memory.Revision.Walk.{revision_number}
use an_kla_memory.Revision.Validation.{validate_manifest}
use an_kla_memory.Revision.Watermark.{Watermark, is_null, binding_matches}

-- What the loop asks of the store beside the revisions: refutation objects, the identity that a
-- manifest links to, the compaction that a root stands on, and the evidence of a transaction.
pub record ChainStore : Type 0 where
  pub read : String → Result Json
  pub read_refutation : Json → Result Fields
  pub verify_link : Fields → Result (Unit {0})
  pub verify_root : Fields → Result (Unit {0})
  pub stage_attempt : Json → String → Option Json
  pub has_files : Json → String → Json → Bool

-- `list(manifest.get(k, []))`, of what is a list or null after the validation; `list(None)` raises.
abbrev list_at : Fields → String → Result Items
list_at manifest k = elim (lookup k manifest) [
  | none ↦ ok nil
  | some v ↦ elim v [ arr xs ↦ ok xs | _ ↦ err type_error ]
]

abbrev drop_items : ℕ → Items → Items
drop_items zero xs = xs
drop_items (suc n) nil = nil
drop_items (suc n) (cons x xs) = drop_items n xs

abbrev pub fields_of : Json → Fields
fields_of (obj fs) = fs
fields_of _ = Fields.end

abbrev has_governed_schema : Fields → Bool
has_governed_schema manifest =
    is_str "an-kla/revision-v2" (get manifest "schema")
    || is_str "an-kla/revision-v3" (get manifest "schema")

-- `attempt.get("operation")` of an attempt that is a dict
abbrev is_refute : Json → Bool
is_refute (obj attempt) = is_str "refute" (get attempt "operation")
is_refute _ = false

abbrev same_truth : Bool → Bool → Bool
same_truth true b = b
same_truth false b = not b

abbrev is_zero : Option ℕ → Bool
is_zero (some n) = eqb n 0
is_zero none = false

-- `child.get("revision") == int(parent["revision"]) + 1`
abbrev pub is_next : Option ℕ → Option ℕ → Bool
is_next (some n) (some m) = eqb m (suc n)
is_next _ _ = false

module _ (same_number : Json → Json → Bool) (sha256 : String → String)
    (error : String → Error) where
  abbrev invalid : Error
  invalid = error "revision_transition_invalid"

  -- `current[: len(prior)] == prior`
  unfoldable pub is_prefix : Items → Items → Bool
  unfolding equal
  is_prefix nil current = true
  is_prefix (cons x xs) nil = false
  is_prefix (cons x xs) (cons y ys) = equal same_number y x && is_prefix xs ys

  -- The refutations that the child adds to those of its parent.
  unfoldable pub new_refutations : Fields → Fields → Result Items
  unfolding equal is_prefix
  new_refutations parent child =
      let inherited : Result Items =
        raise_if (not (equal same_number (get child "schema") (get parent "schema")))
          (error "revision_schema_downgrade")
        >> raise_if (not (equal same_number (get child "features") (get parent "features"))) invalid
        >> raise_if
            (is_str "an-kla/revision-v3" (get parent "schema")
              && not (
                  equal same_number (get child "compaction_epoch") (get parent "compaction_epoch")))
            invalid
        >> (list_at parent "refutations_map" >>= λ prior.
            list_at child "refutations_map" >>= λ current.
            let added = drop_items (count prior) current in
            raise_if (not (is_prefix prior current) || not (leb (count added) 1)) invalid
            >> ok added) in
      let first : Result Items = list_at child "refutations_map" >>= λ current.
      raise_if (not (eqb (count current) 1)) invalid >> ok current in
      if has_governed_schema parent
      then inherited
      else if is_str "an-kla/revision-v2" (get child "schema")
      then first
      else ok nil

  -- Every new entry names a refutation of the parent's record.
  unfoldable pub check_refutations : ChainStore → String → Items → Result (Unit {0})
  unfolding equal
  check_refutations store parent_id nil = ok tt
  check_refutations store parent_id (cons raw raws) =
      let entry = fields_of raw in
      store.read_refutation (get entry "refutation_id") >>= λ refutation.
      raise_if
        (not (is_str parent_id (get refutation "target_revision"))
          || not (equal same_number (get refutation "stream") (get entry "stream"))
          || not (
              equal same_number (get refutation "target_record_sha256")
                (get entry "target_record_sha256")))
        invalid
      >> check_refutations store parent_id raws

  -- The stage of the child's transaction, and its files.
  unfoldable pub check_evidence : ChainStore → String → Fields → Items → Result (Unit {0})
  check_evidence store child_id child added =
      let txid = get child "transaction_id" in
      if has_governed_schema child
      then elim (store.stage_attempt txid child_id) [
        | none ↦ err invalid
        | some attempt ↦
            raise_if (not (same_truth (is_refute attempt) (eqb (count added) 1))) invalid
            >> raise_if (not (store.has_files txid child_id attempt)) invalid
      ]
      else ok tt

  -- The parent that a child names: read, validated on its own, and numbered one less.
  unfoldable pub read_parent : ChainStore → Fields → String → Result Fields
  unfolding validate_manifest
  read_parent store child parent_id = do
    value ← store.read parent_id
    sha ← digest_json sha256 value
    raise_if (not (sha == parent_id)) (error "revision_hash_mismatch")
    validate_manifest error (fields_of value)
    store.verify_link (fields_of value)
    raise_if
        (not (
          is_next (revision_number (get (fields_of value) "revision"))
            (revision_number (get child "revision"))))
        invalid
    ok (fields_of value)

  -- What the child keeps of its parent, and what it may add.
  unfoldable pub check_inherited :
      ChainStore → String → Fields → String → Fields → Result (Unit {0})
  unfolding equal is_prefix new_refutations check_refutations check_evidence
  check_inherited store child_id child parent_id parent = do
    raise_if
        (not (is_null (get parent "store_identity"))
          && not (equal same_number (get child "store_identity") (get parent "store_identity")))
        invalid
    prior ← list_at parent "supersedes_map"
    current ← list_at child "supersedes_map"
    raise_if (not (is_prefix prior current)) invalid
    added ← new_refutations parent child
    check_refutations store parent_id added
    check_evidence store child_id child added

  unfoldable pub check_parent : ChainStore → String → Fields → String → Result Fields
  unfolding read_parent check_inherited
  check_parent store child_id child parent_id = read_parent store child parent_id >>= λ parent.
      check_inherited store child_id child parent_id parent >> ok parent

  unfoldable pub check_root : ChainStore → Fields → Result (Unit {0})
  check_root store child =
      if is_str "an-kla/revision-v3" (get child "schema")
      then store.verify_root child
      else raise_if
          (not (is_zero (revision_number (get child "revision")))
            || not (is_str "an-kla/revision-v1" (get child "schema")))
          invalid

  -- The rounds of the loop. A parent that is no text does not pass `validate_manifest`.
  unfoldable pub ascend :
      ChainStore → Option Watermark → ℕ → List String → String → Fields → Result (Unit {0})
  unfolding binding_matches check_parent check_root
  ascend store stop zero seen child_id child = err invalid
  ascend store stop (suc fuel) seen child_id child =
      raise_if (member child_id seen) invalid
      >> (elim (binding_matches same_number stop child_id child) [
        | true ↦ ok tt
        | false ↦ elim (get child "parent") [
          | null ↦ check_root store child
          | str parent_id ↦ check_parent store child_id child parent_id >>= λ parent.
              ascend store stop fuel (child_id ∷ seen) parent_id parent
          | _ ↦ err invalid
        ]
      ])

  -- `int(manifest["revision"]) + 2`
  abbrev pub rounds : Fields → ℕ
  rounds manifest = elim (revision_number (get manifest "revision")) [
    | some n ↦ suc (suc n)
    | none ↦ 0
  ]

  unfoldable pub validate_revision_chain :
      ChainStore → Option Watermark → String → Fields → Result (Unit {0})
  unfolding ascend
  validate_revision_chain store stop revision_id manifest =
      ascend store stop (rounds manifest) [] revision_id manifest
