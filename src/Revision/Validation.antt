-- ===== src/Revision/Validation.antt =====
-- `validate_manifest` of an_kla/revision_validation.py. `error` is the exception class that the caller
-- hands in, with its code.
use an_kla_memory.Base.{
  ℕ, String, Bool, true, false, not, ◌&&◌, ◌||◌, Option, none, some, List, [], ◌∷◌,
}
use an_kla_memory.Base.{if◌then◌else◌, eqb, Error, Result, ok, err, raise_if, ◌>>=◌, ◌>>◌}
use an_kla_memory.Json.{Json, Fields, null, str, arr, keys, get, is_str}
use an_kla_memory.Canonical.Identifiers.{bare_digest}
use an_kla_memory.Revision.Walk.{revision_number}
use an_kla_memory.Transactions.Attempts.{is_canonical_uuid}
use an_kla_memory.Revision.Maps.{
  check_epoch, check_refutations, check_segments, check_supersedes_map, digest_check, has_texts,
  is_nil, is_obj, subset,
}

pub data Schema : Type 0 where
  v1 v2 v3 : Schema

abbrev pub schema_of : Json → Option Schema
schema_of v =
    if is_str "an-kla/revision-v1" v
    then some v1
    else if is_str "an-kla/revision-v2" v
    then some v2
    else if is_str "an-kla/revision-v3" v
    then some v3
    else none

abbrev pub is_v3 : Schema → Bool
is_v3 v3 = true
is_v3 _ = false

abbrev pub is_v1 : Schema → Bool
is_v1 v1 = true
is_v1 _ = false

abbrev required_v1 : List String
required_v1 =
    "schema" ∷ "revision" ∷ "parent" ∷ "facts_segments" ∷ "events_segments" ∷ "episodes_segments"
    ∷ "checkpoint" ∷ "transaction_id" ∷ "canonicalization" ∷ "integrity_claim" ∷ []

abbrev required_of : Schema → List String
required_of v1 = required_v1
required_of v2 = "store_identity" ∷ "features" ∷ "refutations_map" ∷ required_v1
required_of v3 =
    "store_identity" ∷ "features" ∷ "refutations_map" ∷ "supersedes_map" ∷ "compaction_epoch"
    ∷ required_v1

abbrev pub bad_shape : Schema → Fields → Bool
bad_shape schema m =
    not (subset (required_of schema) (keys m))
    || not (subset (keys m) ("store_identity" ∷ "supersedes_map" ∷ required_of schema))

abbrev pub is_null : Json → Bool
is_null null = true
is_null _ = false

-- `a != b` on truth values
abbrev differ : Bool → Bool → Bool
differ true b = not b
differ false b = b

-- `if value is not None: check`
abbrev unless_null : Json → Result (Unit {0}) → Result (Unit {0})
unless_null null check = ok tt
unless_null _ check = check

module _ (error : String → Error) where
  -- `checkpoint`
  unfoldable pub check_identifier : Json → Result (Unit {0})
  unfolding bare_digest
  check_identifier (str s) = digest_check (str s)
  check_identifier _ = err (error "manifest_identifier_missing")

  -- `parent`, which may be missing at the root.
  unfoldable pub check_parent_identifier : Schema → ℕ → Json → Result (Unit {0})
  unfolding check_identifier
  check_parent_identifier schema n parent =
      if is_null parent && (eqb n 0 || is_v3 schema) then ok tt else check_identifier parent

  -- Whether the parent may be missing, or must be.
  unfoldable pub check_parent : Schema → ℕ → Json → Json → Result (Unit {0})
  check_parent v3 n parent epoch =
      raise_if (eqb n 0 || is_null parent && not (is_obj epoch)) (error "manifest_parent_invalid")
  check_parent _ n parent epoch =
      raise_if (differ (eqb n 0) (is_null parent)) (error "manifest_parent_invalid")

  unfoldable pub check_transaction_id : Schema → ℕ → Fields → Result (Unit {0})
  unfolding is_canonical_uuid
  check_transaction_id schema n m =
      let e = error "manifest_transaction_id_invalid" in
      let value = get m "transaction_id" in
      if is_str "root" value
      then raise_if (not (eqb n 0) || not (is_null (get m "parent")) || not (is_v1 schema)) e
      else raise_if (not (is_canonical_uuid value)) e

  unfoldable pub check_refutations_map : Schema → Json → Result (Unit {0})
  unfolding check_refutations
  check_refutations_map schema (arr xs) =
      raise_if (not (is_v3 schema) && is_nil xs) (error "manifest_refutations_map_invalid")
      >> check_refutations error xs []
  check_refutations_map schema _ = err (error "manifest_refutations_map_invalid")

  -- `features`, then the refutations, for the schemas that have them.
  unfoldable pub check_features : Schema → Fields → Result (Unit {0})
  unfolding check_refutations_map
  check_features v1 m = ok tt
  check_features v2 m =
      raise_if (not (has_texts ("refutations/v1" ∷ []) (get m "features")))
        (error "manifest_features_invalid")
      >> check_refutations_map v2 (get m "refutations_map")
  check_features v3 m =
      raise_if (not (has_texts ("refutations/v1" ∷ "compaction/v1" ∷ []) (get m "features")))
        (error "manifest_features_invalid")
      >> check_refutations_map v3 (get m "refutations_map")

  -- What follows the identifiers: constants, transaction, segments, identity, maps, epoch.
  unfoldable pub check_content : Schema → ℕ → Fields → Result (Unit {0})
  unfolding check_transaction_id check_segments check_supersedes_map check_features check_epoch
  check_content schema n m = do
    raise_if
        (not (is_str "canonical-json/v1" (get m "canonicalization"))
          || not (is_str "content_identity_not_truth_or_authorship" (get m "integrity_claim")))
        (error "manifest_constants_invalid")
    check_transaction_id schema n m
    check_segments error (get m "facts_segments")
    check_segments error (get m "events_segments")
    check_segments error (get m "episodes_segments")
    unless_null (get m "store_identity") (digest_check (get m "store_identity"))
    check_supersedes_map error (get m "supersedes_map")
    check_features schema m
    if is_v3 schema then check_epoch error (get m "compaction_epoch") else ok tt

  unfoldable pub check_number : Schema → Fields → Result ℕ
  check_number schema m =
      raise_if (bad_shape schema m) (error "manifest_shape_invalid")
      >> elim (revision_number (get m "revision")) [
        | none ↦ err (error "manifest_revision_invalid")
        | some n ↦ ok n
      ]

  unfoldable pub check_schema : Fields → Result Schema
  check_schema m = elim (schema_of (get m "schema")) [
    | none ↦ err (error "manifest_schema_invalid")
    | some schema ↦ ok schema
  ]

  unfoldable pub validate_manifest : Fields → Result (Unit {0})
  unfolding check_schema check_number check_identifier check_parent_identifier check_parent
      check_content
  validate_manifest m = do
    schema ← check_schema m
    n ← check_number schema m
    check_identifier (get m "checkpoint")
    check_parent_identifier schema n (get m "parent")
    check_parent schema n (get m "parent") (get m "compaction_epoch")
    check_content schema n m
