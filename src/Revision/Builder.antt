-- ===== src/Revision/Builder.antt =====
-- an_kla/revision_builder.py: the manifest of a child revision.
use an_kla_memory.Base.{ℕ, suc, ◌≡◌, refl, ◌==◌, String, Bool, true, false, ◌||◌}
use an_kla_memory.Base.{
  Option, none, some, List, [], ◌∷◌, if◌then◌else◌, Result, ok, err, transaction,
}
use an_kla_memory.Base.{eqb, type_error, raise_if, ◌>>=◌, ◌>>◌, >>=-eq-ok, arith}
use an_kla_memory.Base.Int.{pos}
use an_kla_memory.Json.{
  Json, Fields, Items, nil, cons, field, end, str, num, arr, obj, get, item, is_str, texts,
}
use an_kla_memory.Canonical.Identifiers.{bare_digest}
use an_kla_memory.Revision.Walk.{check_manifest, visit_revision}

abbrev append_fields : Fields → Fields → Fields
append_fields end gs = gs
append_fields (field k v fs) gs = field k v (append_fields fs gs)

abbrev is_empty : Items → Bool
is_empty nil = true
is_empty (cons x xs) = false

-- The segments of the three streams, in the order of `STREAMS`.
pub record SegmentIds : Type 0 where
  pub facts : List String
  pub events : List String
  pub episodes : List String

pub data Generation : Type 0 where
  v1 v2 v3 : Generation

-- `use_v3` and `use_v2`
unfoldable pub generation_of : Fields → String → Generation
generation_of base operation =
    if is_str "an-kla/revision-v3" (get base "schema")
    then v3
    else if is_str "an-kla/revision-v2" (get base "schema") || operation == "refute"
    then v2
    else v1

abbrev pub schema_of : Generation → String
schema_of v1 = "an-kla/revision-v1"
schema_of v2 = "an-kla/revision-v2"
schema_of v3 = "an-kla/revision-v3"

abbrev identity_field : Option String → Result Fields
identity_field none = ok end
identity_field (some identity) =
    bare_digest identity >>= λ bare. ok (field "store_identity" (str identity) end)

abbrev supersedes_field : Generation → Items → Fields
supersedes_field v3 entries = field "supersedes_map" (arr entries) end
supersedes_field g nil = end
supersedes_field g (cons x xs) = field "supersedes_map" (arr (cons x xs)) end

abbrev is_unset : Option String → Bool
is_unset none = true
is_unset (some s) = false

-- From the second generation on a child names its store; in the second it has a refutation.
abbrev feature_fields : Generation → Option String → Items → Result Fields
feature_fields v1 identity entries = ok end
feature_fields v2 identity entries =
    raise_if (is_unset identity || is_empty entries) (transaction "revision_transition_invalid")
    >> ok (
        field "features" (arr (texts ("refutations/v1" ∷ [])))
          (field "refutations_map" (arr entries) end))
feature_fields v3 identity entries =
    raise_if (is_unset identity) (transaction "revision_transition_invalid")
    >> ok (
        field "features" (arr (texts ("refutations/v1" ∷ "compaction/v1" ∷ [])))
          (field "refutations_map" (arr entries) end))

-- `dict(base["compaction_epoch"])`, which a validated base of the third generation has as a dict.
abbrev epoch_field : Generation → Fields → Result Fields
epoch_field v3 base = item base "compaction_epoch" >>= λ epoch. elim epoch [
  | obj fs ↦ ok (field "compaction_epoch" (obj fs) end)
  | _ ↦ err type_error
]
epoch_field g base = ok end

-- What every manifest has; `others` are the fields that only some have.
abbrev core_manifest : Generation → ℕ → String → SegmentIds → String → String → Fields → Fields
core_manifest g revision parent segments checkpoint transaction_id others =
    field "schema" (str (schema_of g)) (
      field "revision" (num (pos revision)) (
        field "parent" (str parent) (
          field "facts_segments" (arr (texts segments.facts)) (
            field "events_segments" (arr (texts segments.events)) (
              field "episodes_segments" (arr (texts segments.episodes)) (
                field "checkpoint" (str checkpoint) (
                  field "transaction_id" (str transaction_id) (
                    field "canonicalization" (str "canonical-json/v1") (
                      field "integrity_claim" (str "content_identity_not_truth_or_authorship")
                        others)))))))))

unfoldable pub build_child_manifest :
    Fields
    → ℕ
    → String
    → SegmentIds
    → String
    → String
    → String
    → Option String
    → Items
    → Items
    → Result Fields
unfolding generation_of bare_digest
build_child_manifest base revision parent segments checkpoint transaction_id operation identity
      supersedes_map refutations_map =
    do
      let g = generation_of base operation
      named ← identity_field identity
      featured ← feature_fields g identity refutations_map
      dated ← epoch_field g base
      ok (
          core_manifest g revision parent segments checkpoint transaction_id (
            append_fields named
              (append_fields (supersedes_field g supersedes_map) (append_fields featured dated))))

suc-not_zero : (n : ℕ) → eqb (suc n) 0 ≡ false
suc-not_zero n = ground arith

-- The walk accepts a manifest of any generation, over a parent.
check_manifest-core :
    (g : Generation) (n : ℕ) (parent : String) {bare : String} (segments : SegmentIds)
    (checkpoint transaction_id : String) (others : Fields)
    → bare_digest parent ≡ ok bare
    → let m = core_manifest g (suc n) parent segments checkpoint transaction_id others in
      check_manifest none (obj m) ≡ ok (m, suc n, some parent)
unfolding check_manifest
check_manifest-core v1 n parent segments checkpoint transaction_id others h =
    rw (suc-not_zero n, h) refl
check_manifest-core v2 n parent segments checkpoint transaction_id others h =
    rw (suc-not_zero n, h) refl
check_manifest-core v3 n parent segments checkpoint transaction_id others h =
    rw (suc-not_zero n, h) refl

module _ (base : Fields) (parent : String) (segments : SegmentIds)
    (checkpoint transaction_id operation : String) (identity : Option String)
    (supersedes_map refutations_map : Items) where
  built-core :
      (revision : ℕ) {manifest : Fields}
      → build_child_manifest base revision parent segments checkpoint transaction_id operation
          identity supersedes_map refutations_map
        ≡ ok manifest
      → (others : Fields) × (manifest
          ≡ core_manifest
              (generation_of base operation)
              revision
              parent
              segments
              checkpoint
              transaction_id
              others)
  unfolding build_child_manifest
  built-core revision h =
      let (named, h₁, _) = >>=-eq-ok (identity_field identity) _ h in
      let (featured, h₂, _) =
        >>=-eq-ok (feature_fields (generation_of base operation) identity refutations_map) _ h₁ in
      let (dated, h₃, _) = >>=-eq-ok (epoch_field (generation_of base operation) base) _ h₂ in
      (
        append_fields named (
            append_fields (supersedes_field (generation_of base operation) supersedes_map)
              (append_fields featured dated)),
        cc h₃,
      )

  -- A manifest that was built for the revision after `n` is accepted by the walk when it is stored:
  -- with its number and the parent it was built for.
  pub build_child_manifest-visited :
      (read : String → Result Json) (n : ℕ) (candidate : String) {manifest : Fields}
      {bare bare_parent : String}
      → build_child_manifest base
          (suc n)
          parent
          segments
          checkpoint
          transaction_id
          operation
          identity
          supersedes_map
          refutations_map
        ≡ ok manifest
      → bare_digest candidate ≡ ok bare
      → bare_digest parent ≡ ok bare_parent
      → read candidate ≡ ok (obj manifest)
      → visit_revision read none [] candidate ≡ ok (manifest, suc n, some parent)
  unfolding visit_revision
  build_child_manifest-visited read n candidate h named parent_named stored =
      let (others, built) = built-core (suc n) h in
      rw (named, stored, built)
        (check_manifest-core (generation_of base operation) n parent segments checkpoint
          transaction_id others parent_named)
