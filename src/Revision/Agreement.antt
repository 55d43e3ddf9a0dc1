-- ===== src/Revision/Agreement.antt =====
-- What the validation accepts, the walk accepts.
use an_kla_memory.Base.{ok_inj}
use an_kla_memory.Base.{ℕ, String, ◌≡◌, refl, ap, ◌∙◌, true, false, Option, none, some}
use an_kla_memory.Base.{
  ◌⊎◌, inl, inr, eqb, Error, ok, >>=-eq-ok, >>-eq-ok, raise_if-eq-ok, Option-cases, arith,
}
use an_kla_memory.Json.{Json, Fields, null, bool, num, real, not_finite, str, arr, obj, get, is_str}
use an_kla_memory.Canonical.Identifiers.{bare_digest}
use an_kla_memory.Revision.Walk.{
  check_manifest, check_numbered, parent_in, revision_number, is_schema,
}
use an_kla_memory.Revision.Validation.{
  Schema, v1, v2, v3, schema_of, bad_shape, check_schema, check_number,
}
use an_kla_memory.Revision.Validation.{
  check_identifier, check_parent_identifier, check_parent, validate_manifest,
}

-- A manifest of the second schema that claims to be the first revision.
abbrev pub IsV2Root : Fields → Type 0
IsV2Root m = (schema_of (get m "schema") ≡ some v2) × (revision_number (get m "revision") ≡ some 0)

-- The schema, as the walk tests it.
schema_of-is_schema : (v : Json) (schema : Schema) → schema_of v ≡ some schema → is_schema v ≡ true
schema_of-is_schema (str s) schema h = ground arith
schema_of-is_schema null schema h = cc
schema_of-is_schema (bool b) schema h = cc
schema_of-is_schema (num n) schema h = cc
schema_of-is_schema (real r) schema h = cc
schema_of-is_schema not_finite schema h = cc
schema_of-is_schema (arr xs) schema h = cc
schema_of-is_schema (obj fs) schema h = cc

abbrev IsAgreed : Schema → ℕ → Json → Json → Type 0
IsAgreed schema n v parent =
    ((schema ≡ v2) × (n ≡ 0)) ⊎ ((o : Option String) × (parent_in v n parent ≡ ok o))

text_of_v1 : (v : Json) → schema_of v ≡ some v1 → is_str "an-kla/revision-v1" v ≡ true
text_of_v1 v h = ground arith

text_of_v3 : (v : Json) → schema_of v ≡ some v3 → is_str "an-kla/revision-v3" v ≡ true
text_of_v3 v h = ground arith

module _ (error : String → Error) where
  null_agrees :
      (schema : Schema) (n : ℕ) (v epoch : Json)
      → schema_of v ≡ some schema
      → check_parent error schema n null epoch ≡ ok tt
      → IsAgreed schema n v null
  unfolding check_parent parent_in
  null_agrees v1 n v epoch h k = inr (none, ground (arith, text_of_v1 v h))
  null_agrees v2 n v epoch h k = inl (refl, ground arith)
  null_agrees v3 n v epoch h k = inr (none, ground (arith, text_of_v3 v h))

  positive :
      (schema : Schema) (n : ℕ) (epoch : Json) (p : String)
      → check_parent error schema n (str p) epoch ≡ ok tt
      → eqb n 0 ≡ false
  unfolding check_parent
  positive v1 n epoch p k = ground arith
  positive v2 n epoch p k = ground arith
  positive v3 n epoch p k = ground arith

  str_agrees :
      (schema : Schema) (n : ℕ) (v epoch : Json) (p : String)
      → check_parent_identifier error schema n (str p) ≡ ok tt
      → check_parent error schema n (str p) epoch ≡ ok tt
      → IsAgreed schema n v (str p)
  unfolding parent_in check_parent_identifier check_identifier
  str_agrees schema n v epoch p h k =
      let (bare, _, e) = >>=-eq-ok (bare_digest p) _ h in
      inr (some p, rw (positive schema n epoch p k, e) refl)

  parent_agrees :
      (schema : Schema) (n : ℕ) (v parent epoch : Json)
      → schema_of v ≡ some schema
      → check_parent_identifier error schema n parent ≡ ok tt
      → check_parent error schema n parent epoch ≡ ok tt
      → IsAgreed schema n v parent
  unfolding check_parent_identifier check_identifier
  parent_agrees schema n v null epoch s h k = null_agrees schema n v epoch s k
  parent_agrees schema n v (str p) epoch s h k = str_agrees schema n v epoch p h k
  parent_agrees schema n v (bool b) epoch s h k = cc
  parent_agrees schema n v (num i) epoch s h k = cc
  parent_agrees schema n v (real r) epoch s h k = cc
  parent_agrees schema n v not_finite epoch s h k = cc
  parent_agrees schema n v (arr xs) epoch s h k = cc
  parent_agrees schema n v (obj fs) epoch s h k = cc

  check_schema-eq :
      (m : Fields) (schema : Schema)
      → check_schema error m ≡ ok schema
      → schema_of (get m "schema") ≡ some schema
  unfolding check_schema
  check_schema-eq m schema h = ground arith

  check_number-eq :
      (schema : Schema) (m : Fields) (n : ℕ)
      → check_number error schema m ≡ ok n
      → revision_number (get m "revision") ≡ some n
  unfolding check_number
  check_number-eq schema m n h =
      let (_, k) = raise_if-eq-ok (bad_shape schema m) _ _ h in
      elim (Option-cases (revision_number (get m "revision"))) [
        | inl missing ↦ cc (rw missing at k)
        | inr (i, found) ↦ found ∙ ap some (ok_inj (rw found at k))
      ]

  -- A manifest that the validation accepts is accepted by the walk as the revision it starts from,
  -- unless it is of the second schema and numbered 0.
  pub validate_manifest-check_manifest :
      (m : Fields)
      → validate_manifest error m ≡ ok tt
      → IsV2Root m
        ⊎ ((n : ℕ) × (parent : Option String) × (check_manifest none (obj m) ≡ ok (m, n, parent)))
  unfolding validate_manifest check_manifest check_numbered
  validate_manifest-check_manifest m h =
      let (schema, h₁, e₁) = >>=-eq-ok (check_schema error m) _ h in
      let (n, h₂, e₂) = >>=-eq-ok (check_number error schema m) _ h₁ in
      let (_, h₃) = >>-eq-ok (check_identifier error (get m "checkpoint")) _ h₂ in
      let (e₄, h₄) = >>-eq-ok (check_parent_identifier error schema n (get m "parent")) _ h₃ in
      let (e₅, _) =
        >>-eq-ok (check_parent error schema n (get m "parent") (get m "compaction_epoch")) _ h₄ in
      let named = check_schema-eq m schema e₁ in
      let numbered = check_number-eq schema m n e₂ in
      elim (parent_agrees schema n (get m "schema") (get m "parent") (get m "compaction_epoch")
        named e₄ e₅) [
          | inl (second, first) ↦ inl (named ∙ ap some second, numbered ∙ ap some first)
          | inr (parent, read) ↦ inr (
            n,
            parent,
            rw (numbered, schema_of-is_schema (get m "schema") schema named, read) refl,
          )
        ]
