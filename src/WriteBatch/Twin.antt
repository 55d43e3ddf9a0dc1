-- ===== src/WriteBatch/Twin.antt =====
-- The twin of a batch says what the batch says: the lemmas behind the ceilings.
use an_kla_memory.Base.{
  String, ◌==◌, ◌≡◌, ◌∙◌, refl, sym, subst, ap, false, List, [], ◌∷◌, not, ◌&&◌, ◌||◌, Result, ok,
  err, arith,
}
use an_kla_memory.Base.{result_map, ok_inj, >>=-eq-ok, >>-eq-ok, raise_if-eq-ok, eq_iff}
use an_kla_memory.Json.{
  Json, null, bool, num, real, not_finite, Fields, field, end, str, arr, obj, item, put,
}
use an_kla_memory.WritePolicy.Types.{Authority, Evidence, authority_class_of}
use an_kla_memory.WritePolicy.Shape.{
  one_of, require_exact_keys, is_digest_value, validate_json_value,
}
use an_kla_memory.WritePolicy.Authority.{
  validate_write_authority, AuthoritySchema, validate_evidence_list, evidence_kinds,
}
use an_kla_memory.WritePolicy.Authority.{
  validate_scope, validate_issuer, authority_schema_of, fail, authority_code, is_channel_confirmed,
  channel_confirmed_adapter,
}
use an_kla_memory.WriteBatch.Judge.{twin_authority}

-- Another key does not see the change.
item-put :
    (k j : String) (v : Json) (fs : Fields) → (k == j) ≡ false → item (put k v fs) j ≡ item fs j
item-put k j v end h = ground arith
item-put k j v (field i w fs) h =
    ground (arith, eq_iff i k, eq_iff i j, eq_iff k j, item-put k j v fs)

abbrev evidence_from : Json → AuthoritySchema → Result (List Evidence)
evidence_from value schema = elim value [
  | arr xs ↦ validate_evidence_list xs (evidence_kinds schema)
  | _ ↦ err (fail "evidence:not_list")
]

-- Where the class and the evidence of a valid authority come from.
record ReadFrom (fs : Fields) (a : Authority) : Type 0 where
  schema_value : Json
  class_value : Json
  evidence_value : Json
  schema : AuthoritySchema
  has_schema : item fs "schema" ≡ ok schema_value
  has_class : item fs "authority_class" ≡ ok class_value
  has_evidence : item fs "evidence" ≡ ok evidence_value
  reads_schema : one_of authority_schema_of schema_value (fail "authority:schema") ≡ ok schema
  reads_class :
      one_of authority_class_of class_value (fail "authority_class") ≡ ok a.authority_class
  reads_evidence : evidence_from evidence_value schema ≡ ok a.evidence

validate_write_authority-ReadFrom :
    (fs : Fields) (a : Authority) → validate_write_authority (obj fs) ≡ ok a → ReadFrom fs a
unfolding validate_write_authority
validate_write_authority-ReadFrom fs a h =
    let (_, h₁) =
      >>-eq-ok
        (require_exact_keys fs
          ("schema" ∷ "proposal_sha256" ∷ "base_revision" ∷ "authority_class" ∷ "issuer"
            ∷ "evidence" ∷ "scope" ∷ [])
          [] authority_code "authority:keys")
        _ h in
    let (schema_value, h₂, has_schema) = >>=-eq-ok (item fs "schema") _ h₁ in
    let (schema, h₃, reads_schema) =
      >>=-eq-ok (one_of authority_schema_of schema_value (fail "authority:schema")) _ h₂ in
    let (digest, h₄, _) = >>=-eq-ok (item fs "proposal_sha256") _ h₃ in
    let (base, h₅, _) = >>=-eq-ok (item fs "base_revision") _ h₄ in
    let (_, h₆) =
      raise_if-eq-ok (not (is_digest_value digest) || not (is_digest_value base)) _ _ h₅ in
    let (class_value, h₇, has_class) = >>=-eq-ok (item fs "authority_class") _ h₆ in
    let (c, h₈, reads_class) =
      >>=-eq-ok (one_of authority_class_of class_value (fail "authority_class")) _ h₇ in
    let (issuer, h₉, _) = >>=-eq-ok (item fs "issuer") _ h₈ in
    let (_, h₁₀) = >>-eq-ok (validate_issuer issuer c) _ h₉ in
    let (_, h₁₁) =
      raise_if-eq-ok (is_channel_confirmed c && not channel_confirmed_adapter) _ _ h₁₀ in
    let (evidence_value, h₁₂, has_evidence) = >>=-eq-ok (item fs "evidence") _ h₁₁ in
    let (evidence, h₁₃, reads_evidence) = >>=-eq-ok (evidence_from evidence_value schema) _ h₁₂ in
    let (scope_value, h₁₄, _) = >>=-eq-ok (item fs "scope") _ h₁₃ in
    let (scope, h₁₅, _) = >>=-eq-ok (validate_scope scope_value) _ h₁₄ in
    let (_, h₁₆) =
      >>-eq-ok (validate_json_value (obj fs) authority_code "authority:invalid_json") _ h₁₅ in
    record {
      schema_value = schema_value;
      class_value = class_value;
      evidence_value = evidence_value;
      schema = schema;
      has_schema = has_schema;
      has_class = has_class;
      has_evidence = has_evidence;
      reads_schema = reads_schema;
      reads_class = reads_class ∙ ap (λ r. result_map (λ (x : Authority). x.authority_class) r) h₁₆;
      reads_evidence = reads_evidence ∙ ap (λ r. result_map (λ (x : Authority). x.evidence) r) h₁₆;
    }

-- A valid authority is an object.
valid_is_obj :
    (authority : Json) (a : Authority)
    → validate_write_authority authority ≡ ok a
    → (fs : Fields) × (authority ≡ obj fs)
unfolding validate_write_authority
valid_is_obj (obj fs) a h = (fs, refl)
valid_is_obj null a h = (end, cc)
valid_is_obj (bool b) a h = (end, cc)
valid_is_obj (num n) a h = (end, cc)
valid_is_obj (real r) a h = (end, cc)
valid_is_obj not_finite a h = (end, cc)
valid_is_obj (str s) a h = (end, cc)
valid_is_obj (arr xs) a h = (end, cc)

abbrev IsSameGround : Authority → Authority → Type 0
IsSameGround a a' = (a'.authority_class ≡ a.authority_class) × (a'.evidence ≡ a.evidence)

twin_obj-class :
    (fs : Fields) (digest : String) (a a' : Authority)
    → validate_write_authority (obj fs) ≡ ok a
    → validate_write_authority (twin_authority (obj fs) digest) ≡ ok a'
    → IsSameGround a a'
unfolding twin_authority
twin_obj-class fs digest a a' h h' =
    let r = validate_write_authority-ReadFrom fs a h in
    let changed = put "proposal_sha256" (str digest) fs in
    let r' = validate_write_authority-ReadFrom changed a' h' in
    let same_schema_value : r'.schema_value ≡ r.schema_value =
      cc (r'.has_schema, r.has_schema, item-put "proposal_sha256" "schema" (str digest) fs refl) in
    let same_class_value : r'.class_value ≡ r.class_value = cc (
      r'.has_class,
      r.has_class,
      item-put "proposal_sha256" "authority_class" (str digest) fs refl,
    ) in
    let same_evidence_value : r'.evidence_value ≡ r.evidence_value = cc (
      r'.has_evidence,
      r.has_evidence,
      item-put "proposal_sha256" "evidence" (str digest) fs refl,
    ) in
    let same_schema : r'.schema ≡ r.schema = ok_inj (
      sym r'.reads_schema
      ∙ ap (λ v. one_of authority_schema_of v (fail "authority:schema")) same_schema_value
      ∙ r.reads_schema) in
    (
      ok_inj (
          sym r'.reads_class
          ∙ ap (λ v. one_of authority_class_of v (fail "authority_class")) same_class_value
          ∙ r.reads_class),
      ok_inj (
          sym r'.reads_evidence
          ∙ ap (λ v. evidence_from v r'.schema) same_evidence_value
          ∙ ap (evidence_from r.evidence_value) same_schema
          ∙ r.reads_evidence),
    )

-- The digest does not matter to the class and the evidence.
pub twin_authority-class :
    (authority : Json) (digest : String) (a a' : Authority)
    → validate_write_authority authority ≡ ok a
    → validate_write_authority (twin_authority authority digest) ≡ ok a'
    → (a'.authority_class ≡ a.authority_class) × (a'.evidence ≡ a.evidence)
twin_authority-class authority digest a a' h h' =
    let (fs, e) = valid_is_obj authority a h in
    subst
      (λ (v : Json).
        validate_write_authority v ≡ ok a
        → validate_write_authority (twin_authority v digest) ≡ ok a'
        → IsSameGround a a')
      (sym e) (twin_obj-class fs digest a a') h h'
