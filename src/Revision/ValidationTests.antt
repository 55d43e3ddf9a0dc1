-- ===== src/Revision/ValidationTests.antt =====
-- Manifests that the validation accepts.
use an_kla_memory.Base.{
  ℕ, String, ◌≡◌, refl, Option, none, [], ◌∷◌, ok, err, integrity, revision_walk, ◌⊎◌,
}
use an_kla_memory.Base.Int.{pos}
use an_kla_memory.Json.{Json, Fields, nil, cons, null, str, num, arr, obj, field, end, texts}
use an_kla_memory.Revision.Walk.{check_manifest}
use an_kla_memory.Revision.Validation.{validate_manifest}
use an_kla_memory.Revision.Agreement.{IsV2Root, validate_manifest-check_manifest}

abbrev some_id : String
some_id = "sha256:1111111111111111111111111111111111111111111111111111111111111111"

abbrev manifest_of : String → ℕ → Json → Fields → Fields
manifest_of schema n parent more = field "schema" (str schema) (
    field "revision" (num (pos n)) (
      field "parent" parent (
        field "facts_segments" (arr (texts (some_id ∷ []))) (
          field "events_segments" (arr nil) (
            field "episodes_segments" (arr nil) (
              field "checkpoint" (str some_id) (
                field "transaction_id" (str "12345678-1234-4123-8123-123456789abc") (
                  field "canonicalization" (str "canonical-json/v1") (
                    field "integrity_claim" (str "content_identity_not_truth_or_authorship")
                      more)))))))))

abbrev child : Fields
child = manifest_of "an-kla/revision-v1" 1 (str some_id) end

child_valid : validate_manifest integrity child ≡ ok tt
unfolding validate_manifest
child_valid = refl

validate_manifest-check_manifest_example :
    IsV2Root child
    ⊎ ((n : ℕ) × (parent : Option String) × (check_manifest none (obj child)
          ≡ ok (child, n, parent)))
validate_manifest-check_manifest_example =
    validate_manifest-check_manifest integrity child child_valid

abbrev refutation : Json
refutation = obj (
    field "stream" (str "facts")
      (field "target_record_sha256" (str some_id) (field "refutation_id" (str some_id) end)))

-- A first revision of the second schema is valid, and no walk accepts it.
abbrev second_root : Fields
second_root = manifest_of "an-kla/revision-v2" 0 null (
    field "store_identity" (str some_id) (
      field "features" (arr (texts ("refutations/v1" ∷ [])))
        (field "refutations_map" (arr (cons refutation nil)) end)))

second_root-valid : validate_manifest integrity second_root ≡ ok tt
unfolding validate_manifest
second_root-valid = refl

second_root-refused : check_manifest none (obj second_root) ≡ err revision_walk
unfolding check_manifest
second_root-refused = refl
