-- ===== src/Revision/WatermarkTests.antt =====
-- Three revisions, and a watermark at the second one.
use an_kla_memory.Base.{
  ℕ, String, ◌==◌, ◌≡◌, refl, Bool, false, some, none, ok, err, if◌then◌else◌, Result, key_error,
}
use an_kla_memory.Base.{starts_with, integrity}
use an_kla_memory.Base.Int.{pos}
use an_kla_memory.Json.{Json, Fields, null, str, num, arr, obj, nil, field, end}
use an_kla_memory.Base.Text.{join}
use an_kla_memory.Canonical.{digest_json, canonical_json, insert_member, member_text, integer}
use an_kla_memory.Revision.Watermark.{Watermark, usable_watermark}
use an_kla_memory.Revision.Ascent.{ChainStore, validate_revision_chain}
use an_kla_memory.Revision.Watermarked.{validate_revision_chain-agrees}

abbrev bare0 : String
bare0 = "0000000000000000000000000000000000000000000000000000000000000000"

abbrev bare1 : String
bare1 = "1111111111111111111111111111111111111111111111111111111111111111"

abbrev bare2 : String
bare2 = "2222222222222222222222222222222222222222222222222222222222222222"

-- The digest of a manifest is that of its checkpoint, in this store.
abbrev by_checkpoint : String → String
by_checkpoint s =
    if starts_with s "{\"canonicalization\":\"canonical-json/v1\",\"checkpoint\":\"sha256:0"
    then bare0
    else if starts_with s "{\"canonicalization\":\"canonical-json/v1\",\"checkpoint\":\"sha256:1"
    then bare1
    else bare2

abbrev manifest_of : String → ℕ → Json → Fields
manifest_of checkpoint n parent = field "schema" (str "an-kla/revision-v1") (
    field "revision" (num (pos n)) (
      field "parent" parent (
        field "facts_segments" (arr nil) (
          field "events_segments" (arr nil) (
            field "episodes_segments" (arr nil) (
              field "checkpoint" (str checkpoint) (
                field "transaction_id" (str "12345678-1234-4123-8123-123456789abc") (
                  field "canonicalization" (str "canonical-json/v1") (
                    field "integrity_claim" (str "content_identity_not_truth_or_authorship")
                      end)))))))))

abbrev id0 : String
id0 = "sha256:0000000000000000000000000000000000000000000000000000000000000000"

abbrev id1 : String
id1 = "sha256:1111111111111111111111111111111111111111111111111111111111111111"

abbrev id2 : String
id2 = "sha256:2222222222222222222222222222222222222222222222222222222222222222"

abbrev manifest0 : Fields
manifest0 = manifest_of id0 0 null

abbrev manifest1 : Fields
manifest1 = manifest_of id1 1 (str id0)

abbrev manifest2 : Fields
manifest2 = manifest_of id2 2 (str id1)

abbrev read_manifest : String → Result Json
read_manifest id =
    if id == id0
    then ok (obj manifest0)
    else if id == id1
    then ok (obj manifest1)
    else if id == id2
    then ok (obj manifest2)
    else err key_error

abbrev store : ChainStore
store = record {
  read = read_manifest;
  read_refutation = λ id. err key_error;
  verify_link = λ m. ok tt;
  verify_root = λ m. ok tt;
  stage_attempt = λ txid id. none;
  has_files = λ txid id attempt. false;
}

abbrev no_numbers : Json → Json → Bool
no_numbers v w = false

abbrev second : Watermark
second = record { revision = id1; parent = str id0; epoch_id = null }

read_back :
    usable_watermark (
      some (
        obj (
          field "schema"
            (str "an-kla/watermark-v1")
            (field "revision" (str id1) (field "parent" (str id0) (field "epoch_id" null end))))))
    ≡ some second
unfolding usable_watermark
read_back = refl

valid_in_full :
    validate_revision_chain no_numbers by_checkpoint integrity store none id1 manifest1 ≡ ok tt
unfolding validate_revision_chain digest_json canonical_json join insert_member member_text integer
valid_in_full = refl

validate_revision_chain-agrees_example :
    validate_revision_chain no_numbers by_checkpoint integrity store (some second) id2 manifest2
    ≡ validate_revision_chain no_numbers by_checkpoint integrity store none id2 manifest2
validate_revision_chain-agrees_example =
    validate_revision_chain-agrees no_numbers by_checkpoint integrity store (some second) id2
      manifest2 2 (manifest1, (obj manifest1, refl, refl), valid_in_full)
      (obj manifest2, refl, refl) refl
