-- ===== src/Canonical/Tests.antt =====
-- Runs of `canonical_json`.
use an_kla_memory.Base.{ℕ, String, ◌≡◌, refl, false, ok, err, value_error, if◌then◌else◌}
use an_kla_memory.Base.Text.{join}
use an_kla_memory.Base.Int.{negsuc, pos}
use mathlib.Core.Quot
use an_kla_memory.Canonical.{digest_json}
use an_kla_memory.Canonical.KeyOrder.{
  value_of, items, members, swap, next_item, no_items, digest_json-Value,
}
use an_kla_memory.Json.{Fields, Json, obj, arr, field, end, cons, nil, str, num, bool}
use an_kla_memory.Canonical.{
  canonical_json, integer, quoted, insert_member, member_text, byte_length,
}
use an_kla_memory.Canonical.Identifiers.{bare_digest, is_digest, drop_chars, bare_digest-is_digest}
use an_kla_memory.Canonical.SizedPayload.{exact_sized_payload, IsExact, exact_sized_payload-IsExact}

sorted_keys :
    canonical_json (
      obj (
        field "b"
          (num (negsuc 11))
          (field "a" (arr (cons (str "x\"\n") (cons (bool false) nil))) end)))
    ≡ ok "{\"a\":[\"x\\\"\\n\",false],\"b\":-12}"
unfolding canonical_json integer quoted insert_member member_text join
sorted_keys = refl

abbrev some_digest : String
some_digest = "sha256:0123456789abcdef0123456789abcdef0123456789abcdef0123456789abcdef"

bare_digest-is_digest_example : bare_digest some_digest ≡ (
    if is_digest some_digest
    then ok (drop_chars 7 some_digest)
    else err (value_error "invalid_sha256_identifier"))
bare_digest-is_digest_example = bare_digest-is_digest some_digest

abbrev used_bytes : ℕ → Json
used_bytes n = obj (field "used" (num (pos n)) end)

-- 10 bytes for one digit, 11 for two, which is then the size.
sized_run : exact_sized_payload used_bytes 16 ≡ ok (used_bytes 11, 11)
unfolding exact_sized_payload canonical_json integer quoted byte_length insert_member member_text
    join
sized_run = refl

exact_sized_payload-IsExact_example : IsExact used_bytes (used_bytes 11) 11
exact_sized_payload-IsExact_example = exact_sized_payload-IsExact used_bytes 16 sized_run

abbrev first_order : Fields
first_order = field "b" (num (pos 1)) (field "a" (str "x") end)

abbrev other_order : Fields
other_order = field "a" (str "x") (field "b" (num (pos 1)) end)

same_value :
    value_of (arr (cons (obj first_order) nil)) ≡ value_of (arr (cons (obj other_order) nil))
same_value =
    Quot.sound
      (items (next_item (members (swap "b" "a" (num (pos 1)) (str "x") end refl)) no_items))

digest_json-Value_example :
    digest_json (λ s. s) (arr (cons (obj first_order) nil))
    ≡ digest_json (λ s. s) (arr (cons (obj other_order) nil))
digest_json-Value_example =
    digest_json-Value (λ s. s) (arr (cons (obj first_order) nil)) (arr (cons (obj other_order) nil))
      same_value
