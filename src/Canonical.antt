-- ===== src/Canonical.antt =====
-- an_kla/canonical.py: canonical JSON and content addressing. `sha256`, the hexadecimal digest of
-- `hashlib`, is a parameter. A text stands for its UTF-8 bytes.
pub mod Identifiers
pub mod Parts
pub mod KeyOrder
pub mod SizedPayload
mod Tests
use Prim.Native.Char.{Char, code}
use Prim.Native.String
use an_kla_memory.Base.{ℕ, zero, suc, ◌+◌, ◌-◌, ◌*◌, ◌/◌, ◌%◌, String, ◌<>◌, ◌==◌, starts_with, len}
use an_kla_memory.Base.{Bool, true, false, not, ◌&&◌, ◌||◌, List, [], ◌∷◌, map, ltb, eqb}
use an_kla_memory.Base.{
  if◌then◌else◌, Result, ok, err, value_error, raise_if, ◌>>=◌, ◌>>◌, all, length,
}
use an_kla_memory.Base.Int.{ℤ, pos, negsuc}
use an_kla_memory.Base.Text.{codes, str_le, join}
use an_kla_memory.Base.Regex.{is_hex}
use an_kla_memory.Json.{Json, Items, Fields, null, bool, num, real, not_finite, str, arr, obj}
use an_kla_memory.Json.{nil, cons, end, field}

-- The decimal digit of a number below ten.
decimal_digit : ℕ → String
decimal_digit zero = "0"
decimal_digit (suc zero) = "1"
decimal_digit (suc (suc zero)) = "2"
decimal_digit (suc (suc (suc zero))) = "3"
decimal_digit (suc (suc (suc (suc zero)))) = "4"
decimal_digit (suc (suc (suc (suc (suc zero))))) = "5"
decimal_digit (suc (suc (suc (suc (suc (suc zero)))))) = "6"
decimal_digit (suc (suc (suc (suc (suc (suc (suc zero))))))) = "7"
decimal_digit (suc (suc (suc (suc (suc (suc (suc (suc zero)))))))) = "8"
decimal_digit _ = "9"

-- `int.__repr__`, with as many rounds as the number at most.
decimal_from : ℕ → ℕ → String → String
decimal_from zero n acc = decimal_digit (n % 10) <> acc
decimal_from (suc fuel) n acc =
    let more = decimal_from fuel (n / 10) (decimal_digit (n % 10) <> acc) in
    if ltb n 10 then decimal_digit n <> acc else more

unfoldable pub decimal : ℕ → String
unfolding decimal_from decimal_digit
decimal n = decimal_from n n ""

-- `json.dumps` escapes the quote, the backslash and the control characters.
hex_digit : ℕ → String
unfolding decimal_digit
hex_digit n =
    if ltb n 10
    then decimal_digit n
    else if eqb n 10
    then "a"
    else if eqb n 11
    then "b"
    else if eqb n 12
    then "c"
    else if eqb n 13
    then "d"
    else if eqb n 14
    then "e"
    else "f"

-- json's table of escapes with `ensure_ascii=False`.
escape_char : Char → String
unfolding hex_digit
escape_char c =
    let n = code c in
    if eqb n 34
    then "\\\""
    else if eqb n 92
    then "\\\\"
    else if eqb n 10
    then "\\n"
    else if eqb n 13
    then "\\r"
    else if eqb n 9
    then "\\t"
    else if eqb n 12
    then "\\f"
    else if eqb n 8
    then "\\b"
    else if ltb n 32
    then "\\u00" <> hex_digit (n / 16) <> hex_digit (n % 16)
    else String.◌∷◌ c String.[]

escape : String → String
unfolding escape_char
escape String.[] = ""
escape (String.◌∷◌ c s) = escape_char c <> escape s

unfoldable pub quoted : String → String
unfolding escape
quoted s = "\"" <> (escape s <> "\"")

unfoldable pub integer : ℤ → String
unfolding decimal
integer (pos n) = decimal n
integer (negsuc n) = "-" <> decimal (suc n)

-- A member of an object: its key, and its value rendered.
abbrev pub Member : Type 0
Member = String × String

-- `sort_keys=True`
unfoldable pub insert_member : Member → List Member → List Member
insert_member m [] = m ∷ []
insert_member m (n ∷ ns) =
    let rest = insert_member m ns in if str_le m.0 n.0 then m ∷ n ∷ ns else n ∷ rest

unfoldable pub member_text : Member → String
unfolding quoted
member_text (k, v) = quoted k <> (":" <> v)

-- `json.dumps` with `ensure_ascii=False, sort_keys=True, separators=(",", ":"), allow_nan=False`
unfoldable mutual
  pub canonical_json : Json → Result String
  canonical_json null = ok "null"
  canonical_json (bool true) = ok "true"
  canonical_json (bool false) = ok "false"
  canonical_json (num n) = ok (integer n)
  canonical_json (real r) = ok r
  canonical_json not_finite = err (value_error "not_json_compliant")
  canonical_json (str s) = ok (quoted s)
  canonical_json (arr xs) = render_items xs >>= λ ts. ok ("[" <> (join "," ts <> "]"))
  canonical_json (obj fs) =
      render_fields fs >>= λ ms. ok ("{" <> (join "," (map member_text ms) <> "}"))

  pub render_items : Items → Result (List String)
  render_items nil = ok []
  render_items (cons x xs) = canonical_json x >>= λ t. render_items xs >>= λ ts. ok (t ∷ ts)

  -- The members in the order of their keys.
  pub render_fields : Fields → Result (List Member)
  render_fields end = ok []
  render_fields (field k v fs) =
      canonical_json v >>= λ t. render_fields fs >>= λ ms. ok (insert_member (k, t) ms)

module _ (sha256 : String → String) where
  unfoldable pub digest_bytes : String → String
  digest_bytes payload = "sha256:" <> sha256 payload

  unfoldable pub digest_json : Json → Result String
  unfolding digest_bytes
  digest_json value = canonical_json value >>= λ t. ok (digest_bytes t)

-- `len` of the UTF-8 encoding.
unfoldable pub byte_length : String → ℕ
byte_length String.[] = 0
byte_length (String.◌∷◌ c s) =
    let n = code c in
    (if ltb n 128 then 1 else if ltb n 2048 then 2 else if ltb n 65536 then 3 else 4)
    + byte_length s
