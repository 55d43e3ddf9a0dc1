-- ===== src/Record/SubjectRef.antt =====
-- an_kla/subject_ref.py
use Prim.Native.Char.{code}
use an_kla_memory.Base.{
  ℕ, zero, suc, value_error, String, ◌<>◌, Bool, not, ◌||◌, List, [], ◌∷◌, eqb,
}
use an_kla_memory.Base.{if◌then◌else◌, Result, ok, err, subject_ref, raise_if, ◌>>◌}
use an_kla_memory.Base.Regex.{Regex, cls, seq, alt, rep, is_hex, range, text, fullmatch}
use an_kla_memory.Json.{Json, str}
use an_kla_memory.Canonical.{digest_bytes}
use an_kla_memory.Canonical.Identifiers.{drop_chars}

pub record Subject : Type 0 where
  pub kind : String
  pub namespace : String
  pub id : String

abbrev pub kinds : Regex
kinds = alt (text "actor") (
    alt (text "api") (
      alt (text "decision") (
        alt (text "dependency") (
          alt (text "doc") (
            alt (text "environment") (
              alt (text "integration") (
                alt (text "issue")
                  (alt (text "project") (alt (text "service") (text "system"))))))))))

-- `[a-z0-9._-]`
abbrev pub is_id_char : ℕ → Bool
is_id_char c = range b'a' b'z' c || range b'0' b'9' c || eqb c b'.' || eqb c b'_' || eqb c b'-'

abbrev pub subject_ref_pattern : Regex
subject_ref_pattern = seq (text "an-kla:subject:v1:") (
    seq kinds (
      seq (text ":p-") (seq (rep 32 32 (cls is_hex)) (seq (text ":") (rep 1 64 (cls is_id_char))))))

-- `value.split(":")`, with the piece that is being read.
abbrev pub split_from : String → String → List String
split_from piece String.[] = piece ∷ []
split_from piece (String.◌∷◌ c s) =
    let closed = piece ∷ split_from "" s in
    let longer = split_from (piece <> String.◌∷◌ c String.[]) s in
    if eqb (code c) b':' then closed else longer

-- The unpacking wants six pieces, else it is a `ValueError`.
abbrev pub unpack : List String → Result Subject
unpack (_ ∷ _ ∷ _ ∷ kind ∷ namespace ∷ id ∷ []) =
    ok (record { kind = kind; namespace = namespace; id = id })
unpack _ = err (value_error "unpack")

unfoldable pub parse_subject_ref : Json → Result Subject
unfolding fullmatch
parse_subject_ref (str value) =
    raise_if (not (fullmatch subject_ref_pattern value)) (subject_ref "invalid_subject_ref")
    >> unpack (split_from "" value)
parse_subject_ref _ = err (subject_ref "invalid_subject_ref")

-- `"p-" + digest_bytes(project_bytes)[7:39]`
abbrev pub take_chars : ℕ → String → String
take_chars zero s = ""
take_chars (suc n) String.[] = ""
take_chars (suc n) (String.◌∷◌ c s) = String.◌∷◌ c (take_chars n s)

unfoldable pub derive_namespace : (String → String) → String → String
unfolding digest_bytes
derive_namespace sha256 project_bytes =
    "p-" <> take_chars 32 (drop_chars 7 (digest_bytes sha256 project_bytes))
