-- ===== src/Canonical/Identifiers.antt =====
-- `bare_digest` of an_kla/canonical.py and the pattern `_DIGEST` of an_kla/write_policy.py.
use an_kla_memory.Base.{ℕ, zero, suc, ◌+◌, ◌≡◌, refl, String, Bool, true, false, not}
use an_kla_memory.Base.{◌&&◌, ◌||◌, List, [], ◌∷◌, if◌then◌else◌, Result, ok, err, value_error}
use an_kla_memory.Base.{raise_if, ◌>>◌, all, length, eqb, arith}
use an_kla_memory.Base.Text.{codes}
use an_kla_memory.Base.Regex.{Regex, seq, rep, cls, is_hex, text, fullmatch}
use an_kla_memory.Base.Regex.{repeat-match_class, match_text}

-- `identifier[7:]`
abbrev pub drop_chars : ℕ → String → String
drop_chars zero s = s
drop_chars (suc n) String.[] = ""
drop_chars (suc n) (String.◌∷◌ c s) = drop_chars n s

-- `identifier.startswith("sha256:")`
abbrev prefix_codes : List ℕ
prefix_codes = codes "sha256:"

abbrev pub begins : List ℕ → List ℕ → Bool
begins [] s = true
begins (c ∷ cs) [] = false
begins (c ∷ cs) (d ∷ s) = eqb c d && begins cs s

unfoldable pub bare_digest : String → Result String
bare_digest identifier =
    raise_if
      (not (begins prefix_codes (codes identifier)) || not (eqb (length (codes identifier)) 71))
      (value_error "invalid_sha256_identifier")
    >> (let value = drop_chars 7 identifier in
        raise_if (not (all is_hex (codes value))) (value_error "invalid_sha256_identifier")
        >> ok value)

-- `^sha256:[0-9a-f]{64}$`
abbrev digest_pattern : Regex
digest_pattern = seq (text "sha256:") (rep 64 64 (cls is_hex))

-- `_is_digest` on a text
unfoldable pub is_digest : String → Bool
unfolding fullmatch
is_digest s = fullmatch digest_pattern s

abbrev drop : ℕ → List ℕ → List ℕ
drop zero s = s
drop (suc n) [] = []
drop (suc n) (c ∷ s) = drop n s

codes-drop_chars : (n : ℕ) (s : String) → codes (drop_chars n s) ≡ drop n (codes s)
codes-drop_chars zero s = refl
codes-drop_chars (suc n) String.[] = refl
codes-drop_chars (suc n) (String.◌∷◌ c s) = codes-drop_chars n s

match_text-begins :
    (cs s : List ℕ) (k : List ℕ → Bool)
    → match_text cs s k ≡ (begins cs s && k (drop (length cs) s))
match_text-begins [] s k = refl
match_text-begins (c ∷ cs) [] k = refl
match_text-begins (c ∷ cs) (d ∷ s) k = ground (arith, match_text-begins cs s k)

length-begins :
    (cs s : List ℕ) → begins cs s ≡ true → length s ≡ length cs + length (drop (length cs) s)
length-begins [] s h = omega arith
length-begins (c ∷ cs) [] h = cc
length-begins (c ∷ cs) (d ∷ s) h = ground (arith, length-begins cs s)

-- `bare_digest` accepts exactly the texts of the pattern `^sha256:[0-9a-f]{64}$` and returns their
-- last 64 characters; any other text raises `invalid_sha256_identifier`.
pub bare_digest-is_digest :
    (s : String)
    → bare_digest s
      ≡ (if is_digest s then ok (drop_chars 7 s) else err (value_error "invalid_sha256_identifier"))
unfolding bare_digest is_digest
bare_digest-is_digest s =
    rw (codes-drop_chars, match_text-begins, repeat-match_class is_hex)
      (ground (arith, length-begins prefix_codes (codes s)))
