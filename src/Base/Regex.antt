-- ===== src/Base/Regex.antt =====
-- The part of `re` that the program's patterns use, as a matcher with a continuation.
use Prim.Native.Nat.{ℕ, zero, suc, ◌-◌}
use Prim.Native.String.{String}
use mathlib.Core.Path.{◌≡◌, refl}
use mathlib.Core.Bool.{Bool, true, false, ◌&&◌, ◌||◌}
use mathlib.Core.List.{List, [], ◌∷◌}
use native.Mathlib.Omega.{arith}
use an_kla_memory.Base.Tests.{leb, eqb}
use an_kla_memory.Base.Lists.{length, all}
use an_kla_memory.Base.Text.{codes}

-- `[...]`, a literal text, juxtaposition, `|`, `{lo,hi}` and `*`
pub data Regex : Type 0 where
  cls : (ℕ → Bool) → Regex
  lit : List ℕ → Regex
  seq : Regex → Regex → Regex
  alt : Regex → Regex → Regex
  rep : ℕ → ℕ → Regex → Regex
  star : Regex → Regex

abbrev pub Matcher : Type 0
Matcher = List ℕ → (List ℕ → Bool) → Bool

abbrev pub match_class : (ℕ → Bool) → Matcher
match_class p [] k = false
match_class p (c ∷ s) k = p c && k s

abbrev pub match_text : List ℕ → Matcher
match_text [] s k = k s
match_text (c ∷ cs) [] k = false
match_text (c ∷ cs) (d ∷ s) k = eqb c d && match_text cs s k

-- `m` at least `lo` times, and at most `extra` times more.
abbrev pub repeat : Matcher → ℕ → ℕ → Matcher
repeat m zero zero s k = k s
repeat m zero (suc extra) s k = k s || m s (λ t. repeat m zero extra t k)
repeat m (suc lo) extra s k = m s (λ t. repeat m lo extra t k)

-- A starred class consumes a character each time, so the text's length bounds the rounds.
abbrev pub matches : Regex → Matcher
matches (cls p) s k = match_class p s k
matches (lit cs) s k = match_text cs s k
matches (seq r t) s k = matches r s (λ rest. matches t rest k)
matches (alt r t) s k = matches r s k || matches t s k
matches (rep lo hi r) s k = repeat (matches r) lo (hi - lo) s k
matches (star r) s k = repeat (matches r) 0 (length s) s k

abbrev pub at_end : List ℕ → Bool
at_end [] = true
at_end (c ∷ s) = false

-- `pattern.fullmatch(s)`
unfoldable pub fullmatch : Regex → String → Bool
fullmatch r s = matches r (codes s) at_end

abbrev pub text : String → Regex
text s = lit (codes s)

-- `[lo-hi]`
abbrev pub range : ℕ → ℕ → ℕ → Bool
range lo hi c = leb lo c && leb c hi

abbrev pub digit : Regex
digit = cls (range b'0' b'9')

-- `[0-9a-f]`
abbrev pub is_hex : ℕ → Bool
is_hex c = range b'0' b'9' c || range b'a' b'f' c

-- A class repeated exactly `n` times up to the end: `n` characters, all of the class.
pub repeat-match_class :
    (p : ℕ → Bool) (n : ℕ) (s : List ℕ)
    → repeat (match_class p) n 0 s at_end ≡ (eqb (length s) n && all p s)
repeat-match_class p zero [] = refl
repeat-match_class p zero (c ∷ s) = ground arith
repeat-match_class p (suc n) [] = ground arith
repeat-match_class p (suc n) (c ∷ s) = ground (arith, repeat-match_class p n s)
