-- ===== src/Base/Text.antt =====
-- Python's `str`: strip, tokens, order by code points, joining. What depends on the Unicode
-- database of the interpreter is a parameter.
use Prim.Native.Char.{Char, code}
use Prim.Native.String.{String, ◌++◌ as ◌<>◌}
use Prim.Native.Nat.{ℕ, compare, Ordering}
use text.Mathlib.Text.{◌==◌}
use mathlib.Core.Bool.{Bool, true, false, ◌&&◌}
use mathlib.Core.List.{List, [], ◌∷◌}
use an_kla_memory.Base.Tests.{if◌then◌else◌}
use an_kla_memory.Base.Lists.{member}

-- The tables of the interpreter's Unicode database that the program asks.
pub record Unicode : Type 0 where
  pub is_space : Char → Bool
  pub is_word : Char → Bool
  pub casefold_char : Char → String

abbrev pub codes : String → List ℕ
codes String.[] = []
codes (String.◌∷◌ c s) = code c ∷ codes s

-- `s <= t` on texts compares code points from the left.
abbrev pub text_le : List ℕ → List ℕ → Bool
text_le [] ys = true
text_le (x ∷ xs) [] = false
text_le (x ∷ xs) (y ∷ ys) =
    let rest = text_le xs ys in
    elim (compare x y) [ Ordering.lt ↦ true | Ordering.gt ↦ false | Ordering.eq ↦ rest ]

abbrev pub str_le : String → String → Bool
str_le s t = text_le (codes s) (codes t)

abbrev insert : String → List String → List String
insert x [] = x ∷ []
insert x (y ∷ ys) = let rest = insert x ys in if str_le x y then x ∷ y ∷ ys else y ∷ rest

-- `sorted(values)`
abbrev pub sorted : List String → List String
sorted [] = []
sorted (x ∷ xs) = insert x (sorted xs)

-- `set.add`, on a set kept as a list
abbrev pub add : String → List String → List String
add x xs = if member x xs then xs else x ∷ xs

-- `",".join(values)`
unfoldable pub join : String → List String → String
join sep [] = ""
join sep (x ∷ []) = x
join sep (x ∷ y ∷ ys) = x <> (sep <> join sep (y ∷ ys))

module _ (u : Unicode) where
  unfoldable pub strip_left : String → String
  strip_left String.[] = ""
  strip_left (String.◌∷◌ c s) =
      let rest = strip_left s in if u.is_space c then rest else String.◌∷◌ c s

  unfoldable pub strip_right : String → String
  strip_right String.[] = ""
  strip_right (String.◌∷◌ c s) =
      let rest = strip_right s in if u.is_space c && rest == "" then "" else String.◌∷◌ c rest

  -- `s.strip()`
  unfoldable pub strip : String → String
  unfolding strip_left strip_right
  strip s = strip_right (strip_left s)

  -- `s.casefold()` folds each character by itself.
  unfoldable pub casefold : String → String
  casefold String.[] = ""
  casefold (String.◌∷◌ c s) = u.casefold_char c <> casefold s

  -- `re.findall(r"[\w]+", s)`: the maximal runs of word characters, `run` being the open one.
  unfoldable pub words_from : String → String → List String
  words_from run String.[] = if run == "" then [] else run ∷ []
  words_from run (String.◌∷◌ c s) =
      let closed = words_from "" s in
      let open_run = words_from (run <> String.◌∷◌ c String.[]) s in
      if u.is_word c then open_run else if run == "" then closed else run ∷ closed

  unfoldable pub words : String → List String
  unfolding words_from
  words s = words_from "" s
