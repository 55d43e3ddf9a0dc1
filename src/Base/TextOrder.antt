-- ===== src/Base/TextOrder.antt =====
-- The order of texts by code points is total, and texts with the same code points are equal.
use Prim.Native.Char.{code}
use Prim.Native.Nat.{ℕ}
use Prim.Native.String.{String}
use text.Mathlib.Text.{◌==◌}
use text.Mathlib.TextEquality.{Char-path, eq_iff}
use mathlib.Core.Path.{◌≡◌, refl, ap, ◌∙◌}
use mathlib.Core.Logic.{inl, inr}
use mathlib.Core.Bool.{true, false, not, ◌&&◌, ◌||◌}
use mathlib.Core.List.{List, [], ◌∷◌}
use native.Mathlib.Omega.{arith}
use an_kla_memory.Base.Tests.{ltb, eqb, Bool-cases}
use an_kla_memory.Base.Text.{codes, text_le, str_le}

text_le-cons :
    (x y : ℕ) (xs ys : List ℕ) → text_le (x ∷ xs) (y ∷ ys) ≡ ltb x y || eqb x y && text_le xs ys
text_le-cons x y xs ys = ground arith

pub text_le_total : (xs ys : List ℕ) → text_le xs ys || text_le ys xs ≡ true
text_le_total [] ys = refl
text_le_total (x ∷ xs) [] = refl
text_le_total (x ∷ xs) (y ∷ ys) =
    ground (arith, text_le_total xs ys, text_le-cons x y xs ys, text_le-cons y x ys xs)

pub text_le_trans :
    (xs ys zs : List ℕ) → text_le xs ys ≡ true → text_le ys zs ≡ true → text_le xs zs ≡ true
text_le_trans [] ys zs h k = refl
text_le_trans (x ∷ xs) [] zs h k = cc
text_le_trans (x ∷ xs) (y ∷ ys) [] h k = cc
text_le_trans (x ∷ xs) (y ∷ ys) (z ∷ zs) h k = ground (
  arith,
  text_le_trans xs ys zs,
  text_le-cons x y xs ys,
  text_le-cons y z ys zs,
  text_le-cons x z xs zs,
)

text_le-both :
    (x y : ℕ) (xs ys : List ℕ)
    → text_le (x ∷ xs) (y ∷ ys) ≡ true
    → text_le (y ∷ ys) (x ∷ xs) ≡ true
    → (x ≡ y) × (text_le xs ys ≡ true) × (text_le ys xs ≡ true)
text_le-both x y xs ys h k = ground (arith, text_le-cons x y xs ys, text_le-cons y x ys xs)

str_le_antisym : (s t : String) → str_le s t ≡ true → str_le t s ≡ true → s ≡ t
str_le_antisym String.[] String.[] h k = refl
str_le_antisym String.[] (String.◌∷◌ d t) h k = cc
str_le_antisym (String.◌∷◌ c s) String.[] h k = cc
str_le_antisym (String.◌∷◌ c s) (String.◌∷◌ d t) h k =
    let (first, forth, back) = text_le-both (code c) (code d) (codes s) (codes t) h k in
    ap (λ e. String.◌∷◌ e s) (Char-path c d first)
    ∙ ap (λ u. String.◌∷◌ d u) (str_le_antisym s t forth back)

-- Of two different texts one is below the other.
pub str_le_flips : (s t : String) → (s == t) ≡ false → str_le t s ≡ not (str_le s t)
str_le_flips s t differ = elim (Bool-cases (str_le s t)) [
  | inl e ↦ elim (Bool-cases (str_le t s)) [
    | inl back ↦ cc ((eq_iff s t).1 (str_le_antisym s t e back))
    | inr back ↦ rw (e, back) refl
  ]
  | inr e ↦ ground (arith, text_le_total (codes s) (codes t))
]
