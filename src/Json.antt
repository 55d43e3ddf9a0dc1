-- ===== src/Json.antt =====
-- JSON values as the program holds them after `json.loads`: a `dict` is its list of fields in
-- insertion order, with texts for keys.
pub mod Equal
pub mod Limits
mod Tests
use an_kla_memory.Base.{String, ◌==◌, Bool, true, false, not, Option, none, some, List, [], ◌∷◌}
use an_kla_memory.Base.{if◌then◌else◌, Result, ok, err, key_error, type_error, member}
use an_kla_memory.Base.Int.{ℤ, pos, negsuc}
use an_kla_memory.Base.{◌||◌, eqb}

mutual
  -- `real r` is a finite `float` whose `repr` is `r`; `not_finite` is NaN or an infinity.
  pub data Json : Type 0 where
    null : Json
    bool : Bool → Json
    num : ℤ → Json
    real : String → Json
    not_finite : Json
    str : String → Json
    arr : Items → Json
    obj : Fields → Json

  pub data Fields : Type 0 where
    end : Fields
    field : String → Json → Fields → Fields

  pub data Items : Type 0 where
    nil : Items
    cons : Json → Items → Items

abbrev pub to_list : Items → List Json
to_list nil = []
to_list (cons x xs) = x ∷ to_list xs

abbrev pub of_list : List Json → Items
of_list [] = nil
of_list (x ∷ xs) = cons x (of_list xs)

-- A list of texts as a JSON list.
abbrev pub texts : List String → Items
texts [] = nil
texts (s ∷ ss) = cons (str s) (texts ss)

abbrev pub lookup : String → Fields → Option Json
lookup k end = none
lookup k (field j v fs) = if j == k then some v else lookup k fs

abbrev pub keys : Fields → List String
keys end = []
keys (field j v fs) = j ∷ keys fs

-- `k in value`
abbrev pub has : String → Fields → Bool
has k fs = elim (lookup k fs) [ none ↦ false | some v ↦ true ]

-- `value.get(k)`
abbrev pub get : Fields → String → Json
get fs k = elim (lookup k fs) [ none ↦ null | some v ↦ v ]

-- `value[k]`
abbrev pub item : Fields → String → Result Json
item fs k = elim (lookup k fs) [ none ↦ err key_error | some v ↦ ok v ]

-- `value[k] = v` on a dict, also the last one of `{**value, k: v}`
abbrev pub put : String → Json → Fields → Fields
put k v end = field k v end
put k v (field j w fs) = if j == k then field j v fs else field j w (put k v fs)

-- `isinstance(value, str)`, with its value.
abbrev pub as_str : Json → Option String
as_str (str s) = some s
as_str _ = none

-- `isinstance(value, str) and value`
abbrev pub is_text : Json → Bool
is_text (str s) = not (s == "")
is_text _ = false

-- `value == s` for a text `s`
abbrev pub is_str : String → Json → Bool
is_str s (str t) = t == s
is_str s _ = false

-- `value in {...}`, a set of texts: lists and dicts have no hash, which is a `TypeError`.
abbrev pub in_set : List String → Json → Result Bool
in_set set (str s) = ok (member s set)
in_set set (arr xs) = err type_error
in_set set (obj fs) = err type_error
in_set set _ = ok false

-- `bool(value)`
abbrev pub is_truthy : Json → Bool
is_truthy null = false
is_truthy (bool b) = b
is_truthy (num (pos n)) = not (eqb n 0)
is_truthy (num (negsuc n)) = true
is_truthy (real r) = not (r == "0.0" || r == "-0.0")
is_truthy not_finite = true
is_truthy (str s) = not (s == "")
is_truthy (arr nil) = false
is_truthy (arr (cons x xs)) = true
is_truthy (obj end) = false
is_truthy (obj (field k v fs)) = true
