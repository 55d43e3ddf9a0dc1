-- ===== src/Json/Equal.antt =====
-- Python's `==` on JSON values: dicts compare without regard to the order of their keys.
use an_kla_memory.Base.{
  String, ◌==◌, Bool, true, false, ◌&&◌, none, some, length, eqb, ◌≡◌, refl, sym, ap, ◌∙◌, arith,
  Option, Bool-cases, inl, inr, eq_iff,
}
use an_kla_memory.Json.{Json, Fields, Items, end, field, nil, cons, null, str, arr, obj, bool, num}
use an_kla_memory.Json.{lookup, keys, real, not_finite}

-- `same_number` is the interpreter's `==` where a value is a number or a Boolean: `1 == 1.0` and
-- `1 == True` hold.
module _ (same_number : Json → Json → Bool) where
  unfoldable mutual
    pub equal : Json → Json → Bool
    equal null null = true
    equal (str s) (str t) = s == t
    equal (arr xs) (arr ys) = equal_items xs ys
    equal (obj fs) (obj gs) = within fs gs && eqb (length (keys fs)) (length (keys gs))
    equal (bool b) w = same_number (bool b) w
    equal (num n) w = same_number (num n) w
    equal (real r) w = same_number (real r) w
    equal not_finite w = same_number not_finite w
    equal _ _ = false

    equal_items : Items → Items → Bool
    equal_items nil nil = true
    equal_items (cons x xs) (cons y ys) = equal x y && equal_items xs ys
    equal_items _ _ = false

    -- Every member of the one is one of the other.
    within : Fields → Fields → Bool
    within end gs = true
    within (field k v fs) gs =
        let here : Bool = elim (lookup k gs) [ none ↦ false | some w ↦ equal v w ] in
        here && within fs gs

and_left : (a b : Bool) → (a && b) ≡ true → (a ≡ true) × (b ≡ true)
and_left a b h = ground arith

some_inj : {a b : Json} → some a ≡ some b → a ≡ b
some_inj h = cc

module _ (same_number : Json → Json → Bool) where
  found_equal :
      (o : Option Json) (v : Json)
      → elim o [ none ↦ false | some w ↦ equal same_number v w ] ≡ true
      → (w : Json) × (o ≡ some w) × (equal same_number v w ≡ true)
  found_equal none v h = cc
  found_equal (some w) v h = (w, refl, h)

  -- A member of a dict has an equal one in a dict that holds it.
  within-lookup :
      (k : String) (v : Json) (fs gs : Fields)
      → within same_number fs gs ≡ true
      → lookup k fs ≡ some v
      → (w : Json) × (lookup k gs ≡ some w) × (equal same_number v w ≡ true)
  unfolding within
  within-lookup k v end gs h found = cc
  within-lookup k v (field j u fs) gs h found =
      let (here, later) = and_left _ _ h in
      elim (Bool-cases (j == k)) [
        | inl e ↦
            let same : u ≡ v = some_inj (rw e at found) in
            let (w, o, eq) = found_equal (lookup j gs) u here in
            (
              w,
              ap (λ i. lookup i gs) (sym ((eq_iff j k).0 e)) ∙ o,
              ap (λ x. equal same_number x w) (sym same) ∙ eq,
            )
        | inr e ↦ within-lookup k v fs gs later (rw e at found)
      ]

  -- A member of a dict has an equal one in an equal dict.
  pub equal-lookup :
      (k : String) (v : Json) (fs gs : Fields)
      → equal same_number (obj fs) (obj gs) ≡ true
      → lookup k fs ≡ some v
      → (w : Json) × (lookup k gs ≡ some w) × (equal same_number v w ≡ true)
  unfolding equal
  equal-lookup k v fs gs h found =
      within-lookup k v fs gs (and_left (within same_number fs gs) _ h).0 found
