-- ===== src/Json/Limits.antt =====
-- `_validate_json_value` of an_kla/write_policy.py: the limits on nodes and depth.
use Prim.Native.Nat.{max}
use an_kla_memory.Base.{ℕ, suc, ◌+◌, ◌≤◌, ◌≡◌, Bool, true, false, ◌&&◌, ◌||◌, Result, ok, err}
use an_kla_memory.Base.{
  inl, inr, Bool-cases, leb→le, Error, raise_if, ltb, leb, if◌then◌else◌, arith, ◌>>=◌, ◌>>◌,
}
use an_kla_memory.Json.{Json, Items, Fields, null, bool, num, real, not_finite, str, arr, obj}
use an_kla_memory.Json.{nil, cons, end, field}

abbrev pub max_json_depth : ℕ
max_json_depth = 64

abbrev pub max_json_nodes : ℕ
max_json_nodes = 10000

module _ (e : Error) where
  -- The counter goes up, and the limits are tested, before the value is looked at.
  abbrev enter : ℕ → ℕ → Result ℕ
  enter nodes depth =
      raise_if (ltb max_json_nodes (suc nodes) || ltb max_json_depth depth) e >> ok (suc nodes)

  -- `visit(item, depth)` with the counter `nodes` passed on. Each failure raises the same error,
  -- so the order in which the values of a dict are visited does not show.
  unfoldable mutual
    pub visit : Json → ℕ → ℕ → Result ℕ
    visit null nodes depth = enter nodes depth
    visit (bool b) nodes depth = enter nodes depth
    visit (num n) nodes depth = enter nodes depth
    visit (real r) nodes depth = enter nodes depth
    visit not_finite nodes depth = enter nodes depth >>= λ _. err e
    visit (str s) nodes depth = enter nodes depth
    visit (arr xs) nodes depth = enter nodes depth >>= λ n. visit_items xs n (suc depth)
    visit (obj fs) nodes depth = enter nodes depth >>= λ n. visit_fields fs n (suc depth)

    visit_items : Items → ℕ → ℕ → Result ℕ
    visit_items nil nodes depth = ok nodes
    visit_items (cons x xs) nodes depth = visit x nodes depth >>= λ n. visit_items xs n depth

    visit_fields : Fields → ℕ → ℕ → Result ℕ
    visit_fields end nodes depth = ok nodes
    visit_fields (field k v fs) nodes depth = visit v nodes depth >>= λ n. visit_fields fs n depth

-- How many values a value holds, itself included.
unfoldable mutual
  pub size : Json → ℕ
  size (arr xs) = suc (size_items xs)
  size (obj fs) = suc (size_fields fs)
  size _ = 1

  pub size_fields : Fields → ℕ
  size_fields end = 0
  size_fields (field k v fs) = size v + size_fields fs

  pub size_items : Items → ℕ
  size_items nil = 0
  size_items (cons x xs) = size x + size_items xs

-- How deep a value is nested.
unfoldable mutual
  pub height : Json → ℕ
  height (arr xs) = height_items xs
  height (obj fs) = height_fields fs
  height _ = 0

  pub height_items : Items → ℕ
  height_items nil = 0
  height_items (cons x xs) = max (suc (height x)) (height_items xs)

  pub height_fields : Fields → ℕ
  height_fields end = 0
  height_fields (field k v fs) = max (suc (height v)) (height_fields fs)

-- No NaN and no infinity stands in the value.
unfoldable mutual
  pub finite : Json → Bool
  finite not_finite = false
  finite (arr xs) = finite_items xs
  finite (obj fs) = finite_fields fs
  finite _ = true

  pub finite_items : Items → Bool
  finite_items nil = true
  finite_items (cons x xs) = finite x && finite_items xs

  pub finite_fields : Fields → Bool
  finite_fields end = true
  finite_fields (field k v fs) = finite v && finite_fields fs

-- The limits, stated by size and height.
abbrev pub within : Bool → ℕ → ℕ → Bool
within fin nodes depth = fin && (leb nodes max_json_nodes && leb depth max_json_depth)

abbrev pub fits : Json → Bool
fits x = within (finite x) (size x) (height x)

module _ (e : Error) where
  abbrev outcome : Bool → ℕ → Result ℕ
  outcome accepted n = if accepted then ok n else err e

  -- A container: the limits at its own node, then its children.
  visit_wrap :
      (fin : Bool) (s h n d : ℕ) (k : ℕ → Result ℕ)
      → (suc n ≤ max_json_nodes
          → d ≤ max_json_depth
          → k (suc n) ≡ outcome (within fin (suc n + s) (d + h)) (suc n + s))
      → (enter e n d >>= k) ≡ outcome (within fin (n + suc s) (d + h)) (n + suc s)
  visit_wrap fin s h n d k inner = elim (Bool-cases (ltb max_json_nodes (suc n))) [
    | inl many ↦ ground arith
    | inr few ↦ elim (Bool-cases (ltb max_json_depth d)) [
      | inl deep ↦ ground arith
      | inr flat ↦
          let same : suc n + s ≡ n + suc s = omega arith in
          rw (few, flat) (rw same at (inner (ground arith) (ground arith)))
    ]
  ]

  -- One child, then the others.
  visit_chain :
      (f₁ f₂ : Bool) (s₁ s₂ h₁ h₂ n d : ℕ) (m : Result ℕ) (k : ℕ → Result ℕ)
      → m ≡ outcome (within f₁ (n + s₁) (suc d + h₁)) (n + s₁)
      → (n + s₁ ≤ max_json_nodes
          → k (n + s₁) ≡ outcome (within f₂ (n + s₁ + s₂) (d + h₂)) (n + s₁ + s₂))
      → (m >>= k)
        ≡ outcome (within (f₁ && f₂) (n + (s₁ + s₂)) (d + max (suc h₁) h₂)) (n + (s₁ + s₂))
  visit_chain false f₂ s₁ s₂ h₁ h₂ n d m k first next = rw first
  visit_chain true f₂ s₁ s₂ h₁ h₂ n d m k first next =
      elim (Bool-cases (leb (n + s₁) max_json_nodes)) [
        | inl few ↦ elim (Bool-cases (leb (suc d + h₁) max_json_depth)) [
          | inl flat ↦ rw first (rw (few, flat) (ground (arith, next (leb→le _ _ few))))
          | inr deep ↦ rw first (rw (few, deep) (ground arith))
        ]
        | inr many ↦ rw first (rw many (ground arith))
      ]

  mutual
    unfolding visit size height finite

    visit-within :
        (x : Json) (n d : ℕ)
        → visit e x n d ≡ outcome (within (finite x) (n + size x) (d + height x)) (n + size x)
    visit-within null n d = ground arith
    visit-within (bool b) n d = ground arith
    visit-within (num k) n d = ground arith
    visit-within (real r) n d = ground arith
    visit-within not_finite n d = ground arith
    visit-within (str s) n d = ground arith
    visit-within (arr xs) n d =
        visit_wrap (finite_items xs) (size_items xs) (height_items xs) n d _
          (visit_items-within xs (suc n) d)
    visit-within (obj fs) n d =
        visit_wrap (finite_fields fs) (size_fields fs) (height_fields fs) n d _
          (visit_fields-within fs (suc n) d)

    visit_items-within :
        (xs : Items) (n d : ℕ)
        → n ≤ max_json_nodes
        → d ≤ max_json_depth
        → visit_items e xs n (suc d)
          ≡ outcome
              (within (finite_items xs) (n + size_items xs) (d + height_items xs))
              (n + size_items xs)
    visit_items-within nil n d hn hd = ground arith
    visit_items-within (cons x xs) n d hn hd =
        visit_chain (finite x) (finite_items xs) (size x) (size_items xs) (height x)
          (height_items xs) n d _ _ (visit-within x n (suc d))
          (λ few. visit_items-within xs (n + size x) d few hd)

    visit_fields-within :
        (fs : Fields) (n d : ℕ)
        → n ≤ max_json_nodes
        → d ≤ max_json_depth
        → visit_fields e fs n (suc d)
          ≡ outcome
              (within (finite_fields fs) (n + size_fields fs) (d + height_fields fs))
              (n + size_fields fs)
    visit_fields-within end n d hn hd = ground arith
    visit_fields-within (field k v fs) n d hn hd =
        visit_chain (finite v) (finite_fields fs) (size v) (size_fields fs) (height v)
          (height_fields fs) n d _ _ (visit-within v n (suc d))
          (λ few. visit_fields-within fs (n + size v) d few hd)

  -- The counting traversal accepts exactly the finite values of at most 10,000 nodes nested at
  -- most 64 deep, whatever the nesting, and counts the nodes; any other value raises `e`.
  pub visit-fits : (x : Json) → visit e x 0 0 ≡ (if fits x then ok (size x) else err e)
  visit-fits x = ground (arith, visit-within x 0 0)
