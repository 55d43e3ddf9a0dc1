-- ===== src/Canonical/KeyOrder.antt =====
-- Canonical JSON does not see the order of the keys.
use mathlib.Core.Quot
use mathlib.Core.Quot.{Quot}
use text.Mathlib.TextEquality.{IsScalar-prop}
use an_kla_memory.Canonical.{digest_bytes}
use an_kla_memory.Base.{String, ◌<>◌, ◌==◌, ◌≡◌, refl, sym, ap, ◌∙◌, true, false, List, [], ◌∷◌}
use an_kla_memory.Base.{map, Bool-cases, inl, inr, Result, ok, err, value_error}
use an_kla_memory.Base.{◌>>=◌}
use an_kla_memory.Base.Text.{str_le, join, codes}
use an_kla_memory.Base.TextOrder.{str_le_flips, text_le_trans}
use an_kla_memory.Json.{Json, Items, Fields, null, bool, num, real, not_finite, str, arr, obj}
use an_kla_memory.Json.{nil, cons, end, field}
use an_kla_memory.Canonical.{Member, insert_member, member_text, canonical_json, render_items}
use an_kla_memory.Canonical.{render_fields, digest_json}

-- A key below one of two others is below the other, if that is below none of them.
not_below : (j k n : String) → str_le j n ≡ true → str_le k n ≡ false → str_le k j ≡ false
not_below j k n h h' = elim (Bool-cases (str_le k j)) [
  | inl e ↦ cc (text_le_trans (codes k) (codes j) (codes n) e h)
  | inr e ↦ e
]

-- Members with different keys are inserted in either order.
insert_member_comm :
    (a b : Member) (ms : List Member)
    → (a.0 == b.0) ≡ false
    → insert_member a (insert_member b ms) ≡ insert_member b (insert_member a ms)
unfolding insert_member
insert_member_comm a b [] differ = elim (Bool-cases (str_le a.0 b.0)) [
  | inl e ↦ rw (str_le_flips a.0 b.0 differ, e) refl
  | inr e ↦ rw (str_le_flips a.0 b.0 differ, e) refl
]
insert_member_comm a b (n ∷ ns) differ = elim (Bool-cases (str_le a.0 n.0)) [
  | inl ea ↦ elim (Bool-cases (str_le b.0 n.0)) [
    | inl eb ↦ elim (Bool-cases (str_le a.0 b.0)) [
      | inl e ↦ simp (ea, eb, str_le_flips a.0 b.0 differ, e) refl
      | inr e ↦ simp (ea, eb, str_le_flips a.0 b.0 differ, e) refl
    ]
    | inr eb ↦ simp (ea, eb, not_below a.0 b.0 n.0 ea eb) refl
  ]
  | inr ea ↦ elim (Bool-cases (str_le b.0 n.0)) [
    | inl eb ↦ simp (ea, eb, not_below b.0 a.0 n.0 eb ea) refl
    | inr eb ↦ simp (ea, eb) (ap (λ l. n ∷ l) (insert_member_comm a b ns differ))
  ]
]

-- The same value but for the order of the keys, at any depth.
mutual
  pub data Reordered : Json → Json → Type 0 where
    same : (v : Json) → Reordered v v
    items : {xs ys : Items} → ReorderedItems xs ys → Reordered (arr xs) (arr ys)
    members : {fs gs : Fields} → ReorderedFields fs gs → Reordered (obj fs) (obj gs)

  pub data ReorderedItems : Items → Items → Type 0 where
    no_items : ReorderedItems nil nil
    next_item :
        {v w : Json} {xs ys : Items}
        → Reordered v w
        → ReorderedItems xs ys
        → ReorderedItems (cons v xs) (cons w ys)

  -- `swap` exchanges two neighbours.
  pub data ReorderedFields : Fields → Fields → Type 0 where
    no_members : ReorderedFields end end
    next_member :
        (k : String) {v w : Json} {fs gs : Fields}
        → Reordered v w
        → ReorderedFields fs gs
        → ReorderedFields (field k v fs) (field k w gs)
    swap :
        (j k : String) (v w : Json) (fs : Fields)
        → (j == k) ≡ false
        → ReorderedFields (field j v (field k w fs)) (field k w (field j v fs))
    chain :
        {fs gs hs : Fields} → ReorderedFields fs gs → ReorderedFields gs hs → ReorderedFields fs hs

-- The one exception that a rendering raises.
abbrev RaisesOnce {ℓ} : {A : Type ℓ} → Result A → Type 0
RaisesOnce (err e) = e ≡ value_error "not_json_compliant"
RaisesOnce (ok a) = Unit

bind_once {ℓ κ} :
    {A : Type ℓ} {B : Type κ} (m : Result A) (next : A → Result B)
    → RaisesOnce m
    → ((a : A) → RaisesOnce (next a))
    → RaisesOnce (m >>= next)
bind_once (err e) next h k = h
bind_once (ok a) next h k = k a

mutual
  unfolding canonical_json

  canonical_json_once : (v : Json) → RaisesOnce (canonical_json v)
  canonical_json_once null = tt
  canonical_json_once (bool true) = tt
  canonical_json_once (bool false) = tt
  canonical_json_once (num n) = tt
  canonical_json_once (real r) = tt
  canonical_json_once not_finite = refl
  canonical_json_once (str s) = tt
  canonical_json_once (arr xs) = bind_once (render_items xs) _ (items_once xs) (λ ts. tt)
  canonical_json_once (obj fs) = bind_once (render_fields fs) _ (fields_once fs) (λ ms. tt)

  items_once : (xs : Items) → RaisesOnce (render_items xs)
  items_once nil = tt
  items_once (cons x xs) =
      bind_once (canonical_json x) _ (canonical_json_once x)
        (λ t. bind_once (render_items xs) _ (items_once xs) (λ ts. tt))

  fields_once : (fs : Fields) → RaisesOnce (render_fields fs)
  fields_once end = tt
  fields_once (field k v fs) =
      bind_once (canonical_json v) _ (canonical_json_once v)
        (λ t. bind_once (render_fields fs) _ (fields_once fs) (λ ms. tt))

-- Two members are rendered and inserted in either order.
insert_both_comm :
    (j k : String) (x y : Result String) (z : Result (List Member))
    → RaisesOnce x
    → RaisesOnce y
    → (j == k) ≡ false
    → (x >>= λ t. (y >>= λ u. z >>= λ ms. ok (insert_member (k, u) ms)) >>= λ ms.
        ok (insert_member (j, t) ms))
      ≡ (y >>= λ u. (x >>= λ t. z >>= λ ms. ok (insert_member (j, t) ms)) >>= λ ms.
          ok (insert_member (k, u) ms))
insert_both_comm j k (err e) (err e') z h h' differ = ap err (h ∙ sym h')
insert_both_comm j k (err e) (ok u) z h h' differ = refl
insert_both_comm j k (ok t) (err e) z h h' differ = refl
insert_both_comm j k (ok t) (ok u) (err e) h h' differ = refl
insert_both_comm j k (ok t) (ok u) (ok ms) h h' differ =
    ap ok (insert_member_comm (j, t) (k, u) ms differ)

mutual
  unfolding canonical_json

  -- Canonical JSON, its exception included, is the same for values that differ in the order of
  -- their keys only.
  pub canonical_json-Reordered : {v w : Json} → Reordered v w → canonical_json v ≡ canonical_json w
  canonical_json-Reordered (same v) = refl
  canonical_json-Reordered (items r) =
      ap (λ m. m >>= λ ts. ok ("[" <> (join "," ts <> "]"))) (render_items-Reordered r)
  canonical_json-Reordered (members r) =
      ap (λ m. m >>= λ ms. ok ("{" <> (join "," (map member_text ms) <> "}")))
        (render_fields-Reordered r)

  render_items-Reordered :
      {xs ys : Items} → ReorderedItems xs ys → render_items xs ≡ render_items ys
  render_items-Reordered no_items = refl
  render_items-Reordered (next_item r rs) =
      rw (canonical_json-Reordered r, render_items-Reordered rs) refl

  render_fields-Reordered :
      {fs gs : Fields} → ReorderedFields fs gs → render_fields fs ≡ render_fields gs
  render_fields-Reordered no_members = refl
  render_fields-Reordered (next_member k r rs) =
      rw (canonical_json-Reordered r, render_fields-Reordered rs) refl
  render_fields-Reordered (swap j k v w fs differ) =
      insert_both_comm j k (canonical_json v) (canonical_json w) (render_fields fs)
        (canonical_json_once v) (canonical_json_once w) differ
  render_fields-Reordered (chain r s) = render_fields-Reordered r ∙ render_fields-Reordered s

-- The values, the order of their keys forgotten.
abbrev pub Value : Type 0
Value = Quot Reordered

abbrev pub value_of : Json → Value
value_of v = Quot.mk v

pub Result_set : IsSet (Result String)
Result_set = hlevel (IsScalar-prop)

module _ (sha256 : String → String) where
  pub digest_json-Reordered :
      (v w : Json) → Reordered v w → digest_json sha256 v ≡ digest_json sha256 w
  unfolding digest_json
  digest_json-Reordered v w r =
      ap (λ m. m >>= λ t. ok (digest_bytes sha256 t)) (canonical_json-Reordered r)

  -- The identifier of a value in a content-addressed store.
  unfoldable pub identifier : Value → Result String
  identifier = Quot.lift Result_set (digest_json sha256) digest_json-Reordered

  -- Values that are the same when the order of their keys is forgotten, at any depth, have the
  -- same digest, or both raise the exception of a value that has no canonical text.
  pub digest_json-Value :
      (v w : Json) → value_of v ≡ value_of w → digest_json sha256 v ≡ digest_json sha256 w
  unfolding identifier
  digest_json-Value v w e = ap identifier e
