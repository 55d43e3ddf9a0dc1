-- ===== src/Canonical/Parts.antt =====
-- The parts of a value that has canonical text have it too.
use an_kla_memory.Base.{
  ap, true, false, String, ◌==◌, ◌≡◌, refl, Bool, Option, none, some, if◌then◌else◌,
}
use an_kla_memory.Base.{Result, ok, ◌>>=◌, >>=-eq-ok, List}
use an_kla_memory.Base.{◌<>◌, ◌&&◌, [], ◌∷◌, map, arith}
use an_kla_memory.Base.Text.{join}
use an_kla_memory.Canonical.{render_items, member_text}
use an_kla_memory.Json.{bool, num, real, str, arr, not_finite, Items, nil, cons}
use an_kla_memory.Json.{Json, Fields, end, field, obj, null, lookup, get}
use an_kla_memory.Canonical.{
  digest_bytes, canonical_json, render_fields, digest_json, insert_member, Member,
}

-- The value of the one or the other.
pick :
    (b : Bool) (v : Json) (rest : Option Json) {t u : String}
    → canonical_json v ≡ ok t
    → canonical_json (elim rest [ none ↦ null | some w ↦ w ]) ≡ ok u
    → (x : String) × (canonical_json
          (elim (if b then some v else rest) [ none ↦ null | some w ↦ w ])
        ≡ ok x)
pick true v rest {t} h k = (t, h)
pick false v rest {u = u} h k = (u, k)

render_fields-get :
    (k : String) (fs : Fields) (ms : List Member)
    → render_fields fs ≡ ok ms
    → (t : String) × (canonical_json (get fs k) ≡ ok t)
unfolding render_fields canonical_json
render_fields-get k end ms h = ("null", refl)
render_fields-get k (field j v fs) ms h =
    let (t, h1, e1) = >>=-eq-ok (canonical_json v) _ h in
    let (ns, h2, e2) = >>=-eq-ok (render_fields fs) _ h1 in
    let (u, found) = render_fields-get k fs ns e2 in pick (j == k) v (lookup k fs) e1 found

-- A member that is asked for by `get` has a digest if the dict has one.
pub digest_json-get :
    (sha256 : String → String) (k : String) (fs : Fields) {s : String}
    → digest_json sha256 (obj fs) ≡ ok s
    → (t : String) × (digest_json sha256 (get fs k) ≡ ok t)
unfolding digest_json canonical_json
digest_json-get sha256 k fs h =
    let (t, h1, e1) = >>=-eq-ok (canonical_json (obj fs)) _ h in
    let (ms, h2, e2) = >>=-eq-ok (render_fields fs) _ e1 in
    let (u, e3) = render_fields-get k fs ms e2 in
    (digest_bytes sha256 u, ap (λ r. r >>= λ x. ok (digest_bytes sha256 x)) e3)

-- No NaN and no infinity stands in the value.
unfoldable mutual
  pub is_finite : Json → Bool
  is_finite not_finite = false
  is_finite (arr xs) = items_finite xs
  is_finite (obj fs) = fields_finite fs
  is_finite _ = true

  items_finite : Items → Bool
  items_finite nil = true
  items_finite (cons x xs) = is_finite x && items_finite xs

  fields_finite : Fields → Bool
  fields_finite end = true
  fields_finite (field k v fs) = is_finite v && fields_finite fs

abbrev HasText {ℓ} : {A : Type ℓ} → Result A → Type ℓ
HasText {A = A} r = (t : A) × (r ≡ ok t)

and_then : (a b : Bool) → (a && b) ≡ true → (a ≡ true) × (b ≡ true)
and_then a b h = ground arith

-- Only NaN and the infinities have no canonical text.
mutual
  unfolding is_finite canonical_json

  pub canonical_json-is_finite : (v : Json) → is_finite v ≡ true → HasText (canonical_json v)
  canonical_json-is_finite null h = (_, refl)
  canonical_json-is_finite (bool true) h = (_, refl)
  canonical_json-is_finite (bool false) h = (_, refl)
  canonical_json-is_finite (num n) h = (_, refl)
  canonical_json-is_finite (real r) h = (_, refl)
  canonical_json-is_finite not_finite h = cc
  canonical_json-is_finite (str s) h = (_, refl)
  canonical_json-is_finite (arr xs) h =
      let (ts, e) = items-is_finite xs h in
      (_, ap (λ r. r >>= λ ts. ok ("[" <> (join "," ts <> "]"))) e)
  canonical_json-is_finite (obj fs) h =
      let (ms, e) = fields-is_finite fs h in
      (_, ap (λ r. r >>= λ ms. ok ("{" <> (join "," (map member_text ms) <> "}"))) e)

  items-is_finite : (xs : Items) → items_finite xs ≡ true → HasText (render_items xs)
  items-is_finite nil h = ([], refl)
  items-is_finite (cons x xs) h =
      let (first, later) = and_then (is_finite x) (items_finite xs) h in
      let (t, e) = canonical_json-is_finite x first in
      let (ts, es) = items-is_finite xs later in (t ∷ ts, rw (e, es) refl)

  fields-is_finite : (fs : Fields) → fields_finite fs ≡ true → HasText (render_fields fs)
  fields-is_finite end h = ([], refl)
  fields-is_finite (field k v fs) h =
      let (first, later) = and_then (is_finite v) (fields_finite fs) h in
      let (t, e) = canonical_json-is_finite v first in
      let (ms, es) = fields-is_finite fs later in (insert_member (k, t) ms, rw (e, es) refl)

pub digest_json-is_finite :
    (sha256 : String → String) (v : Json)
    → is_finite v ≡ true
    → (s : String) × (digest_json sha256 v ≡ ok s)
unfolding digest_json
digest_json-is_finite sha256 v h =
    let (t, e) = canonical_json-is_finite v h in
    (digest_bytes sha256 t, ap (λ r. r >>= λ x. ok (digest_bytes sha256 x)) e)
