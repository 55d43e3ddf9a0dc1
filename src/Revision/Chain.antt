-- ===== src/Revision/Chain.antt =====
-- What a walk over the chain of revisions has seen, and that it ends.
use an_kla_memory.Base.{
  ℕ, zero, suc, ◌<◌, ◌≡◌, ◌≢◌, refl, ap, sym, ◌∙◌, String, Bool, true, false, not, ◌||◌,
}
use an_kla_memory.Base.{Option, none, some, List, [], ◌∷◌, member}
use an_kla_memory.Base.{
  Error, revision_walk, raise_if-eq-ok, >>-eq-ok, >>=-eq-ok, Result, ok, err, raise_if, ◌>>=◌, ◌>>◌,
  arith, inl, inr, ◌⊎◌,
}
use an_kla_memory.Base.Int.{pos, negsuc}
use an_kla_memory.Json.{Json, Fields, null, bool, num, real, not_finite, str, arr, obj, get}
use an_kla_memory.Canonical.Identifiers.{bare_digest}
use an_kla_memory.Revision.Walk.{finished, out_of_fuel, raised, revision_number, is_below}
use an_kla_memory.Revision.Walk.{
  is_schema, parent_in, check_numbered, check_manifest, visit_revision, walk, rounds,
  walk_revisions,
}

-- The reference from a manifest to its parent.
abbrev pub parent_value : Option String → Json
parent_value none = null
parent_value (some parent) = str parent

-- A computed result, with its equation.
pub Result-cases {ℓ} :
    {A : Type ℓ} (r : Result A) → ((a : A) × (r ≡ ok a)) ⊎ ((e : _) × (r ≡ err e))
Result-cases (ok a) = inl (a, refl)
Result-cases (err e) = inr (e, refl)

-- What a manifest that was accepted is.
pub record Accepted (child : Option ℕ) (value : Json) (manifest : Fields) (n : ℕ)
    (parent : Option String) : Type 0 where
  pub whole : value ≡ obj manifest
  pub numbered : get manifest "revision" ≡ num (pos n)
  pub below : is_below child n ≡ true
  pub linked : get manifest "parent" ≡ parent_value parent

parent_in-eq-ok :
    (schema : Json) (n : ℕ) (value : Json) {parent : Option String}
    → parent_in schema n value ≡ ok parent
    → value ≡ parent_value parent
unfolding parent_in
parent_in-eq-ok schema n null h = let found = >>-eq-ok _ (ok none) h in cc (found.1)
parent_in-eq-ok schema n (str p) h =
    let found = >>-eq-ok _ (bare_digest p >>= λ bare. ok (some p)) h in
    let (bare, built, _) = >>=-eq-ok (bare_digest p) (λ bare. ok (some p)) found.1 in cc built
parent_in-eq-ok schema n (bool b) h = cc
parent_in-eq-ok schema n (num k) h = cc
parent_in-eq-ok schema n (real r) h = cc
parent_in-eq-ok schema n not_finite h = cc
parent_in-eq-ok schema n (arr xs) h = cc
parent_in-eq-ok schema n (obj fs) h = cc

revision_number-eq-some :
    (value : Json) {n : ℕ} → revision_number value ≡ some n → value ≡ num (pos n)
revision_number-eq-some (num (pos k)) h = cc
revision_number-eq-some (num (negsuc k)) h = cc
revision_number-eq-some null h = cc
revision_number-eq-some (str s) h = cc
revision_number-eq-some (bool b) h = cc
revision_number-eq-some (real r) h = cc
revision_number-eq-some not_finite h = cc
revision_number-eq-some (arr xs) h = cc
revision_number-eq-some (obj fs) h = cc

numbered_below :
    (child : Option ℕ) (k : ℕ) {n : ℕ}
    → k ≡ n
    → (s : Bool) → raise_if (not s || not (is_below child k)) revision_walk ≡ ok tt
    → is_below child n ≡ true
numbered_below child k same s h = ground (arith, same)

check_numbered-eq-ok :
    (child : Option ℕ) (fs : Fields) (k : Option ℕ) {manifest : Fields} {n : ℕ}
    {parent : Option String}
    → check_numbered child fs k ≡ ok (manifest, n, parent)
    → (fs ≡ manifest)
      × (k ≡ some n)
      × (is_below child n ≡ true)
      × (get fs "parent" ≡ parent_value parent)
unfolding check_numbered
check_numbered-eq-ok child fs none h = cc
check_numbered-eq-ok child fs (some k) {parent = parent} h =
    let (checked, rest) =
      >>-eq-ok _ (parent_in (get fs "schema") k (get fs "parent") >>= λ found. ok (fs, k, found))
        h in
    let (found, built, linked) =
      >>=-eq-ok (parent_in (get fs "schema") k (get fs "parent")) (λ found. ok (fs, k, found))
        rest in
    let same : found ≡ parent = cc built in
    (
      cc built,
      cc built,
      numbered_below child k (cc built) (is_schema (get fs "schema")) checked,
      parent_in-eq-ok (get fs "schema") k (get fs "parent") linked ∙ ap parent_value same,
    )

check_manifest-Accepted :
    (child : Option ℕ) (value : Json) {manifest : Fields} {n : ℕ} {parent : Option String}
    → check_manifest child value ≡ ok (manifest, n, parent)
    → Accepted child value manifest n parent
unfolding check_manifest
check_manifest-Accepted child (obj fs) h =
    let (same, numbered, below, linked) =
      check_numbered-eq-ok child fs (revision_number (get fs "revision")) h in
    record {
      whole = ap obj same;
      numbered =
          ap (λ (m : Fields). get m "revision") (sym same)
          ∙ revision_number-eq-some (get fs "revision") numbered;
      below = below;
      linked = ap (λ (m : Fields). get m "parent") (sym same) ∙ linked;
    }
check_manifest-Accepted child null h = cc
check_manifest-Accepted child (num k) h = cc
check_manifest-Accepted child (str s) h = cc
check_manifest-Accepted child (bool b) h = cc
check_manifest-Accepted child (real r) h = cc
check_manifest-Accepted child not_finite h = cc
check_manifest-Accepted child (arr xs) h = cc

below_budget : (child n fuel : ℕ) → is_below (some child) n ≡ true → child < suc fuel → n < fuel
below_budget child n fuel h few = ground arith

module _ (read : String → Result Json) where
  pub record Visited (child : Option ℕ) (seen : List String) (cursor : String) (manifest : Fields)
      (n : ℕ) (parent : Option String) : Type 0 where
    pub fresh : member cursor seen ≡ false
    pub stored : read cursor ≡ ok (obj manifest)
    pub numbered : get manifest "revision" ≡ num (pos n)
    pub below : is_below child n ≡ true
    pub linked : get manifest "parent" ≡ parent_value parent

  abbrev visit_read : Option ℕ → List String → String → Result (Fields × ℕ × Option String)
  visit_read child seen cursor =
      raise_if (member cursor seen) revision_walk
      >> (read cursor >>= λ value. check_manifest child value)

  pub visit_revision-Visited :
      (child : Option ℕ) (seen : List String) (cursor : String) {manifest : Fields} {n : ℕ}
      {parent : Option String}
      → visit_revision read child seen cursor ≡ ok (manifest, n, parent)
      → Visited child seen cursor manifest n parent
  unfolding visit_revision
  visit_revision-Visited child seen cursor h =
      let (bare, checked, _) =
        >>=-eq-ok (bare_digest cursor) (λ bare. visit_read child seen cursor) h in
      let (fresh, found) =
        raise_if-eq-ok (member cursor seen) revision_walk
          (read cursor >>= λ value. check_manifest child value) checked in
      let (value, accepted, stored) =
        >>=-eq-ok (read cursor) (λ value. check_manifest child value) found in
      let a = check_manifest-Accepted child value accepted in
      record {
        fresh = fresh;
        stored = stored ∙ ap ok a.whole;
        numbered = a.numbered;
        below = a.below;
        linked = a.linked;
      }

  rounds-visited :
      (current : String) {manifest : Fields} {n : ℕ} {parent : Option String}
      → visit_revision read none [] current ≡ ok (manifest, n, parent)
      → rounds read current ≡ suc (suc n)
  rounds-visited current visited = rw (visited, rounds) refl

  -- One round that raises, that meets the root, and that goes on.
  pub walk-raised :
      (fuel : ℕ) (child : Option ℕ) (seen : List String) (cursor : String) {e : Error}
      → visit_revision read child seen cursor ≡ err e
      → walk read (suc fuel) child seen cursor ≡ ([], raised e)
  unfolding walk
  walk-raised fuel child seen cursor raising = rw (raising, walk) refl

  pub walk-root :
      (fuel : ℕ) (child : Option ℕ) (seen : List String) (cursor : String) {manifest : Fields}
      {n : ℕ}
      → visit_revision read child seen cursor ≡ ok (manifest, n, none)
      → walk read (suc fuel) child seen cursor ≡ ((cursor, manifest) ∷ [], finished)
  unfolding walk
  walk-root fuel child seen cursor root = rw (root, walk) refl

  pub walk-more :
      (fuel : ℕ) (child : Option ℕ) (seen : List String) (cursor : String) {manifest : Fields}
      {n : ℕ} {parent : String}
      → visit_revision read child seen cursor ≡ ok (manifest, n, some parent)
      → walk read (suc fuel) child seen cursor ≡ (
          let below = walk read fuel (some n) (cursor ∷ seen) parent in
          ((cursor, manifest) ∷ below.0, below.1))
  unfolding walk
  walk-more fuel child seen cursor more = rw (more, walk) refl

  -- On a budget above the number of the child, the walk below it comes to an end.
  walk-ends :
      (fuel child : ℕ) (seen : List String) (cursor : String)
      → child < fuel
      → (walk read fuel (some child) seen cursor).1 ≢ out_of_fuel
  unfolding walk
  walk-ends zero child seen cursor few = ground arith
  walk-ends (suc fuel) child seen cursor few =
      elim (Result-cases (visit_revision read (some child) seen cursor)) [
        | inr (e, raising) ↦ rw (raising, walk) (λ k. cc)
        | inl ((manifest, n, none), root) ↦ rw (root, walk) (λ k. cc)
        | inl ((manifest, n, some parent), more) ↦
            rw (walk-more fuel (some child) seen cursor more) (
              walk-ends fuel n (cursor ∷ seen) parent (
                below_budget child n fuel
                  (visit_revision-Visited (some child) seen cursor more).below few))
      ]

  -- The loop comes to an end, whatever the store holds: by the root, or by an exception.
  pub walk_revisions-ends : (current : String) → (walk_revisions read current).1 ≢ out_of_fuel
  unfolding walk_revisions
  walk_revisions-ends current = elim (Result-cases (visit_revision read none [] current)) [
    | inr (e, raising) ↦ rw (raising, walk) (λ k. cc)
    | inl ((manifest, n, none), root) ↦ rw (root, walk) (λ k. cc)
    | inl ((manifest, n, some parent), more) ↦
        rw (rounds-visited current more, walk-more (suc n) none [] current more)
          (walk-ends (suc n) n (current ∷ []) parent (omega arith))
  ]
