-- ===== src/Revision/Lineage.antt =====
-- A walk that ended at a root has seen a chain, and what `_LineageSummary` says of it.
use an_kla_memory.Base.{
  ℕ, zero, suc, ◌≡◌, refl, ap, ◌==◌, String, Bool, true, false, not, ◌&&◌, ◌||◌,
}
use an_kla_memory.Base.{Option, none, some, List, [], ◌∷◌, ◌++◌, member, distinct, all, eq_iff}
use an_kla_memory.Base.{Result, ok, arith, inl, inr, Bool-cases, ◌⊎◌, All}
use an_kla_memory.Base.Int.{pos}
use an_kla_memory.Json.{Json, Fields, null, num, str, obj, get, is_str}
use an_kla_memory.Revision.Walk.{Node, Ending, finished, is_below}
use an_kla_memory.Revision.Walk.{visit_revision, walk, rounds, walk_revisions, summarize, bound}
use an_kla_memory.Revision.Chain.{
  Visited, visit_revision-Visited, Result-cases, walk-more, walk-root, walk-raised,
}

abbrev pub identifiers : List Node → List String
identifiers [] = []
identifiers ((id, manifest) ∷ nodes) = id ∷ identifiers nodes

fresh_below :
    (cursor : String) (seen ids : List String)
    → all (λ id. not (member id (cursor ∷ seen))) ids ≡ true
    → (all (λ id. not (member id seen)) ids ≡ true) × (member cursor ids ≡ false)
fresh_below cursor seen [] h = (refl, refl)
fresh_below cursor seen (id ∷ ids) h =
    ground (arith, eq_iff id cursor, eq_iff cursor id, fresh_below cursor seen ids)

module _ (read : String → Result Json) where
  -- `nodes` are stored manifests from `cursor` down to one without a parent, each the parent of the
  -- one before and numbered one less.
  abbrev pub IsChain : Option ℕ → String → List Node → Type 0
  IsChain child cursor [] = ⊥
  IsChain child cursor ((id, manifest) ∷ nodes) =
      (id ≡ cursor)
      × (read cursor ≡ ok (obj manifest))
      × (n : ℕ) × (get manifest "revision" ≡ num (pos n))
      × (is_below child n ≡ true)
      × ((nodes ≡ []) × (get manifest "parent" ≡ null)
          ⊎ ((parent : String) × (get manifest "parent" ≡ str parent)
              × IsChain (some n) parent nodes))

  -- What the walk below a visited node has seen, when it ended at the root.
  abbrev Rest : Option ℕ → List String → String → List Node × Ending → Type 0
  Rest child seen cursor result =
      result.1 ≡ finished
      → (IsChain child cursor result.0)
        × (all (λ id. not (member id seen)) (identifiers result.0) ≡ true)
        × (distinct (identifiers result.0) ≡ true)

  root-Rest :
      (child : Option ℕ) (seen : List String) (cursor : String) (manifest : Fields) (n : ℕ)
      → Visited read child seen cursor manifest n none
      → Rest child seen cursor ((cursor, manifest) ∷ [], finished)
  root-Rest child seen cursor manifest n v h = (
    (refl, v.stored, n, v.numbered, v.below, inl (refl, v.linked)),
    ground (arith, v.fresh),
    refl,
  )

  more-Rest :
      (child : Option ℕ) (seen : List String) (cursor parent : String) (manifest : Fields) (n : ℕ)
      (below : List Node × Ending)
      → Visited read child seen cursor manifest n (some parent)
      → Rest (some n) (cursor ∷ seen) parent below
      → Rest child seen cursor ((cursor, manifest) ∷ below.0, below.1)
  more-Rest child seen cursor parent manifest n below v ih h =
      let (chain, fresh, different) = ih h in
      let (later, apart) = fresh_below cursor seen (identifiers below.0) fresh in
      (
        (refl, v.stored, n, v.numbered, v.below, inr (parent, v.linked, chain)),
        ground (arith, v.fresh, later),
        ground (arith, apart, different),
      )

  walk-Rest :
      (fuel : ℕ) (child : Option ℕ) (seen : List String) (cursor : String)
      → Rest child seen cursor (walk read fuel child seen cursor)
  unfolding walk
  walk-Rest zero child seen cursor = λ h. cc
  walk-Rest (suc fuel) child seen cursor =
      elim (Result-cases (visit_revision read child seen cursor)) [
        | inr (e, raising) ↦ rw (walk-raised read fuel child seen cursor raising) (λ h. cc)
        | inl ((manifest, n, none), root) ↦ rw (walk-root read fuel child seen cursor root) (
            root-Rest child seen cursor manifest n
              (visit_revision-Visited read child seen cursor root))
        | inl ((manifest, n, some parent), more) ↦ rw (walk-more read fuel child seen cursor more) (
            more-Rest child seen cursor parent manifest n _
              (visit_revision-Visited read child seen cursor more)
              (walk-Rest fuel (some n) (cursor ∷ seen) parent))
      ]

  -- A walk that ended at a root has visited a chain: stored manifests from `current` down, each the
  -- parent of the one before and numbered one less, to one without a parent; none of them twice.
  pub walk_revisions-IsChain :
      (current : String)
      → (walk_revisions read current).1 ≡ finished
      → (IsChain none current (walk_revisions read current).0)
        × (distinct (identifiers (walk_revisions read current).0) ≡ true)
  unfolding walk_revisions
  walk_revisions-IsChain current h =
      let (chain, fresh, different) = walk-Rest (rounds read current) none [] current h in
      (chain, different)

and_true : (a b : Bool) → (a && b) ≡ true → (a ≡ true) × (b ≡ true)
and_true a b h = ground arith

here_strict :
    (identity : String) (prefix_ok : Bool) (manifest : Fields)
    → ((prefix_ok && is_str identity (get manifest "store_identity")) || false) ≡ true
    → (prefix_ok ≡ true) × (is_str identity (get manifest "store_identity") ≡ true)
here_strict identity prefix_ok manifest h = ground arith

-- A revision that is bound to an identity, the exception for legacy aside, is one of the nodes, and
-- names the identity, as do all the nodes above it.
pub summarize-bound :
    (identity id : String) (nodes : List Node) (prefix_ok : Bool)
    → bound (summarize identity prefix_ok nodes) false id ≡ true
    → (prefix_ok ≡ true)
      × (above : List Node) × (manifest : Fields) × (below : List Node) × (nodes
          ≡ above ++ ((id, manifest) ∷ below))
      × All (λ (node : Node). is_str identity (get node.1 "store_identity") ≡ true) above
      × (is_str identity (get manifest "store_identity") ≡ true)
unfolding bound summarize
summarize-bound identity id [] prefix_ok h = cc
summarize-bound identity id ((key, manifest) ∷ nodes) prefix_ok h = elim (Bool-cases (key == id)) [
  | inl here ↦
      let (strict, named) = here_strict identity prefix_ok manifest (rw here at h) in
      (
        strict,
        [],
        manifest,
        nodes,
        ap (λ (k : String). (k, manifest) ∷ nodes) ((eq_iff key id).0 here),
        tt,
        named,
      )
  | inr there ↦
      let (strict, above, found, below, built, named, last) =
        summarize-bound identity id nodes _ (rw there at h) in
      let (before, first) = and_true prefix_ok _ strict in
      (
        before,
        (key, manifest) ∷ above,
        found,
        below,
        ap (λ (l : List Node). (key, manifest) ∷ l) built,
        (first, named),
        last,
      )
]
