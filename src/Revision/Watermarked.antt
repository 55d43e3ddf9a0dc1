-- ===== src/Revision/Watermarked.antt =====
-- A watermark does not change what the validation of a chain says.
use an_kla_memory.Base.{ℕ, zero, suc, String, ◌≡◌, refl, sym, ap, ◌∙◌, subst, eq_iff, Bool, true}
use an_kla_memory.Base.{Option, none, some, List, [], ◌∷◌, Error, ok}
use an_kla_memory.Base.{arith, Bool-cases, inl, inr}
use an_kla_memory.Json.{Json, Fields, get}
use an_kla_memory.Revision.Ascent.{ChainStore}
use an_kla_memory.Revision.Watermark.{Watermark, binding_matches}
use an_kla_memory.Revision.Ascent.{rounds, ascend, validate_revision_chain}
use an_kla_memory.Revision.Visited.{
  Stores, number_of, check_parent-below, Stores-unique, Above, some_eq,
}
use an_kla_memory.Revision.Visited.{
  Above-fresh, Above-cons, round, ascend-round, round_ext, ascend-seen,
}

no_rounds : (n : ℕ) → 0 ≡ suc (suc n) → ⊥
no_rounds n h = omega (arith, h)

one_less : (fuel n k : ℕ) → suc fuel ≡ suc (suc n) → n ≡ suc k → fuel ≡ suc (suc k)
one_less fuel n k h same = omega (arith, h, same)

module _ (same_number : Json → Json → Bool) (sha256 : String → String) (error : String → Error)
    (store : ChainStore) where
  -- What a watermark stands for: a revision whose whole chain is valid.
  abbrev pub IsProven : Option Watermark → Type 0
  IsProven none = Unit
  IsProven (some w) =
      (manifest : Fields) × Stores store w.revision manifest
      × (validate_revision_chain same_number sha256 error store none w.revision manifest ≡ ok tt)

  binding_matches-same :
      (w : Watermark) (id : String) (child : Fields)
      → binding_matches same_number (some w) id child ≡ true
      → id ≡ w.revision
  unfolding binding_matches
  binding_matches-same w id child h = ground (arith, eq_iff id w.revision)

  rounds_of :
      (child : Fields) (n : ℕ)
      → number_of child ≡ some n
      → rounds same_number sha256 error child ≡ suc (suc n)
  rounds_of child n h = rw (rounds, h) refl

  -- At the revision of the watermark the rest of the chain is valid.
  proven_ends :
      (w : Watermark) (n : ℕ) (seen : List String) (id : String) (child : Fields)
      → IsProven (some w)
      → id ≡ w.revision
      → Stores store id child
      → number_of child ≡ some n
      → Above same_number sha256 error store seen n
      → ascend same_number sha256 error store none (suc (suc n)) seen id child ≡ ok tt
  unfolding validate_revision_chain Above
  proven_ends w n seen id child (m, there, valid) same here numbered above =
      let same_manifest : m ≡ child =
        Stores-unique same_number sha256 error store id m child
          (subst (λ i. Stores store i m) (sym same) there) here in
      ascend-seen same_number sha256 error store (suc (suc n)) n seen [] id child here numbered
        above (λ x h. cc h)
      ∙ ap (λ k. ascend same_number sha256 error store none k [] id child)
          (sym (rounds_of child n numbered))
      ∙ ap (λ i. validate_revision_chain same_number sha256 error store none i child) same
      ∙ ap (λ x. validate_revision_chain same_number sha256 error store none w.revision x)
          (sym same_manifest)
      ∙ valid

  ascend-agrees :
      (stop : Option Watermark) (fuel n : ℕ) (seen : List String) (id : String) (child : Fields)
      → IsProven stop
      → fuel ≡ suc (suc n)
      → Stores store id child
      → number_of child ≡ some n
      → Above same_number sha256 error store seen n
      → ascend same_number sha256 error store stop fuel seen id child
        ≡ ascend same_number sha256 error store none fuel seen id child
  unfolding binding_matches
  ascend-agrees none fuel n seen id child proven enough here numbered above = refl
  ascend-agrees (some w) zero n seen id child proven enough here numbered above =
      absurd (no_rounds n enough)
  ascend-agrees (some w) (suc fuel) n seen id child proven enough here numbered above =
      let fresh = Above-fresh same_number sha256 error store seen n id child here numbered above in
      let open_round =
        ascend-round same_number sha256 error store (some w) fuel seen id child fresh in
      elim (Bool-cases (binding_matches same_number (some w) id child)) [
        | inl e ↦
            open_round
            ∙ ap
                (λ b.
                  round same_number sha256 error store (some w) fuel seen id child b
                    (get child "parent"))
                e
            ∙ sym (
                ap (λ k. ascend same_number sha256 error store none k seen id child) enough
                ∙ proven_ends w n seen id child proven (binding_matches-same w id child e) here
                    numbered above)
        | inr e ↦
            open_round
            ∙ ap
                (λ b.
                  round same_number sha256 error store (some w) fuel seen id child b
                    (get child "parent"))
                e
            ∙ round_ext same_number sha256 error store (some w) none fuel seen seen id child
                (get child "parent")
                (λ parent_id parent checked.
                  let (there, k, below, next) =
                    check_parent-below same_number sha256 error store id child parent_id parent
                      checked in
                  let same : n ≡ suc k =
                    some_eq same_number sha256 error store (sym numbered ∙ next) in
                  ascend-agrees (some w) fuel k (id ∷ seen) parent_id parent proven
                    (one_less fuel n k enough same) there below
                    (Above-cons same_number sha256 error store seen k id child here next
                      (subst (λ i. Above same_number sha256 error store seen i) same above)))
            ∙ sym (ascend-round same_number sha256 error store none fuel seen id child fresh)
      ]

  -- A watermark whose revision has a valid chain does not change what the validation of a chain
  -- says: with it and without it, the same manifests are accepted, and the others rejected with the
  -- same exception.
  pub validate_revision_chain-agrees :
      (stop : Option Watermark) (id : String) (manifest : Fields) (n : ℕ)
      → IsProven stop
      → Stores store id manifest
      → number_of manifest ≡ some n
      → validate_revision_chain same_number sha256 error store stop id manifest
        ≡ validate_revision_chain same_number sha256 error store none id manifest
  unfolding validate_revision_chain Above
  validate_revision_chain-agrees stop id manifest n proven here numbered =
      ascend-agrees stop (rounds same_number sha256 error manifest) n [] id manifest proven
        (rounds_of manifest n numbered) here numbered (λ x h. cc h)
