-- ===== src/Revision/Visited.antt =====
-- The loop of `validate_revision_chain` does not come to a revision twice, so the set of those visited
-- does not matter.
use an_kla_memory.Base.{
  ℕ, zero, suc, ◌<◌, String, ◌==◌, ◌≡◌, refl, sym, ap, ◌∙◌, subst, eq_iff, Bool, true, false, not,
}
use an_kla_memory.Base.{Option, none, some, List, ◌∷◌, member, Error, Result, ok, err, ◌>>=◌}
use an_kla_memory.Base.{>>=-eq-ok, >>-eq-ok, raise_if-eq-ok, ok_inj, arith, Bool-cases, inl, inr}
use an_kla_memory.Json.{Json, Fields, null, bool, num, real, not_finite, str, arr, obj, get}
use an_kla_memory.Canonical.{digest_json}
use an_kla_memory.Revision.Walk.{revision_number}
use an_kla_memory.Revision.Validation.{validate_manifest}
use an_kla_memory.Revision.Ascent.{ChainStore, check_parent, is_next}
use an_kla_memory.Revision.Watermark.{Watermark, binding_matches}
use an_kla_memory.Revision.Ascent.{read_parent, check_inherited, ascend, check_root, fields_of}

abbrev pub number_of : Fields → Option ℕ
number_of manifest = revision_number (get manifest "revision")

-- What the store reads under an identifier.
abbrev pub Stores : ChainStore → String → Fields → Type 0
Stores store id manifest =
    (value : Json) × (store.read id ≡ ok value) × (fields_of value ≡ manifest)

is_next-numbers :
    (p c : Option ℕ) → is_next p c ≡ true → (n : ℕ) × (p ≡ some n) × (c ≡ some (suc n))
is_next-numbers (some n) (some m) h = (n, refl, ap some (ground (arith, h)))
is_next-numbers (some n) none h = cc
is_next-numbers none c h = cc

of_not : (b : Bool) → not b ≡ false → b ≡ true
of_not b h = ground arith

module _ (same_number : Json → Json → Bool) (sha256 : String → String) (error : String → Error)
    (store : ChainStore) where
  -- The parent is what the store reads, and is numbered one less.
  pub check_parent-below :
      (child_id : String) (child : Fields) (parent_id : String) (parent : Fields)
      → check_parent same_number sha256 error store child_id child parent_id ≡ ok parent
      → Stores store parent_id parent
        × (n : ℕ) × (number_of parent ≡ some n)
        × (number_of child ≡ some (suc n))
  unfolding check_parent read_parent
  check_parent-below child_id child parent_id parent h =
      let (found, k, read) =
        >>=-eq-ok (read_parent same_number sha256 error store child parent_id) _ h in
      let (_, k') =
        >>-eq-ok (check_inherited same_number sha256 error store child_id child parent_id found) _
          k in
      let (value, h1, e1) = >>=-eq-ok (store.read parent_id) _ read in
      let (sha, h2, e2) = >>=-eq-ok (digest_json sha256 value) _ h1 in
      let (_, h3) = raise_if-eq-ok _ _ _ h2 in
      let (_, h4) = >>-eq-ok (validate_manifest error (fields_of value)) _ h3 in
      let (_, h5) = >>-eq-ok (store.verify_link (fields_of value)) _ h4 in
      let (next, h6) =
        raise_if-eq-ok (not (is_next (number_of (fields_of value)) (number_of child))) _ _ h5 in
      let same : fields_of value ≡ parent = ok_inj h6 ∙ ok_inj k' in
      let (n, p, c) =
        is_next-numbers (number_of (fields_of value)) (number_of child) (of_not _ next) in
      ((value, e1, same), n, ap number_of (sym same) ∙ p, c)

  pub Stores-unique : (id : String) (a b : Fields) → Stores store id a → Stores store id b → a ≡ b
  Stores-unique id a b (v, e, f) (w, e', f') = sym f ∙ ap fields_of (ok_inj (sym e ∙ e')) ∙ f'

  -- All of the visited revisions are numbered above.
  unfoldable pub Above : List String → ℕ → Type 0
  Above seen n =
      (x : String)
      → member x seen ≡ true
      → (m : Fields) × (k : ℕ) × Stores store x m × (number_of m ≡ some k) × (n < k)

  pub some_eq : {a b : ℕ} → some a ≡ some b → a ≡ b
  some_eq h = cc

  below_itself : (n k : ℕ) → n ≡ k → n < k → ⊥
  below_itself n k same below = omega (arith, same, below)

  -- So the present one is none of them.
  pub Above-fresh :
      (seen : List String) (n : ℕ) (id : String) (child : Fields)
      → Stores store id child
      → number_of child ≡ some n
      → Above seen n
      → member id seen ≡ false
  unfolding Above
  Above-fresh seen n id child here numbered above = elim (Bool-cases (member id seen)) [
    | inr e ↦ e
    | inl e ↦
        let (m, k, there, at_k, below) = above id e in
        let same =
          some_eq (sym numbered ∙ ap number_of (Stores-unique id child m here there) ∙ at_k) in
        absurd (below_itself n k same below)
  ]

  pub Above-cons :
      (seen : List String) (n : ℕ) (id : String) (child : Fields)
      → Stores store id child
      → number_of child ≡ some (suc n)
      → Above seen (suc n)
      → Above (id ∷ seen) n
  unfolding Above
  Above-cons seen n id child here numbered above x h = elim (Bool-cases (x == id)) [
    | inl e ↦ (
      child,
      suc n,
      subst (λ i. Stores store i child) (sym ((eq_iff x id).0 e)) here,
      numbered,
      omega arith,
    )
    | inr e ↦
        let (m, k, there, at_k, below) = above x (rw e at h) in
        (m, k, there, at_k, omega (arith, below))
  ]

  bind_ext :
      {A : Type 0} {B : Type 0} (m : Result A) (f g : A → Result B)
      → ((a : A) → m ≡ ok a → f a ≡ g a)
      → (m >>= f) ≡ (m >>= g)
  bind_ext (err e) f g h = refl
  bind_ext (ok a) f g h = h a refl

  -- A round of the loop after its first test.
  abbrev pub round :
      Option Watermark → ℕ → List String → String → Fields → Bool → Json → Result (Unit {0})
  round stop fuel seen id child bound parent_value = elim bound [
    | true ↦ ok tt
    | false ↦ elim parent_value [
      | null ↦ check_root same_number sha256 error store child
      | str parent_id ↦ check_parent same_number sha256 error store id child parent_id >>= λ parent.
          ascend same_number sha256 error store stop fuel (id ∷ seen) parent_id parent
      | _ ↦ err (error "revision_transition_invalid")
    ]
  ]

  pub ascend-round :
      (stop : Option Watermark) (fuel : ℕ) (seen : List String) (id : String) (child : Fields)
      → member id seen ≡ false
      → ascend same_number sha256 error store stop (suc fuel) seen id child
        ≡ round stop fuel seen id child
            (binding_matches same_number stop id child)
            (get child "parent")
  unfolding ascend
  ascend-round stop fuel seen id child h = rw h refl

  pub round_ext :
      (stop stop' : Option Watermark) (fuel : ℕ) (seen seen' : List String) (id : String)
      (child : Fields) (v : Json)
      → ((parent_id : String) (parent : Fields)
          → check_parent same_number sha256 error store id child parent_id ≡ ok parent
          → ascend same_number sha256 error store stop fuel (id ∷ seen) parent_id parent
            ≡ ascend same_number sha256 error store stop' fuel (id ∷ seen') parent_id parent)
      → round stop fuel seen id child false v ≡ round stop' fuel seen' id child false v
  round_ext stop stop' fuel seen seen' id child null h = refl
  round_ext stop stop' fuel seen seen' id child (bool b) h = refl
  round_ext stop stop' fuel seen seen' id child (num n) h = refl
  round_ext stop stop' fuel seen seen' id child (real r) h = refl
  round_ext stop stop' fuel seen seen' id child not_finite h = refl
  round_ext stop stop' fuel seen seen' id child (arr xs) h = refl
  round_ext stop stop' fuel seen seen' id child (obj fs) h = refl
  round_ext stop stop' fuel seen seen' id child (str parent_id) h =
      bind_ext (check_parent same_number sha256 error store id child parent_id) _ _
        (λ parent e. h parent_id parent e)

  -- Which of the higher revisions were visited makes no difference.
  pub ascend-seen :
      (fuel n : ℕ) (seen seen' : List String) (id : String) (child : Fields)
      → Stores store id child
      → number_of child ≡ some n
      → Above seen n
      → Above seen' n
      → ascend same_number sha256 error store none fuel seen id child
        ≡ ascend same_number sha256 error store none fuel seen' id child
  unfolding ascend binding_matches
  ascend-seen zero n seen seen' id child here numbered above above' = refl
  ascend-seen (suc fuel) n seen seen' id child here numbered above above' =
      ascend-round none fuel seen id child (Above-fresh seen n id child here numbered above)
      ∙ round_ext none none fuel seen seen' id child (get child "parent") (λ parent_id parent e.
        let (there, k, below, next) = check_parent-below id child parent_id parent e in
        let same : n ≡ suc k = some_eq (sym numbered ∙ next) in
        let up = subst (λ i. Above seen i) same above in
        let up' = subst (λ i. Above seen' i) same above' in
        ascend-seen fuel k (id ∷ seen) (id ∷ seen') parent_id parent there below
          (Above-cons seen k id child here next up) (Above-cons seen' k id child here next up'))
      ∙ sym (
          ascend-round none fuel seen' id child (Above-fresh seen' n id child here numbered above'))
