-- ===== src/Compaction/Sorted.antt =====
-- The tombstones of a projection: none is lost, and they are in the order of their streams and
-- digests.
use an_kla_memory.Base.{◌≡◌, refl, Bool, true, false, ◌&&◌, List, [], ◌∷◌, all, arith}
use an_kla_memory.Base.{Bool-cases, inl, inr, ℕ, suc, ◌+◌, ◌++◌, length, ap, ◌∙◌}
use an_kla_memory.Base.Text.{codes}
use an_kla_memory.Base.TextOrder.{text_le_total, text_le_trans}
use an_kla_memory.Compaction.Project.{Tombstone, is_before, insert_tombstone, sort_tombstones}

is_before_total : (a b : Tombstone) → is_before a b ≡ false → is_before b a ≡ true
is_before_total a b h =
    ground (arith, text_le_total (codes a.record_sha256) (codes b.record_sha256))

is_before_trans :
    (a b c : Tombstone) → is_before a b ≡ true → is_before b c ≡ true → is_before a c ≡ true
is_before_trans a b c h k =
    ground
      (arith, text_le_trans (codes a.record_sha256) (codes b.record_sha256) (codes c.record_sha256))

-- Every tombstone is before all later ones.
abbrev pub is_sorted : List Tombstone → Bool
is_sorted [] = true
is_sorted (t ∷ ts) = all (is_before t) ts && is_sorted ts

both : (a b : Bool) → (a && b) ≡ true → (a ≡ true) × (b ≡ true)
both a b h = ground arith

all-is_before :
    (a b : Tombstone) (ts : List Tombstone)
    → is_before a b ≡ true
    → all (is_before b) ts ≡ true
    → all (is_before a) ts ≡ true
all-is_before a b [] h k = refl
all-is_before a b (t ∷ ts) h k =
    let (first, later) = both (is_before b t) (all (is_before b) ts) k in
    rw (is_before_trans a b t h first) (all-is_before a b ts h later)

all-insert_tombstone :
    (a t : Tombstone) (ts : List Tombstone)
    → is_before a t ≡ true
    → all (is_before a) ts ≡ true
    → all (is_before a) (insert_tombstone t ts) ≡ true
unfolding insert_tombstone
all-insert_tombstone a t [] h k = rw h refl
all-insert_tombstone a t (u ∷ us) h k =
    let (first, later) = both (is_before a u) (all (is_before a) us) k in
    elim (Bool-cases (is_before t u)) [
      | inl e ↦ rw (e, h, first) later
      | inr e ↦ rw (e, first) (all-insert_tombstone a t us h later)
    ]

insert_tombstone-is_sorted :
    (t : Tombstone) (ts : List Tombstone)
    → is_sorted ts ≡ true
    → is_sorted (insert_tombstone t ts) ≡ true
unfolding insert_tombstone
insert_tombstone-is_sorted t [] h = refl
insert_tombstone-is_sorted t (u ∷ us) h =
    let (first, later) = both (all (is_before u) us) (is_sorted us) h in
    elim (Bool-cases (is_before t u)) [
      | inl e ↦ rw (e, e, all-is_before t u us e first, first) later
      | inr e ↦
          rw (e, all-insert_tombstone u t us (is_before_total t u e) first)
            (insert_tombstone-is_sorted t us later)
    ]

pub sort_tombstones-is_sorted : (ts : List Tombstone) → is_sorted (sort_tombstones ts) ≡ true
unfolding sort_tombstones
sort_tombstones-is_sorted [] = refl
sort_tombstones-is_sorted (t ∷ ts) =
    insert_tombstone-is_sorted t (sort_tombstones ts) (sort_tombstones-is_sorted ts)

length-++ : (xs ys : List Tombstone) → length (xs ++ ys) ≡ length xs + length ys
length-++ [] ys = omega arith
length-++ (x ∷ xs) ys = ground (arith, length-++ xs ys)

length-insert_tombstone :
    (t : Tombstone) (ts : List Tombstone) → length (insert_tombstone t ts) ≡ suc (length ts)
unfolding insert_tombstone
length-insert_tombstone t [] = refl
length-insert_tombstone t (u ∷ us) = elim (Bool-cases (is_before t u)) [
  | inl e ↦ rw e refl
  | inr e ↦ rw e (ap (λ n. suc n) (length-insert_tombstone t us))
]

length-sort_tombstones : (ts : List Tombstone) → length (sort_tombstones ts) ≡ length ts
unfolding sort_tombstones
length-sort_tombstones [] = refl
length-sort_tombstones (t ∷ ts) =
    length-insert_tombstone t (sort_tombstones ts) ∙ ap (λ n. suc n) (length-sort_tombstones ts)

-- The tombstones of the three streams, sorted, are as many as there are.
pub count_all :
    (f e p : List Tombstone) (a b c x y z : ℕ)
    → a + length f ≡ x
    → b + length e ≡ y
    → c + length p ≡ z
    → a + (b + c) + length (sort_tombstones (f ++ (e ++ p))) ≡ x + (y + z)
count_all f e p a b c x y z h₁ h₂ h₃ =
    rw (length-sort_tombstones (f ++ (e ++ p)), length-++ f (e ++ p), length-++ e p) (omega arith)
