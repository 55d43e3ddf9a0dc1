-- ===== src/Storage/Preservation.antt =====
-- `write_immutable` ends with its payload in place, and loses nothing that stood there.
use an_kla_memory.Base.{
  ◌≡◌, ◌≢◌, refl, sym, ap, ◌∙◌, subst, Bool, true, false, Option, none, some, List, [], ◌∷◌,
}
use an_kla_memory.Base.{◌⊎◌, inl, inr, Bool-cases, Option-cases, arith}
use an_kla_memory.Storage.AtomicWrite.{Bytes, StorageError, write_loop, close}
use an_kla_memory.Storage.Atomicity.{write_loop-all}
use an_kla_memory.Storage.Immutable.{
  Round, Place, left_by, Progress, stop, go, same_bytes, set_aside, compare_found, look,
  write_error,
}
use an_kla_memory.Storage.Immutable.{create, write_immutable, then_next}
use mathlib.Core.List.{Mem, mem-cons_self, mem-cons_of_mem}

same_bytes-eq : (xs ys : Bytes) → same_bytes xs ys ≡ true → xs ≡ ys
same_bytes-eq [] [] h = refl
same_bytes-eq [] (y ∷ ys) h = cc
same_bytes-eq (x ∷ xs) [] h = cc
same_bytes-eq (x ∷ xs) (y ∷ ys) h = ground (arith, same_bytes-eq xs ys)

-- An object is still under the name, or among the quarantined ones.
abbrev pub IsSaved : Option Bytes → Place → Type 0
IsSaved none q = Unit
IsSaved (some x) q = (q.object ≡ some x) ⊎ Mem x q.quarantined

-- A return without an exception has the payload in place, unless another process has moved the file
-- away meanwhile: then the payload is in quarantine.
abbrev pub IsWritten : Option (Option Bytes) → Bytes → Place → Option StorageError → Type 0
IsWritten displaced payload q none =
    (q.object ≡ some payload) ⊎ ((displaced ≢ none) × Mem payload q.quarantined)
IsWritten displaced payload q (some e) = Unit

abbrev pub IsSound :
    Option (Option Bytes) → Bytes → List Bytes → Option Bytes → Place → Option StorageError → Type 0
IsSound displaced payload before object q e =
    IsWritten displaced payload q e
    × IsSaved object q
    × ((x : Bytes) → Mem x before → Mem x q.quarantined)

abbrev IsStep : Option (Option Bytes) → Bytes → Place → Progress → Type 0
IsStep displaced payload p (stop q e) = IsSound displaced payload p.quarantined p.object q e
IsStep displaced payload p (go q) =
    (q.object ≡ none)
    × IsSaved p.object q
    × ((x : Bytes) → Mem x p.quarantined → Mem x q.quarantined)

stays : (object : Option Bytes) (q : Place) → q.object ≡ object → IsSaved object q
stays none q h = tt
stays (some x) q h = inl h

abbrev moved_aside : Bytes → Place → Place
moved_aside found p = record { object = none; quarantined = found ∷ p.quarantined }

module _ (displaced : Option (Option Bytes)) (calls : Round) (payload : Bytes) where
  set_aside-IsStep :
      (found : Bytes) (p : Place)
      → p.object ≡ some found
      → IsStep displaced payload p (set_aside calls found p)
  unfolding set_aside
  set_aside-IsStep found p h =
      let saved =
        subst (λ (o : Option Bytes). IsSaved o (moved_aside found p)) (sym h) (inr mem-cons_self) in
      elim (Option-cases calls.conflict_fails) [
        | inl done ↦ rw done (refl, saved, λ x m. mem-cons_of_mem found m)
        | inr (code, raised) ↦ elim (Bool-cases calls.conflict_moved) [
          | inl moved ↦ rw (raised, moved) (tt, saved, λ x m. mem-cons_of_mem found m)
          | inr left ↦ rw (raised, left) (tt, stays p.object p refl, λ x m. m)
        ]
      ]

  compare_found-IsStep :
      (found : Bytes) (p : Place)
      → p.object ≡ some found
      → IsStep displaced payload p (compare_found calls payload found p)
  unfolding compare_found
  compare_found-IsStep found p h = elim (Bool-cases calls.read_fails) [
    | inl failed ↦ rw failed (tt, stays p.object p refl, λ x m. m)
    | inr read ↦ elim (Bool-cases (same_bytes found payload)) [
      | inl same ↦
          rw (read, same)
            (inl (h ∙ ap some (same_bytes-eq found payload same)), stays p.object p refl, λ x m. m)
      | inr other ↦ rw (read, other) (set_aside-IsStep found p h)
    ]
  ]

  look_found :
      (p : Place) (found : Bytes)
      → calls.stat_fails ≡ false
      → p.object ≡ some found
      → look calls payload p ≡ compare_found calls payload found p
  unfolding look
  look_found p found seen there = simp (seen, there)

  look-IsStep : (p : Place) → IsStep displaced payload p (look calls payload p)
  unfolding look
  look-IsStep p = elim (Bool-cases calls.stat_fails) [
    | inl failed ↦ rw failed (tt, stays p.object p refl, λ x m. m)
    | inr seen ↦ elim (Option-cases p.object) [
      | inl free ↦ rw (seen, free) (free, tt, λ x m. m)
      | inr (found, there) ↦
          subst (IsStep displaced payload p) (sym (look_found p found seen there))
            (compare_found-IsStep found p there)
    ]
  ]

left_by-keeps :
    (displaced : Option (Option Bytes)) (file : Bytes) (p : Place) (x : Bytes)
    → Mem x p.quarantined
    → Mem x (left_by displaced file p).quarantined
left_by-keeps none file p x m = m
left_by-keeps (some other) file p x m = mem-cons_of_mem file m

left_by-holds :
    (displaced : Option (Option Bytes)) (file payload : Bytes) (p : Place)
    → file ≡ payload
    → IsWritten displaced payload (left_by displaced file p) none
left_by-holds none file payload p h = inl (ap some h)
left_by-holds (some other) file payload p h =
    inr (λ e. cc e, subst (λ x. Mem x (file ∷ p.quarantined)) h mem-cons_self)

module _ (calls : Round) (payload : Bytes) where
  write_error-all : (b : Bool) → write_error calls b ≡ none → b ≡ true
  unfolding write_error close
  write_error-all b h = ground arith

  create-IsSound :
      (p : Place)
      → p.object ≡ none
      → let r = create calls payload p in IsSound calls.displaced payload p.quarantined none r.0 r.1
  unfolding create
  create-IsSound p h =
      let file = (write_loop calls.written payload 0 0 []).1 in
      let kept = left_by-keeps calls.displaced file p in
      elim (Bool-cases calls.open_fails) [
        | inl failed ↦ rw failed (tt, tt, λ x m. m)
        | inr opened ↦
            elim (Option-cases (write_error calls (write_loop calls.written payload 0 0 []).0)) [
              | inr (e, failed) ↦ rw (opened, failed) (tt, tt, kept)
              | inl written ↦
                  let whole =
                    write_loop-all calls.written payload 0 0 [] (write_error-all _ written) in
                  elim (Option-cases calls.directory_fails) [
                    | inl flushed ↦
                        rw (opened, written, flushed)
                          (left_by-holds calls.displaced file payload p whole, tt, kept)
                    | inr (code, failed) ↦ rw (opened, written, failed) (tt, tt, kept)
                  ]
            ]
      ]

-- Steps one after the other: what was saved stays saved.
IsSaved-later :
    (object : Option Bytes) (p q : Place)
    → p.object ≡ none
    → IsSaved object p
    → ((x : Bytes) → Mem x p.quarantined → Mem x q.quarantined)
    → IsSaved object q
IsSaved-later none p q free h more = tt
IsSaved-later (some x) p q free (inl there) more = cc
IsSaved-later (some x) p q free (inr m) more = inr (more x m)

-- A step, then what is sound on a free name whatever was thought to stand there.
then_next-IsSound :
    (displaced : Option (Option Bytes)) (payload : Bytes) (s : Progress)
    (next : Place → Place × Option StorageError) (p : Place)
    → IsStep displaced payload p s
    → ((q : Place)
        → q.object ≡ none
        → (o : Option Bytes) × IsSound displaced payload q.quarantined o (next q).0 (next q).1)
    → let r = then_next s next in IsSound displaced payload p.quarantined p.object r.0 r.1
then_next-IsSound displaced payload (stop q e) next p h sound = h
then_next-IsSound displaced payload (go q) next p (free, saved, more) sound =
    let (_, (written, _, later)) = sound q free in
    (written, IsSaved-later p.object q (next q).0 free saved later, λ x m. later x (more x m))

-- Other processes may put an object under the name between the look at it and `os.open`, any number
-- of times, and may move the file that this call is writing to the quarantine; `conflict` moves the
-- object it is given away, or raises before or after that. Then, whatever calls fail: a return
-- without an exception has the whole payload under the name, or, if another process has moved the
-- file, in quarantine; what stood there at the start is still there or in quarantine; and nothing
-- leaves the quarantine.
pub write_immutable-IsSound :
    (payload : Bytes) (rounds : List (Bytes × Round × Round)) (last : Round) (p : Place)
    → let r = write_immutable payload rounds last p in
      IsSound last.displaced payload p.quarantined p.object r.0 r.1
unfolding write_immutable
write_immutable-IsSound payload [] last p =
    then_next-IsSound last.displaced payload (look last payload p) (create last payload) p
      (look-IsStep last.displaced last payload p)
      (λ q free. (none, create-IsSound last payload q free))
write_immutable-IsSound payload ((arrived, calls, calls') ∷ rounds) last p =
    let there : Place → Place = λ q. record q { object = some arrived } in
    let compared : Place → Progress = λ q. compare_found calls' payload arrived (there q) in
    let again = write_immutable payload rounds last in
    then_next-IsSound last.displaced payload (look calls payload p)
      (λ q. then_next (compared q) again) p (look-IsStep last.displaced calls payload p)
      (λ q free. (
        some arrived,
        then_next-IsSound last.displaced payload (compared q) again (there q)
            (compare_found-IsStep last.displaced calls' payload arrived (there q) refl)
            (λ q' free'. (q'.object, write_immutable-IsSound payload rounds last q')),
      ))
