-- ===== src/Storage/Healing.antt =====
-- What an interrupted `write_immutable` left behind does not stop the next one.
use an_kla_memory.Base.{ℕ, zero, suc, ◌≡◌, refl, subst, true, false, none, some, [], ◌∷◌, ◌++◌}
use an_kla_memory.Base.{inl, inr, Bool-cases, Option-cases}
use an_kla_memory.Storage.AtomicWrite.{Bytes, write_loop, close}
use an_kla_memory.Storage.Immutable.{
  Round, Place, same_bytes, set_aside, compare_found, look, write_error,
}
use an_kla_memory.Storage.Immutable.{create, then_next, write_immutable}
use an_kla_memory.Storage.Preservation.{write_immutable-IsSound, IsWritten}

-- No call fails; `os.write` takes at least one byte, `more` says how many beside it.
abbrev pub calm : (ℕ → ℕ) → Round
calm more = record {
  stat_fails = false;
  read_fails = false;
  conflict_fails = none;
  conflict_moved = false;
  open_fails = false;
  displaced = none;
  written = λ call. some (suc (more call));
  fsync_fails = false;
  close_fails = false;
  directory_fails = none;
}

module _ (more : ℕ → ℕ) (payload : Bytes) where
  write_loop-ends :
      (view : Bytes) (call pending : ℕ) (file : Bytes)
      → (write_loop (calm more).written view call pending file).0 ≡ true
  unfolding write_loop
  write_loop-ends [] call pending file = refl
  write_loop-ends (x ∷ view) call zero file =
      write_loop-ends view (suc call) (more call) (file ++ (x ∷ []))
  write_loop-ends (x ∷ view) call (suc pending) file =
      write_loop-ends view call pending (file ++ (x ∷ []))

  create-ends : (p : Place) → (create (calm more) payload p).1 ≡ none
  unfolding create write_error close
  create-ends p = rw (write_loop-ends payload 0 0 []) refl

  found_ends :
      (found : Bytes) (p : Place)
      → (then_next (compare_found (calm more) payload found p) (create (calm more) payload)).1
        ≡ none
  unfolding compare_found set_aside
  found_ends found p = elim (Bool-cases (same_bytes found payload)) [
    | inl same ↦ rw same refl
    | inr other ↦ rw other (create-ends _)
  ]

  write_immutable-ends : (p : Place) → (write_immutable payload [] (calm more) p).1 ≡ none
  unfolding write_immutable look
  write_immutable-ends p = elim (Option-cases p.object) [
    | inl free ↦ rw free (create-ends p)
    | inr (found, there) ↦ rw there (found_ends found _)
  ]

  -- With no other process, the payload is where it was written.
  in_place : (q : Place) → IsWritten none payload q none → q.object ≡ some payload
  in_place q (inl there) = there
  in_place q (inr (moved, m)) = absurd (moved refl)

  -- A call that meets no failure and no other process ends, with the payload in place, whatever an
  -- earlier call left under the name.
  pub write_immutable-heals :
      (p : Place)
      → let r = write_immutable payload [] (calm more) p in
        (r.1 ≡ none) × (r.0.object ≡ some payload)
  write_immutable-heals p =
      let ended = write_immutable-ends p in
      (
        ended,
        in_place (write_immutable payload [] (calm more) p).0 (
            subst (IsWritten none payload (write_immutable payload [] (calm more) p).0) ended
              (write_immutable-IsSound payload [] (calm more) p).0),
      )
