-- ===== src/Storage/Atomicity.antt =====
-- `atomic_write` leaves the old content or the new one, never a part.
use an_kla_memory.Base.{
  ℕ, zero, suc, ◌≡◌, refl, sym, subst, ◌∙◌, true, false, Option, none, some, [], ◌∷◌, ◌++◌,
}
use an_kla_memory.Base.{◌⊎◌, inl, inr, Bool-cases, Option-cases, append_assoc, append-nil, arith}
use an_kla_memory.Storage.AtomicWrite.{
  Bytes, StorageError, storage_error, Calls, Files, write_loop, close, write_temporary,
}
use an_kla_memory.Storage.AtomicWrite.{replace, cleanup, finish, atomic_write}

-- A loop that came to the end has written all of it.
pub write_loop-all :
    (written : ℕ → Option ℕ) (view : Bytes) (call pending : ℕ) (file : Bytes)
    → (write_loop written view call pending file).0 ≡ true
    → (write_loop written view call pending file).1 ≡ file ++ view
unfolding write_loop
write_loop-all written [] call pending file h = sym (append-nil file)
write_loop-all written (x ∷ view) call (suc pending) file h =
    write_loop-all written view call pending (file ++ (x ∷ [])) h ∙ append_assoc file (x ∷ []) view
write_loop-all written (x ∷ view) call zero file h = elim (Option-cases (written call)) [
  | inl raised ↦ cc (rw (raised, write_loop) at h)
  | inr (n, e) ↦
      counted n e (λ more. write_loop-all written view (suc call) more (file ++ (x ∷ []))) h
]
  where
    counted :
        (n : ℕ)
        → written call ≡ some n
        → ((more : ℕ)
            → (write_loop written view (suc call) more (file ++ (x ∷ []))).0 ≡ true
            → (write_loop written view (suc call) more (file ++ (x ∷ []))).1
              ≡ (file ++ (x ∷ [])) ++ view)
        → (write_loop written (x ∷ view) call zero file).0 ≡ true
        → (write_loop written (x ∷ view) call zero file).1 ≡ file ++ (x ∷ view)
    counted zero e rest k = cc (rw (e, write_loop) at k)
    counted (suc more) e rest k =
        rw (e, write_loop) (rest more (rw (e, write_loop) at k) ∙ append_assoc file (x ∷ []) view)

-- The name of the target has what it had, or the whole payload.
abbrev pub IsWhole : Option Bytes → Bytes → Files → Type 0
IsWhole old payload f = (f.target ≡ old) ⊎ (f.target ≡ some payload)

abbrev pub IsAtomic : Option Bytes → Bytes → Files × Option StorageError → Type 0
IsAtomic old payload r =
    ((r.1 ≡ none) × (r.0.target ≡ some payload) × (r.0.temporary ≡ none))
    ⊎ ((e : StorageError) × (r.1 ≡ some e)
        × IsWhole old payload r.0
        × ((r.0.temporary ≡ none) ⊎ (e.cleanup_incomplete ≡ true)))

module _ (calls : Calls) (old : Option Bytes) (payload : Bytes) where
  cleanup-raised :
      (f : Files) (e : StorageError)
      → IsWhole old payload f
      → IsAtomic old payload (cleanup calls f (some e))
  unfolding cleanup
  cleanup-raised f e h = elim (Bool-cases calls.stat_fails) [
    | inl failed ↦ rw failed (inr (record e { cleanup_incomplete = true }, refl, h, inr refl))
    | inr seen ↦ elim (Option-cases f.temporary) [
      | inl gone ↦ rw (seen, gone) (inr (e, refl, h, inl gone))
      | inr (bytes, there) ↦ elim (Bool-cases calls.unlink_fails) [
        | inl failed ↦
            rw (seen, there, failed)
              (inr (record e { cleanup_incomplete = true }, refl, h, inr refl))
        | inr removed ↦ rw (seen, there, removed) (inr (e, refl, h, inl refl))
      ]
    ]
  ]

  cleanup-done :
      (f : Files)
      → f.target ≡ some payload
      → f.temporary ≡ none
      → IsAtomic old payload (cleanup calls f none)
  unfolding cleanup
  cleanup-done f whole gone = elim (Bool-cases calls.stat_fails) [
    | inl failed ↦ rw failed (inr (storage_error "cleanup_stat_failed", refl, inr whole, inl gone))
    | inr seen ↦ rw (seen, gone) (inl (refl, whole, gone))
  ]

  -- A temporary file without an error has all of the payload.
  write_temporary-all :
      (write_temporary calls payload).1 ≡ none → (write_temporary calls payload).0 ≡ some payload
  unfolding write_temporary close
  write_temporary-all h = ground (arith, write_loop-all calls.written payload 0 0 [])

  -- `replace` moves all of the payload, or raises with the target whole.
  replace_result :
      let r = replace calls (record { target = old; temporary = some payload }) in
      (r ≡ (record { target = some payload; temporary = none }, none))
      ⊎ ((f : Files) × (e : StorageError) × IsWhole old payload f × (r ≡ (f, some e)))
  unfolding replace
  replace_result = elim (Bool-cases calls.replace_fails) [
    | inl failed ↦ elim (Bool-cases calls.replace_landed) [
      | inl landed ↦ inr (
        record { target = some payload; temporary = none },
        storage_error "replace_failed",
        inr refl,
        rw (failed, landed) refl,
      )
      | inr lost ↦ inr (
        record { target = old; temporary = some payload },
        storage_error "replace_failed",
        inl refl,
        rw (failed, lost) refl,
      )
    ]
    | inr moved ↦ elim (Option-cases calls.directory_fails) [
      | inl flushed ↦ inl (rw (moved, flushed) refl)
      | inr (code, failed) ↦ inr (
        record { target = some payload; temporary = none },
        storage_error code,
        inr refl,
        rw (moved, failed) refl,
      )
    ]
  ]

  finish-IsAtomic :
      (made : Option Bytes × Option StorageError)
      → (made.1 ≡ none → made.0 ≡ some payload)
      → IsAtomic old payload (finish calls old made)
  unfolding finish
  finish-IsAtomic (temporary, some e) all =
      cleanup-raised (record { target = old; temporary = temporary }) e (inl refl)
  finish-IsAtomic (temporary, none) all =
      let after =
        λ (r : Files × Option StorageError). IsAtomic old payload (cleanup calls r.0 r.1) in
      let from_payload =
        elim replace_result
          as (λ _. after (replace calls (record { target = old; temporary = some payload }))) [
            | inl moved ↦
                subst after (sym moved)
                  (cleanup-done (record { target = some payload; temporary = none }) refl refl)
            | inr (f, e, whole, raised) ↦ subst after (sym raised) (cleanup-raised f e whole)
          ] in
      subst (λ (t : Option Bytes). after (replace calls (record { target = old; temporary = t })))
        (sym (all refl)) from_payload

  mkdir_failed :
      calls.mkdir_fails ≡ true
      → atomic_write calls payload old
        ≡ (record { target = old; temporary = none }, some (storage_error "parent_mkdir_failed"))
  unfolding atomic_write
  mkdir_failed h = rw h refl

  mkdir_done :
      calls.mkdir_fails ≡ false
      → atomic_write calls payload old ≡ finish calls old (write_temporary calls payload)
  unfolding atomic_write
  mkdir_done h = rw h refl

  -- Whatever system calls fail: without an exception, the target is the payload and no temporary
  -- file is left; with one, the target is what it was or the whole payload, and a temporary file is
  -- left only if the exception says that the cleanup is incomplete.
  pub atomic_write-IsAtomic : IsAtomic old payload (atomic_write calls payload old)
  atomic_write-IsAtomic = elim (Bool-cases calls.mkdir_fails) [
    | inl failed ↦
        subst (IsAtomic old payload) (sym (mkdir_failed failed))
          (inr (storage_error "parent_mkdir_failed", refl, inl refl, inl refl))
    | inr made ↦
        subst (IsAtomic old payload) (sym (mkdir_done made))
          (finish-IsAtomic (write_temporary calls payload) write_temporary-all)
  ]
