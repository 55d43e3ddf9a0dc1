-- ===== src/Storage/Tests.antt =====
-- Concrete writes, with failures at chosen calls.
use an_kla_memory.Base.{ℕ, zero, suc, ◌≡◌, refl, false, Option, none, some, [], ◌∷◌}
use an_kla_memory.Storage.AtomicWrite.{Calls, atomic_write}
use an_kla_memory.Storage.Immutable.{Round, Place, write_immutable}
use an_kla_memory.Storage.Preservation.{IsSound, write_immutable-IsSound}
use an_kla_memory.Storage.Healing.{calm, write_immutable-heals}
use an_kla_memory.Base.{true, false, ◌+◌, ◌≢◌, eqb, arith}
use an_kla_memory.Storage.Gate.{
  GateFile, open_gate, Entry, Block, done, with_shared, with_exclusive, run_block, wait,
  still_waiting,
}
use an_kla_memory.Storage.Balance.{run_block-balanced, wait-ends}
use an_kla_memory.Storage.Atomicity.{IsAtomic, atomic_write-IsAtomic}

-- `os.write` takes two bytes at the first call and one at the second, and the directory is not
-- flushed.
abbrev two_then_one : ℕ → Option ℕ
two_then_one zero = some 2
two_then_one (suc n) = some 1

abbrev no_flush : Calls
no_flush = record {
  mkdir_fails = false;
  open_fails = false;
  written = two_then_one;
  fsync_fails = false;
  close_fails = false;
  replace_fails = false;
  replace_landed = false;
  directory_fails = some "directory_fsync_failed";
  stat_fails = false;
  unlink_fails = false;
}

atomic_write-IsAtomic_example :
    IsAtomic
      (some (9 ∷ []))
      (1 ∷ 2 ∷ 3 ∷ [])
      (atomic_write no_flush (1 ∷ 2 ∷ 3 ∷ []) (some (9 ∷ [])))
atomic_write-IsAtomic_example = atomic_write-IsAtomic no_flush (some (9 ∷ [])) (1 ∷ 2 ∷ 3 ∷ [])

no_flush-target :
    (atomic_write no_flush (1 ∷ 2 ∷ 3 ∷ []) (some (9 ∷ []))).0.target ≡ some (1 ∷ 2 ∷ 3 ∷ [])
unfolding atomic_write
no_flush-target = refl

-- Half an object stands under the name, and a third process puts another one in the way.
abbrev half : Place
half = record { object = some (1 ∷ []); quarantined = [] }

abbrev full_writes : ℕ → ℕ
full_writes call = 8

-- The file is moved to the quarantine while it is written, and another object takes its place.
abbrev overtaken : Round
overtaken = record (calm full_writes) { displaced = some (some (3 ∷ [])) }

write_immutable-IsSound_example :
    let r =
      write_immutable
        (1 ∷ 2 ∷ [])
        ((7 ∷ [], calm full_writes, calm full_writes) ∷ [])
        overtaken
        half in
    IsSound (some (some (3 ∷ []))) (1 ∷ 2 ∷ []) [] (some (1 ∷ [])) r.0 r.1
write_immutable-IsSound_example =
    write_immutable-IsSound (1 ∷ 2 ∷ []) ((7 ∷ [], calm full_writes, calm full_writes) ∷ [])
      overtaken half

overtaken_end :
    write_immutable (1 ∷ 2 ∷ []) [] overtaken half
    ≡ (record { object = some (3 ∷ []); quarantined = (1 ∷ 2 ∷ []) ∷ (1 ∷ []) ∷ [] }, none)
unfolding write_immutable
overtaken_end = refl

two_displaced :
    (write_immutable
      (1 ∷ 2 ∷ [])
      ((7 ∷ [], calm full_writes, calm full_writes) ∷ [])
      (calm full_writes)
      half).0.quarantined
    ≡ (7 ∷ []) ∷ (1 ∷ []) ∷ []
unfolding write_immutable
two_displaced = refl

write_immutable-heals_example :
    let r = write_immutable (1 ∷ 2 ∷ []) [] (calm full_writes) half in
    (r.1 ≡ none) × (r.0.object ≡ some (1 ∷ 2 ∷ []))
write_immutable-heals_example = write_immutable-heals full_writes (1 ∷ 2 ∷ []) half

abbrev own_file : GateFile
own_file = record {
  has_nofollow = true;
  opens = true;
  stat_fails = false;
  is_regular = true;
  links = 1;
  chmod_fails = false;
}

-- The lock is granted at the third try.
abbrev patient : Entry
patient = record {
  has_fcntl = true;
  gate_file = own_file;
  grants = λ k. eqb k 2;
  clock = λ k. 10 + k;
  start = 10;
  timeout = 5;
}

-- A shared block in a shared block, then an exclusive one in a shared one, which raises.
abbrev nested : Block
nested =
    with_shared patient (with_shared patient done done)
      (with_shared patient (with_exclusive patient done done) done)

run_block-balanced_example : (run_block nested none).0 ≡ none
run_block-balanced_example = run_block-balanced nested none

nested-raises : (run_block nested none).1 ≡ some "reader_gate_mode_reentry"
unfolding run_block open_gate
nested-raises = refl

wait-ends_example : wait patient ≢ still_waiting
wait-ends_example = wait-ends patient (λ i. omega arith)
