-- ===== src/Storage/Immutable.antt =====
-- `write_immutable` of an_kla/storage_primitives.py: an object is written once, under its own name.
use an_kla_memory.Base.{
  ℕ, String, Bool, true, false, not, ◌&&◌, Option, none, some, List, [], ◌∷◌, if◌then◌else◌, eqb,
}
use an_kla_memory.Storage.AtomicWrite.{
  Bytes, StorageError, storage_error, write_loop, close, error_of,
}

-- What the system calls answer, and the callback `conflict`: the code with which it
-- raises, and whether the object was moved before it raised. Of other processes, whether one of
-- them, which found the file that `os.open` has made before it was whole, has moved it to the
-- quarantine, and what stands under the name then.
pub record Round : Type 0 where
  pub stat_fails : Bool
  pub read_fails : Bool
  pub conflict_fails : Option String
  pub conflict_moved : Bool
  pub open_fails : Bool
  pub displaced : Option (Option Bytes)
  pub written : ℕ → Option ℕ
  pub fsync_fails : Bool
  pub close_fails : Bool
  pub directory_fails : Option String

-- The object under the name, and those that `conflict` has moved out of the way.
pub record Place : Type 0 where
  pub object : Option Bytes
  pub quarantined : List Bytes

-- A step returns from the function, with or without an exception, or goes on.
pub data Progress : Type 0 where
  stop : Place → Option StorageError → Progress
  go : Place → Progress

abbrev pub same_bytes : Bytes → Bytes → Bool
same_bytes [] [] = true
same_bytes (x ∷ xs) (y ∷ ys) = eqb x y && same_bytes xs ys
same_bytes _ _ = false

-- `conflict(target)`, on the object `found`. It is a callback, taken to do what the store's
-- `_quarantine_conflict` is for: it moves the object out of the way, and raises, if at all, either
-- before it has moved the object (its quota, a failed `os.replace`) or after (the flush).
unfoldable pub set_aside : Round → Bytes → Place → Progress
set_aside calls found p =
    let moved : Place = record { object = none; quarantined = found ∷ p.quarantined } in
    elim calls.conflict_fails [
      | none ↦ go moved
      | some code ↦ stop (if calls.conflict_moved then moved else p) (some (storage_error code))
    ]

-- The object `found` is read and compared.
unfoldable pub compare_found : Round → Bytes → Bytes → Place → Progress
unfolding set_aside
compare_found calls payload found p =
    if calls.read_fails
    then stop p (some (storage_error "immutable_read_failed"))
    else if same_bytes found payload
    then stop p none
    else set_aside calls found p

-- The look at the path before `os.open`.
unfoldable pub look : Round → Bytes → Place → Progress
unfolding compare_found
look calls payload p =
    if calls.stat_fails
    then stop p (some (storage_error "immutable_parent_or_stat_failed"))
    else elim p.object [ none ↦ go p | some found ↦ compare_found calls payload found p ]

-- The loop over `view`, the flush and `os.close`: whether they raise.
unfoldable pub write_error : Round → Bool → Option StorageError
unfolding close
write_error calls all_written = close calls.close_fails "immutable_close_failed" (
    if not all_written
    then some (storage_error "immutable_write_failed")
    else if calls.fsync_fails
    then some (storage_error "immutable_fsync_failed")
    else none)

-- Where the file is at the end: the writer's descriptor follows it into the quarantine.
abbrev pub left_by : Option (Option Bytes) → Bytes → Place → Place
left_by none file p = record { object = some file; quarantined = p.quarantined }
left_by (some other) file p = record { object = other; quarantined = file ∷ p.quarantined }

-- `os.open` with `O_EXCL` on a free name, and all that follows it.
unfoldable pub create : Round → Bytes → Place → Place × Option StorageError
unfolding write_loop write_error
create calls payload p =
    let loop = write_loop calls.written payload 0 0 [] in
    let made : Place = left_by calls.displaced loop.1 p in
    if calls.open_fails
    then (p, some (storage_error "immutable_open_failed"))
    else elim (write_error calls loop.0) [
      | some e ↦ (made, some e)
      | none ↦ (made, error_of calls.directory_fails)
    ]

abbrev pub then_next :
    Progress → (Place → Place × Option StorageError) → Place × Option StorageError
then_next (stop q e) next = (q, e)
then_next (go q) next = next q

-- In each of the rounds another process has put an object there just before `os.open`, which is the
-- `FileExistsError`; in the last one none has. The calls before and after it answer on their own.
-- On the file that `os.open` has made they act by `displaced`; at no other moment do they act here.
unfoldable pub write_immutable :
    Bytes → List (Bytes × Round × Round) → Round → Place → Place × Option StorageError
unfolding look compare_found create
write_immutable payload [] last p = then_next (look last payload p) (create last payload)
write_immutable payload ((arrived, calls, calls') ∷ rounds) last p =
    let again = write_immutable payload rounds last in
    then_next (look calls payload p) (λ q.
      then_next (compare_found calls' payload arrived (record q { object = some arrived })) again)
