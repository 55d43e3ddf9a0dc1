-- ===== src/Storage/AtomicWrite.antt =====
-- `atomic_write` of an_kla/storage_primitives.py: a temporary file, then `os.replace`.
use an_kla_memory.Base.{
  ℕ, zero, suc, String, Bool, true, false, Option, none, some, List, [], ◌∷◌, ◌++◌, not,
  if◌then◌else◌,
}

abbrev pub Bytes : Type 0
Bytes = List ℕ

-- `StorageOperationError`
pub record StorageError : Type 0 where
  pub code : String
  pub cleanup_incomplete : Bool
  pub close_incomplete : Bool

-- What the system calls of one run answer: which of them raise an `OSError`, what `os.write` returns
-- at each call (`none` where it raises), and the code with which `fsync_directory` raises.
-- `replace_landed` tells whether a failed `os.replace` took effect all the same.
pub record Calls : Type 0 where
  pub mkdir_fails : Bool
  pub open_fails : Bool
  pub written : ℕ → Option ℕ
  pub fsync_fails : Bool
  pub close_fails : Bool
  pub replace_fails : Bool
  pub replace_landed : Bool
  pub directory_fails : Option String
  pub stat_fails : Bool
  pub unlink_fails : Bool

-- The file under the name of the target, and the one under the fresh temporary name.
pub record Files : Type 0 where
  pub target : Option Bytes
  pub temporary : Option Bytes

abbrev pub storage_error : String → StorageError
storage_error code = record { code = code; cleanup_incomplete = false; close_incomplete = false }

-- The loop over `view`, byte by byte: `pending` bytes of it are acknowledged by the last `os.write`,
-- `call` counts its calls, and `file` is what the file has. Returns whether all was written.
unfoldable pub write_loop : (ℕ → Option ℕ) → Bytes → ℕ → ℕ → Bytes → Bool × Bytes
write_loop written [] call pending file = (true, file)
write_loop written (x ∷ view) call (suc pending) file =
    write_loop written view call pending (file ++ (x ∷ []))
write_loop written (x ∷ view) call zero file =
    let next = λ (n : ℕ). write_loop written view (suc call) n (file ++ (x ∷ [])) in
    elim (written call) [
      | none ↦ (false, file)
      | some n ↦ elim n [ zero ↦ (false, file) | suc more ↦ next more ]
    ]

-- `_close`: an error of its own where there is none yet, else a flag on the one there is.
unfoldable pub close : Bool → String → Option StorageError → Option StorageError
close false code primary = primary
close true code none = some (storage_error code)
close true code (some e) = some (record e { close_incomplete = true })

-- From `os.open` to `_close`: the temporary file, and the error.
unfoldable pub write_temporary : Calls → Bytes → Option Bytes × Option StorageError
unfolding write_loop close
write_temporary calls payload =
    let loop = write_loop calls.written payload 0 0 [] in
    if calls.open_fails then (none, some (storage_error "temporary_open_failed")) else (
      some loop.1,
      close calls.close_fails "temporary_close_failed" (
          if not loop.0
          then some (storage_error "temporary_write_failed")
          else if calls.fsync_fails
          then some (storage_error "temporary_fsync_failed")
          else none),
    )

abbrev pub error_of : Option String → Option StorageError
error_of none = none
error_of (some code) = some (storage_error code)

-- `os.replace`, then `fsync_directory`.
unfoldable pub replace : Calls → Files → Files × Option StorageError
replace calls f =
    let moved : Files = record { target = f.temporary; temporary = none } in
    if calls.replace_fails
    then (if calls.replace_landed then moved else f, some (storage_error "replace_failed"))
    else (moved, error_of calls.directory_fails)

abbrev mark_cleanup : String → Option StorageError → Option StorageError
mark_cleanup code none = some (storage_error code)
mark_cleanup code (some e) = some (record e { cleanup_incomplete = true })

-- The last `finally`: the temporary file is removed if it is there.
unfoldable pub cleanup : Calls → Files → Option StorageError → Files × Option StorageError
cleanup calls f primary =
    if calls.stat_fails then (f, mark_cleanup "cleanup_stat_failed" primary) else elim f.temporary [
      | none ↦ (f, primary)
      | some bytes ↦
          if calls.unlink_fails
          then (f, mark_cleanup "cleanup_unlink_failed" primary)
          else (record f { temporary = none }, primary)
    ]

-- What follows the temporary file: a failure goes to the cleanup at once.
unfoldable pub finish :
    Calls → Option Bytes → Option Bytes × Option StorageError → Files × Option StorageError
unfolding replace cleanup
finish calls old (temporary, some e) =
    cleanup calls (record { target = old; temporary = temporary }) (some e)
finish calls old (temporary, none) =
    let ended = replace calls (record { target = old; temporary = temporary }) in
    cleanup calls ended.0 ended.1

-- The files after the call, and the exception that leaves it.
unfoldable pub atomic_write : Calls → Bytes → Option Bytes → Files × Option StorageError
unfolding write_temporary finish
atomic_write calls payload old =
    if calls.mkdir_fails
    then (record { target = old; temporary = none }, some (storage_error "parent_mkdir_failed"))
    else finish calls old (write_temporary calls payload)
