-- ===== src/Storage/Gate.antt =====
-- an_kla/reader_gate.py: what one thread keeps of the gate (`_states()[key]`) through nested `with`
-- blocks, and the wait for `flock`.
use an_kla_memory.Base.{
  ℕ, zero, suc, ◌+◌, ◌-◌, String, Bool, Option, none, some, if◌then◌else◌, leb, not, eqb, ◌||◌,
}

-- The entry of this thread: its mode, and the depth of a shared one.
pub data Held : Type 0 where
  shared : ℕ → Held
  exclusive : Held

pub data Wait : Type 0 where
  granted timed_out still_waiting : Wait

-- The loop on `flock` with `LOCK_NB`: `grants k` is the answer to try number k, and `clock k` the
-- time after it. On fuel.
unfoldable pub wait_loop : (ℕ → Bool) → (ℕ → ℕ) → ℕ → ℕ → ℕ → Wait
wait_loop grants clock deadline zero k = still_waiting
wait_loop grants clock deadline (suc fuel) k =
    let again = wait_loop grants clock deadline fuel (suc k) in
    if grants k then granted else if leb deadline (clock k) then timed_out else again

-- What the system answers `_open_gate`: whether it has `O_NOFOLLOW`, and of the gate file whether
-- it opens, what `os.fstat` says of it, and whether its mode can be set.
pub record GateFile : Type 0 where
  pub has_nofollow : Bool
  pub opens : Bool
  pub stat_fails : Bool
  pub is_regular : Bool
  pub links : ℕ
  pub chmod_fails : Bool

-- `_open_gate`: the code with which it raises.
unfoldable pub open_gate : GateFile → Option String
open_gate f =
    if not f.has_nofollow
    then some "reader_gate_platform_unsafe"
    else if not f.opens || f.stat_fails
    then some "reader_gate_unavailable"
    else if not f.is_regular || not (eqb f.links 1)
    then some "reader_gate_unsafe_file"
    else if f.chmod_fails
    then some "reader_gate_unavailable"
    else none

-- What one outermost entry meets: whether the platform has `fcntl`, the gate file, and the tries,
-- each of which gets the lock or is told to wait. That `flock` fails otherwise is not modelled.
pub record Entry : Type 0 where
  pub has_fcntl : Bool
  pub gate_file : GateFile
  pub grants : ℕ → Bool
  pub clock : ℕ → ℕ
  pub start : ℕ
  pub timeout : ℕ

-- One more round than the timeout has ticks.
unfoldable pub wait : Entry → Wait
unfolding wait_loop
wait e = wait_loop e.grants e.clock (e.start + e.timeout) (suc e.timeout) 0

-- The blocks of a thread: `with` a gate around a block, one after the other, or an exception.
pub data Block : Type 0 where
  done : Block
  raises : String → Block
  with_shared : Entry → Block → Block → Block
  with_exclusive : Entry → Block → Block → Block

-- The entry of the thread afterwards, and the exception that leaves the block.
abbrev pub Left : Type 0
Left = Option Held × Option String

-- `finally: existing["depth"] -= 1`
abbrev pub leave_inner : Option Held → Option Held
leave_inner (some (shared d)) = some (shared (d - 1))
leave_inner other = other

abbrev pub then_rest : Option String → Option Held → (Option Held → Left) → Left
then_rest none state rest = rest state
then_rest (some e) state rest = (state, some e)

-- A wait that timed out raises.
abbrev pub after_wait : Wait → String → Left → Left
after_wait granted code left = left
after_wait _ code left = (none, some code)

-- `run` of the body and of what follows are handed in. In the outermost block `finally` removes
-- the entry.
unfoldable pub enter_shared :
    Entry → (Option Held → Left) → (Option Held → Left) → Option Held → Left
enter_shared e body rest (some exclusive) = (some exclusive, some "reader_gate_mode_reentry")
enter_shared e body rest (some (shared d)) =
    let inside = body (some (shared (suc d))) in then_rest inside.1 (leave_inner inside.0) rest
enter_shared e body rest none =
    let free = body none in
    let inside = body (some (shared 1)) in
    if not e.has_fcntl then then_rest free.1 free.0 rest else elim (open_gate e.gate_file) [
      | some code ↦ (none, some code)
      | none ↦ after_wait (wait e) "writer_gate_busy" (then_rest inside.1 none rest)
    ]

unfoldable pub enter_exclusive :
    Entry → (Option Held → Left) → (Option Held → Left) → Option Held → Left
enter_exclusive e body rest (some held) = (some held, some "reader_gate_mode_reentry")
enter_exclusive e body rest none =
    let inside = body (some exclusive) in
    if not e.has_fcntl
    then (none, some "compaction_platform_unsupported")
    else elim (open_gate e.gate_file) [
      | some code ↦ (none, some code)
      | none ↦ after_wait (wait e) "compaction_readers_active" (then_rest inside.1 none rest)
    ]

unfoldable pub run_block : Block → Option Held → Left
unfolding enter_shared enter_exclusive wait
run_block done state = (state, none)
run_block (raises e) state = (state, some e)
run_block (with_shared e body rest) state = enter_shared e (run_block body) (run_block rest) state
run_block (with_exclusive e body rest) state =
    enter_exclusive e (run_block body) (run_block rest) state
