-- ===== src/Storage/Balance.antt =====
-- The gate is left as it was found, and the wait for it ends.
use an_kla_memory.Base.{
  ℕ, zero, suc, ◌+◌, ◌≤◌, ◌≡◌, ◌≢◌, refl, ap, ◌∙◌, Bool, String, Option, none, some,
}
use an_kla_memory.Base.{arith, inl, inr, Bool-cases, Option-cases}
use an_kla_memory.Storage.Gate.{
  Held, shared, exclusive, Wait, granted, timed_out, still_waiting, wait_loop, wait, Entry, Block,
}
use an_kla_memory.Storage.Gate.{
  done, raises, with_shared, with_exclusive, Left, enter_shared, enter_exclusive, open_gate,
  run_block, then_rest, after_wait, leave_inner,
}

wait_loop-ends :
    (grants : ℕ → Bool) (clock : ℕ → ℕ) (start timeout fuel k : ℕ)
    → ((i : ℕ) → start + i ≤ clock i)
    → fuel + k ≡ suc timeout
    → fuel ≢ 0
    → wait_loop grants clock (start + timeout) fuel k ≢ still_waiting
unfolding wait_loop
wait_loop-ends grants clock start timeout zero k ticks enough more = absurd (more refl)
wait_loop-ends grants clock start timeout (suc zero) k ticks enough more = ground (arith, ticks k)
wait_loop-ends grants clock start timeout (suc (suc fuel)) k ticks enough more =
    ground (arith, wait_loop-ends grants clock start timeout (suc fuel) (suc k) ticks)

abbrev IsBalanced : (Option Held → Left) → Type 0
IsBalanced run = (state : Option Held) → (run state).0 ≡ state

then_rest-left :
    (e : Option String) (state s : Option Held) (rest : Option Held → Left)
    → state ≡ s
    → IsBalanced rest
    → (then_rest e state rest).0 ≡ s
then_rest-left none state s rest h k = k state ∙ h
then_rest-left (some e) state s rest h k = h

after_wait-left :
    (w : Wait) (code : String) (left : Left) → left.0 ≡ none → (after_wait w code left).0 ≡ none
after_wait-left granted code left h = h
after_wait-left timed_out code left h = refl
after_wait-left still_waiting code left h = refl

left_depth : (d : ℕ) → leave_inner (some (shared (suc d))) ≡ some (shared d)
left_depth d = ap (λ (n : ℕ). some (shared n)) (omega arith)

enter_shared-IsBalanced :
    (e : Entry) (body rest : Option Held → Left)
    → IsBalanced body
    → IsBalanced rest
    → IsBalanced (enter_shared e body rest)
unfolding enter_shared
enter_shared-IsBalanced e body rest h k (some exclusive) = refl
enter_shared-IsBalanced e body rest h k (some (shared d)) =
    then_rest-left _ _ _ rest (ap leave_inner (h (some (shared (suc d)))) ∙ left_depth d) k
enter_shared-IsBalanced e body rest h k none = elim (Bool-cases e.has_fcntl) [
  | inr missing ↦ rw missing (then_rest-left _ _ _ rest (h none) k)
  | inl there ↦ elim (Option-cases (open_gate e.gate_file)) [
    | inr (code, unsafe) ↦ rw (there, unsafe) refl
    | inl opened ↦
        rw (there, opened)
          (after_wait-left _ _ _ (then_rest-left (body (some (shared 1))).1 none none rest refl k))
  ]
]

enter_exclusive-IsBalanced :
    (e : Entry) (body rest : Option Held → Left)
    → IsBalanced rest
    → IsBalanced (enter_exclusive e body rest)
unfolding enter_exclusive
enter_exclusive-IsBalanced e body rest k (some held) = refl
enter_exclusive-IsBalanced e body rest k none = elim (Bool-cases e.has_fcntl) [
  | inr missing ↦ rw missing refl
  | inl there ↦ elim (Option-cases (open_gate e.gate_file)) [
    | inr (code, unsafe) ↦ rw (there, unsafe) refl
    | inl opened ↦
        rw (there, opened)
          (after_wait-left _ _ _ (then_rest-left (body (some exclusive)).1 none none rest refl k))
  ]
]

-- Whatever nests in what, and whatever raises or times out: when a thread has left its blocks, it
-- has the entry that it had before them.
pub run_block-balanced : (b : Block) (state : Option Held) → (run_block b state).0 ≡ state
unfolding run_block
run_block-balanced done state = refl
run_block-balanced (raises e) state = refl
run_block-balanced (with_shared e body rest) state =
    enter_shared-IsBalanced e (run_block body) (run_block rest) (run_block-balanced body)
      (run_block-balanced rest) state
run_block-balanced (with_exclusive e body rest) state =
    enter_exclusive-IsBalanced e (run_block body) (run_block rest) (run_block-balanced rest) state

-- Where the clock gains a tick with every try, the wait ends: the lock is granted, or the deadline
-- has come.
pub wait-ends : (e : Entry) → ((i : ℕ) → e.start + i ≤ e.clock i) → wait e ≢ still_waiting
unfolding wait
wait-ends e ticks =
    wait_loop-ends e.grants e.clock e.start e.timeout (suc e.timeout) 0 ticks (ground arith)
      (λ h. cc)
