-- ===== src/Transactions/Commit/Success.antt =====
-- What `commit_locked` does where no storage operation fails.
use an_kla_memory.Base.{
  String, ◌==◌, ◌≡◌, refl, sym, ap, subst, true, false, Option, none, some, List, [], ◌∷◌,
}
use an_kla_memory.Base.{eq_refl}
use an_kla_memory.Transactions.Outcome.{make_outcome, candidate_relation, State}
use an_kla_memory.Transactions.Commit.{Step, Operation, write, checkpoint, refute, Run, World}
use an_kla_memory.Transactions.Commit.Execution.{perform_all}
use an_kla_memory.Transactions.Commit.{
  record_commit, perform, execute, commit_locked, publish, conclude, succeeded, failed,
}
use an_kla_memory.Transactions.Commit.{fresh_run, Finished, preparation, observation, publication}

-- The commit is done and says so.
pub record Committed (target : String) (f : Finished) : Type 0 where
  pub moved : f.run.current ≡ target
  pub returned : f.revision ≡ target
  pub state : f.outcome.state ≡ State.committed
  pub receipts : (f.run.has_candidate_receipt ≡ true) × (f.run.has_current_receipt ≡ true)
  pub clean : f.outcome.error_code ≡ none

module _ (w : World) (observed target : String) (healthy : (step : Step) → w.fault step ≡ none)
    (readable : w.reread_fails ≡ false) where
  execute-healthy :
      (steps : List Step) (r : Run)
      → execute target w.fault steps r ≡ (perform_all target steps r, none)
  unfolding execute
  execute-healthy [] r = refl
  execute-healthy (step ∷ steps) r =
      rw (healthy step, execute) (execute-healthy steps (perform target step r))

  conclude-Committed :
      (r : Run)
      → r.candidate ≡ some target
      → r.current ≡ target
      → r.has_candidate_receipt ≡ true
      → r.has_current_receipt ≡ true
      → Committed target (conclude w observed target r)
  unfolding conclude succeeded perform make_outcome candidate_relation
  conclude-Committed r named moved first second =
      rw (healthy record_commit, execute-healthy observation, named, eq_refl target, conclude)
        (record {
          moved = moved;
          returned = refl;
          state = refl;
          receipts = (first, second);
          clean = refl;
        })

  published-Committed :
      (r : Run)
      → r.candidate ≡ some target
      → r.has_candidate_receipt ≡ true
      → Committed target (conclude w observed target (perform_all target publication r))
  unfolding perform
  published-Committed r named first = conclude-Committed _ named refl first refl

  published_here : (r : Run) → ((execute target w.fault publication r).0.current == target) ≡ true
  unfolding perform
  published_here r = rw (execute-healthy publication r) (eq_refl target)

  prepared_state :
      (op : Operation)
      → let r = (execute target w.fault (preparation op) (fresh_run observed)).0 in
        ((r.current == observed) ≡ true)
        × (r.candidate ≡ some target)
        × (r.has_candidate_receipt ≡ true)
  unfolding perform
  prepared_state write =
      rw (execute-healthy (preparation write) (fresh_run observed)) (eq_refl observed, refl, refl)
  prepared_state checkpoint =
      rw (execute-healthy (preparation checkpoint) (fresh_run observed))
        (eq_refl observed, refl, refl)
  prepared_state refute =
      rw (execute-healthy (preparation refute) (fresh_run observed)) (eq_refl observed, refl, refl)

  publish-Committed :
      (r : Run)
      → r.candidate ≡ some target
      → r.has_candidate_receipt ≡ true
      → Committed target (publish w observed target r)
  unfolding publish failed conclude succeeded
  publish-Committed r named first =
      let done = execute target w.fault publication r in
      let all : done ≡ (perform_all target publication r, none) = execute-healthy publication r in
      let finished : done.1 ≡ none = ap (λ (x : Run × Option String). x.1) all in
      let here : (done.0.current == target) ≡ true = published_here r in
      rw (finished, readable, here, publish)
        (subst (λ (x : Run × Option String). Committed target (conclude w observed target x.0))
          (sym all) (published-Committed r named first))

  -- Where no storage operation fails, the commit ends with CURRENT at the candidate, which is
  -- returned, both receipts written, state "committed" and no error code.
  pub commit_locked-commits :
      (op : Operation) → Committed target (commit_locked w observed target op (fresh_run observed))
  unfolding commit_locked failed
  commit_locked-commits op =
      let done = execute target w.fault (preparation op) (fresh_run observed) in
      let all : done ≡ (perform_all target (preparation op) (fresh_run observed), none) =
        execute-healthy (preparation op) (fresh_run observed) in
      let finished : done.1 ≡ none = ap (λ (x : Run × Option String). x.1) all in
      let (same, named, first) = prepared_state op in
      rw (finished, same, commit_locked) (publish-Committed done.0 named first)
