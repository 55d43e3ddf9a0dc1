-- ===== src/Transactions/Commit.antt =====
-- `commit_locked` of an_kla/transactions.py, from the first write to the outcome: the order of the
-- durable steps, what a storage failure at any of them leaves behind, and what is then reported.
-- The contents of the written objects are left out, and every failure is an `OSError`.
pub mod Execution
pub mod Honesty
pub mod Success
use an_kla_memory.Base.{
  String, ◌==◌, ◌≡◌, refl, Bool, true, false, not, ◌&&◌, ◌||◌, Option, none, some,
}
use an_kla_memory.Base.{List, [], ◌∷◌, ◌++◌, if◌then◌else◌, Result, ok, err, integrity, All, arith}
use an_kla_memory.Transactions.Outcome.{Outcome, make_outcome, candidate_relation, is_in_lineage}
use an_kla_memory.Transactions.Outcome.{AuditState, not_started, prepared, Durability}

-- The writes of one commit, in the order of the code.
pub data Step : Type 0 where
  write_prepared write_segments write_checkpoint write_refutation write_revision : Step
  write_intent write_stage record_stage candidate_receipt record_receipt : Step
  replace_current write_watermark current_receipt record_commit : Step
  write_observed record_observed : Step

pub data Operation : Type 0 where
  write checkpoint refute : Operation

-- An `OSError` at a step, with its code. The bytes may have landed before the error came, as when
-- the directory cannot be flushed after `os.replace`.
pub record Fault : Type 0 where
  pub code : String
  pub landed : Bool

-- The disk's CURRENT, and the local variables of `commit_locked`.
pub record Run : Type 0 where
  pub current : String
  pub recorded : Bool
  pub audit : AuditState
  pub candidate : Option String
  pub has_candidate_receipt : Bool
  pub has_current_receipt : Bool

-- The steps before CURRENT is touched.
abbrev pub own_objects : Operation → List Step
own_objects write = []
own_objects checkpoint = write_checkpoint ∷ []
own_objects refute = write_refutation ∷ []

abbrev pub preparation : Operation → List Step
preparation operation =
    write_prepared
    ∷ write_segments
    ∷ (own_objects operation
        ++ (write_revision ∷ write_intent ∷ write_stage ∷ record_stage ∷ candidate_receipt
            ∷ record_receipt ∷ []))

abbrev pub publication : List Step
publication = replace_current ∷ write_watermark ∷ current_receipt ∷ []

abbrev pub observation : List Step
observation = write_observed ∷ record_observed ∷ []

-- The environment of a run: where storage fails, when CURRENT cannot be read, and the audit of
-- the chain below a revision.
pub record World : Type 0 where
  pub fault : Step → Option Fault
  pub reread_fails : Bool
  pub handler_read_fails : Bool
  pub audited : String → Option (List String)

module _ (target : String) where
  -- What a step that succeeds changes; `target` is the identifier of the child revision.
  unfoldable pub perform : Step → Run → Run
  perform write_prepared r = record r { recorded = true; audit = prepared }
  perform write_revision r = record r { candidate = some target }
  perform candidate_receipt r = record r { has_candidate_receipt = true }
  perform replace_current r = record r { current = target }
  perform current_receipt r = record r { has_current_receipt = true }
  perform _ r = r

  -- What a step that fails may have changed: only CURRENT counts for what follows.
  unfoldable pub land : Step → Run → Run
  land replace_current r = record r { current = target }
  land _ r = r

  -- The steps up to the first failure, with its code.
  unfoldable pub execute : (Step → Option Fault) → List Step → Run → Run × Option String
  unfolding perform land
  execute fault [] r = (r, none)
  execute fault (step ∷ steps) r =
      let rest = execute fault steps (perform step r) in
      elim (fault step) [
        | none ↦ rest
        | some f ↦ (if f.landed then land step r else r, some f.code)
      ]

abbrev durability_of : Bool → Durability
durability_of true = Durability.complete
durability_of false = Durability.incomplete

-- `audit_state if audit_state != "not_started" else "incomplete"`
abbrev reported_audit : AuditState → AuditState
reported_audit not_started = AuditState.incomplete
reported_audit a = a

-- A finished commit: the disk, the revision that is returned, and the outcome.
pub record Finished : Type 0 where
  pub run : Run
  pub revision : String
  pub outcome : Outcome

module _ (w : World) (observed target : String) where
  -- CURRENT as the handler knows it.
  unfoldable pub handler_current : Run → Option String
  handler_current r =
      if r.recorded then (if w.handler_read_fails then none else some r.current) else some observed

  -- `except OSError`
  unfoldable pub failed : Run → String → Finished
  unfolding handler_current
  failed r code =
      let seen = handler_current r in
      let relation = candidate_relation w.audited r.candidate seen in
      let durable =
        if is_in_lineage relation then r.has_current_receipt else r.has_candidate_receipt in
      record {
        run = r;
        revision = elim seen [ none ↦ observed | some s ↦ s ];
        outcome =
            make_outcome (some observed) r.candidate seen relation (some r.recorded)
              (reported_audit r.audit) (durability_of durable) (some code);
      }

  abbrev error_of_audit : AuditState → Option String
  error_of_audit AuditState.complete = none
  error_of_audit _ = some "observed_log_failed"

  -- The end of a run in which nothing raised but, at most, the writes of the observation.
  unfoldable pub succeeded : Run → Finished
  succeeded r = record {
    run = r;
    revision = target;
    outcome =
        make_outcome (some observed) r.candidate (some target)
          (candidate_relation w.audited r.candidate (some target)) (some true) r.audit
          Durability.complete (error_of_audit r.audit);
  }

  abbrev audit_after : Option String → AuditState
  audit_after none = AuditState.complete
  audit_after (some code) = AuditState.incomplete

  -- The committed journal, then the observation, whose failure only leaves the audit incomplete.
  unfoldable pub conclude : Run → Finished
  unfolding execute
  conclude r =
      let r' = record r { audit = AuditState.incomplete } in
      elim (w.fault record_commit) [
        | some f ↦ failed r' f.code
        | none ↦
            let seen = execute target w.fault observation r' in
            succeeded (record r' { audit = audit_after seen.1 })
      ]

  -- CURRENT is moved, the receipt written, and CURRENT read again.
  unfoldable pub publish : Run → Finished
  unfolding execute
  publish r =
      let done = execute target w.fault publication r in
      elim done.1 [
        | some code ↦ failed done.0 code
        | none ↦
            if w.reread_fails
            then failed done.0 "current_reread_failed"
            else if done.0.current == target
            then conclude done.0
            else failed done.0 "current_reread_mismatch"
      ]

  -- The whole of it, from `try:` on.
  unfoldable pub commit_locked : Operation → Run → Finished
  unfolding execute
  commit_locked operation start =
      let done = execute target w.fault (preparation operation) start in
      elim done.1 [
        | some code ↦ failed done.0 code
        | none ↦
            if done.0.current == observed then publish done.0 else failed done.0 "storage_io_failed"
      ]

-- The local variables before the first write.
abbrev pub fresh_run : String → Run
fresh_run observed = record {
  current = observed;
  recorded = false;
  audit = not_started;
  candidate = none;
  has_candidate_receipt = false;
  has_current_receipt = false;
}
