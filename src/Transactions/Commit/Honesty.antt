-- ===== src/Transactions/Commit/Honesty.antt =====
-- What the outcome of `commit_locked` says of CURRENT, wherever the storage failed.
use an_kla_memory.Base.{
  String, ◌==◌, ◌≡◌, refl, sym, ap, ◌∙◌, subst, Bool, true, false, Option, none, some,
}
use an_kla_memory.Base.{List, member, ◌⊎◌, inl, inr, arith, eq_iff}
use an_kla_memory.Base.{Bool-cases, Option-cases, all, not}
use an_kla_memory.Transactions.Commit.Execution.{
  execute-none, execute-keeps, keep_all, KeptBy, perform_all,
}
use an_kla_memory.Transactions.Outcome.{make_outcome, candidate_relation, Relation}
use an_kla_memory.Transactions.Outcome.{AuditState, authority_of, is_in_lineage}
use an_kla_memory.Transactions.Commit.{Step, Operation, write, checkpoint, refute, Run, World}
use an_kla_memory.Transactions.Commit.{preparation, publication, perform, land, execute}
use an_kla_memory.Transactions.Commit.{
  write_prepared, record_commit, handler_current, replace_current, write_revision, failed,
  succeeded, conclude, publish, commit_locked, fresh_run,
}
use an_kla_memory.Transactions.Commit.{Finished}

-- What holds of the disk and of the local variables at every step.
record Sound (observed target : String) (r : Run) : Type 0 where
  place : (r.current ≡ observed) ⊎ (r.current ≡ target)
  unmoved : r.recorded ≡ false → r.current ≡ observed
  named : (r.candidate ≡ none) ⊎ (r.candidate ≡ some target)

-- While the commit is prepared, CURRENT is not touched.
record Preparing (observed target : String) (r : Run) : Type 0 where
  place : r.current ≡ observed
  named : (r.candidate ≡ none) ⊎ (r.candidate ≡ some target)

-- From the receipt of the candidate on.
record Published (observed target : String) (r : Run) : Type 0 where
  place : (r.current ≡ observed) ⊎ (r.current ≡ target)
  recorded : r.recorded ≡ true
  named : r.candidate ≡ some target

-- The outcome speaks the truth about the disk, and CURRENT names one of the two revisions.
pub record Honest (observed target : String) (f : Finished) : Type 0 where
  pub place : (f.run.current ≡ observed) ⊎ (f.run.current ≡ target)
  pub says_committed : f.outcome.is_committed ≡ some true → f.run.current ≡ target
  pub says_not : f.outcome.is_committed ≡ some false → f.run.current ≡ observed

authority_of-true :
    (relation : Relation) (seen parent : Option String)
    → (authority_of relation seen parent).1 ≡ some true
    → is_in_lineage relation ≡ true
unfolding authority_of
authority_of-true relation seen parent h = ground arith

authority_of-false :
    (relation : Relation) (s parent : String)
    → (authority_of relation (some s) (some parent)).1 ≡ some false
    → s ≡ parent
unfolding authority_of
authority_of-false relation s parent h = ground (arith, eq_iff s parent)

-- Where CURRENT could not be read, nothing is claimed.
authority_of-blind :
    (audited : String → Option (List String)) (c : Option String) (parent : String)
    → (authority_of (candidate_relation audited c none) none (some parent)).1 ≡ none
unfolding authority_of candidate_relation
authority_of-blind audited none parent = refl
authority_of-blind audited (some c) parent = refl

abbrev is_replace : Step → Bool
is_replace replace_current = true
is_replace _ = false

module _ (w : World) (observed target : String) (new : (observed == target) ≡ false)
    (unlisted : (ids : List String)
      → w.audited observed ≡ some ids
      → member target ids ≡ false) where
  -- A candidate is found in the lineage of CURRENT only if it is CURRENT.
  lineage-place :
      (c : Option String) (s : String)
      → (c ≡ none) ⊎ (c ≡ some target)
      → (s ≡ observed) ⊎ (s ≡ target)
      → is_in_lineage (candidate_relation w.audited c (some s)) ≡ true
      → s ≡ target
  unfolding candidate_relation
  lineage-place c s named (inr at_target) h = at_target
  lineage-place c s (inl e) (inl at_observed) h = cc (rw e at h)
  lineage-place c s (inr e) (inl at_observed) h = elim (Option-cases (w.audited observed)) [
    | inl broken ↦
        ground (arith, eq_iff target observed, eq_iff observed target, e, at_observed, broken)
    | inr (ids, walked) ↦
        ground (arith, eq_iff target observed, eq_iff observed target, unlisted ids)
  ]

  handler_current-cases :
      (r : Run)
      → Sound observed target r
      → (handler_current w observed target r ≡ none)
        ⊎ (handler_current w observed target r ≡ some r.current)
  unfolding handler_current
  handler_current-cases r s = elim (Bool-cases r.recorded) [
    | inl yes' ↦ elim (Bool-cases w.handler_read_fails) [
      | inl blind ↦ inl (rw (yes', blind))
      | inr sees ↦ inr (rw (yes', sees))
    ]
    | inr no' ↦ inr (rw no' (ap some (sym (s.unmoved no'))))
  ]

  failed-Honest :
      (r : Run) (code : String)
      → Sound observed target r
      → Honest observed target (failed w observed target r code)
  unfolding failed make_outcome
  failed-Honest r code s = elim (handler_current-cases r s) [
    | inl blind ↦ record {
      place = s.place;
      says_committed = λ h. cc (authority_of-blind w.audited r.candidate observed, rw blind at h);
      says_not = λ h. cc (authority_of-blind w.audited r.candidate observed, rw blind at h);
    }
    | inr sees ↦ record {
      place = s.place;
      says_committed = λ h.
          lineage-place r.candidate r.current s.named s.place
            (authority_of-true _ (some r.current) (some observed) (rw sees at h));
      says_not = λ h. authority_of-false _ r.current observed (rw sees at h);
    }
  ]

  keep-Preparing :
      (step : Step) → is_replace step ≡ false → KeptBy target (Preparing observed target) step
  unfolding perform land
  keep-Preparing replace_current e r h = cc
  keep-Preparing write_revision e r h =
      (record { place = h.place; named = inr refl }, record { place = h.place; named = h.named })
  keep-Preparing _ e r h =
      (record { place = h.place; named = h.named }, record { place = h.place; named = h.named })

  keep-Published : (step : Step) → KeptBy target (Published observed target) step
  unfolding perform land
  keep-Published replace_current r h =
      let moved : Published observed target (record r { current = target }) = record {
        place = inr refl;
        recorded = h.recorded;
        named = h.named;
      } in
      (moved, moved)
  keep-Published write_revision r h = (
    record { place = h.place; recorded = h.recorded; named = refl },
    record { place = h.place; recorded = h.recorded; named = h.named },
  )
  keep-Published write_prepared r h = (
    record { place = h.place; recorded = refl; named = h.named },
    record { place = h.place; recorded = h.recorded; named = h.named },
  )
  keep-Published _ r h = (
    record { place = h.place; recorded = h.recorded; named = h.named },
    record { place = h.place; recorded = h.recorded; named = h.named },
  )

  no_replace : (op : Operation) → all (λ step. not (is_replace step)) (preparation op) ≡ true
  no_replace write = refl
  no_replace checkpoint = refl
  no_replace refute = refl

  all_performed :
      (op : Operation)
      → Published observed target (perform_all target (preparation op) (fresh_run observed))
  unfolding perform
  all_performed write = record { place = inl refl; recorded = refl; named = refl }
  all_performed checkpoint = record { place = inl refl; recorded = refl; named = refl }
  all_performed refute = record { place = inl refl; recorded = refl; named = refl }

  Published-Sound : (r : Run) → Published observed target r → Sound observed target r
  Published-Sound r h = record {
    place = h.place;
    unmoved = λ k. cc (h.recorded, k);
    named = inr h.named;
  }

  conclude-Honest :
      (r : Run)
      → Published observed target r
      → r.current ≡ target
      → Honest observed target (conclude w observed target r)
  unfolding conclude succeeded make_outcome perform land
  conclude-Honest r h at_target = elim (Option-cases (w.fault record_commit)) [
    | inr (f, e) ↦
        rw (e, conclude)
          (failed-Honest (record r { audit = AuditState.incomplete }) f.code
            (record { place = h.place; unmoved = λ k. cc (h.recorded, k); named = inr h.named }))
    | inl e ↦
        rw (e, conclude)
          (record {
            place = h.place;
            says_committed = λ _. at_target;
            says_not = λ k. at_target ∙ authority_of-false _ target observed k;
          })
  ]

  publish-Honest :
      (r : Run) → Published observed target r → Honest observed target (publish w observed target r)
  unfolding publish failed conclude succeeded
  publish-Honest r h =
      let done = execute target w.fault publication r in
      let p =
        execute-keeps target (Published observed target) w.fault publication r
          (keep_all target (Published observed target) (λ _. true) (λ step _. keep-Published step)
            publication refl)
          h in
      elim (Option-cases done.1) [
        | inr (code, e) ↦ rw (e, publish) (failed-Honest done.0 code (Published-Sound done.0 p))
        | inl e ↦ elim (Bool-cases w.reread_fails) [
          | inl blind ↦
              rw (e, blind, publish)
                (failed-Honest done.0 "current_reread_failed" (Published-Sound done.0 p))
          | inr sees ↦ elim (Bool-cases (done.0.current == target)) [
            | inl there ↦
                rw (e, sees, there, publish)
                  (conclude-Honest done.0 p ((eq_iff done.0.current target).0 there))
            | inr elsewhere ↦
                rw (e, sees, elsewhere, publish)
                  (failed-Honest done.0 "current_reread_mismatch" (Published-Sound done.0 p))
          ]
        ]
      ]

  prepared_run :
      (op : Operation)
      → Preparing observed target (execute target w.fault (preparation op) (fresh_run observed)).0
  prepared_run op =
      execute-keeps target (Preparing observed target) w.fault (preparation op) (fresh_run observed)
        (keep_all target (Preparing observed target) (λ step. not (is_replace step))
          (λ step e. keep-Preparing step (ground arith)) (preparation op) (no_replace op))
        (record { place = refl; named = inl refl })

  -- A preparation without failure has recorded the transaction and knows its candidate.
  after_preparation :
      (op : Operation)
      → (execute target w.fault (preparation op) (fresh_run observed)).1 ≡ none
      → Published observed target (execute target w.fault (preparation op) (fresh_run observed)).0
  unfolding perform
  after_preparation op e =
      let done = execute-none target w.fault (preparation op) (fresh_run observed) e in
      subst (λ (r : Run). Published observed target r) (sym done) (all_performed op)

  -- However the storage fails, at any step and with or without the bytes having landed, CURRENT
  -- names the revision from before or the candidate; an outcome that says "committed" has CURRENT
  -- at the candidate, and one that says "not committed" has it at the revision from before. The
  -- candidate is another revision than the observed one and not in its audited chain.
  pub commit_locked-Honest :
      (op : Operation)
      → Honest observed target (commit_locked w observed target op (fresh_run observed))
  unfolding commit_locked
  commit_locked-Honest op =
      let done = execute target w.fault (preparation op) (fresh_run observed) in
      let p = prepared_run op in
      let sound : Sound observed target done.0 = record {
        place = inl p.place;
        unmoved = λ _. p.place;
        named = p.named;
      } in
      elim (Option-cases done.1) [
        | inr (code, e) ↦ rw (e, commit_locked) (failed-Honest done.0 code sound)
        | inl e ↦ elim (Bool-cases (done.0.current == observed)) [
          | inl same ↦ rw (e, same, commit_locked) (publish-Honest done.0 (after_preparation op e))
          | inr other ↦
              rw (e, other, commit_locked) (failed-Honest done.0 "storage_io_failed" sound)
        ]
      ]
