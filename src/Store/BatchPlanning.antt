-- ===== src/Store/BatchPlanning.antt =====
-- `MemoryStore.plan_write` of an_kla/store.py, for write-proposal-v2, and what becomes of its records.
use an_kla_memory.Base.{
  String, ◌==◌, ◌≡◌, ◌≢◌, refl, sym, ap, ◌∙◌, Bool, true, false, not, Option, none, some, List, [],
  ◌∷◌,
}
use an_kla_memory.Base.{
  Result, ok, raise_if, ◌>>=◌, ◌>>◌, write_policy, member, all, distinct, arith, eq_iff,
}
use an_kla_memory.Base.{>>=-eq-ok, >>-eq-ok, raise_if-eq-ok}
use an_kla_memory.Base.Text.{Unicode}
use an_kla_memory.Json.{Json, Fields, as_str, get, lookup}
use an_kla_memory.WritePolicy.Evaluate.{Decision, Verdict, skip, write_full, write_summary}
use an_kla_memory.WritePolicy.Decision.{decision_json}
use an_kla_memory.WriteBatch.Validate.{Batch, validate_batch_proposal, row_ids}
use an_kla_memory.WriteBatch.Judge.{evaluate_batch}
use an_kla_memory.WriteBatch.Named.{AllNamed, validate_batch_proposal-IsWellNamed}
use an_kla_memory.WritePolicy.Types.{Operation, stream_name, events}
use an_kla_memory.WriteBatch.Assemble.{build_batch_plan}
use an_kla_memory.Store.Rows.{Rows, of_stream, ids}
use an_kla_memory.Store.Assign.{assign_rows}
use an_kla_memory.Store.BatchGuard.{guard_batch, guard_record}
use an_kla_memory.Store.Reading.{records_of}
use an_kla_memory.Store.Pending.{pending, rows_of}
use an_kla_memory.Store.BatchRecords.{build_batch_plan-pending}
use an_kla_memory.Base.{ok_inj}

-- `proposal["supersedes"][id]` of a validated batch.
abbrev pub target_in : Fields → String → Option String
target_in targets id = elim (lookup id targets) [ none ↦ none | some v ↦ as_str v ]

abbrev pub guarded_pairs : Fields → List (String × Fields) → List (String × Option String)
guarded_pairs targets [] = []
guarded_pairs targets ((id, row) ∷ rows) = (id, target_in targets id) ∷ guarded_pairs targets rows

module _ (show : Json → String) (sha256 : String → String) (u : Unicode) where
  unfoldable pub guard_batch_unless_skip : Verdict → Result Rows → Batch → Result (Unit {0})
  unfolding guard_batch
  guard_batch_unless_skip skip snapshot b = ok tt
  guard_batch_unless_skip _ snapshot b = snapshot >>= λ rows.
      guard_batch show (of_stream b.stream rows) b.operation (guarded_pairs b.targets b.rows)

  unfoldable pub plan_batch : String → Result Rows → Json → Json → Result (Decision × Json)
  unfolding guard_batch_unless_skip
  plan_batch observed snapshot proposal authority = do
    d ← evaluate_batch sha256 u proposal authority
    b ← validate_batch_proposal proposal
    raise_if (not (b.base_revision == observed)) (write_policy "write_plan_base_changed" none)
    guard_batch_unless_skip d.verdict snapshot b
    plan ← build_batch_plan sha256 u proposal authority (some (decision_json d))
    ok (d, plan)

-- No id of the list is taken.
abbrev all_fresh : List String → List String → Bool
all_fresh taken xs = all (λ x. not (member x taken)) xs

all_fresh-cons :
    (id : String) (taken xs : List String)
    → member id xs ≡ false
    → all_fresh taken xs ≡ true
    → all_fresh (id ∷ taken) xs ≡ true
all_fresh-cons id taken [] h k = refl
all_fresh-cons id taken (x ∷ xs) h k =
    ground (arith, eq_iff x id, eq_iff id x, all_fresh-cons id taken xs)

assign_rows-cons :
    (stream : String) (taken : List String) (id : String) (row : Fields) (rows : List Fields)
    → as_str (get row "id") ≡ some id
    → (id == "") ≡ false
    → member id taken ≡ false
    → assign_rows stream (id ∷ taken) rows ≡ ok rows
    → assign_rows stream taken (row ∷ rows) ≡ ok (row ∷ rows)
unfolding assign_rows
assign_rows-cons stream taken id row rows named filled new rest =
    ground (arith, named, filled, new, rest)

assign_rows-fresh :
    (stream : String) (taken : List String) (rows : List (String × Fields))
    → AllNamed rows
    → distinct (row_ids rows) ≡ true
    → all_fresh taken (row_ids rows) ≡ true
    → assign_rows stream taken (rows_of rows) ≡ ok (rows_of rows)
unfolding assign_rows
assign_rows-fresh stream taken [] h d f = refl
assign_rows-fresh stream taken ((id, row) ∷ rows) (named, filled, later) d f =
    let new : member id taken ≡ false = ground arith in
    let alone : member id (row_ids rows) ≡ false = ground arith in
    let rest =
      assign_rows-fresh stream (id ∷ taken) rows later (ground arith)
        (all_fresh-cons id taken (row_ids rows) alone (ground arith)) in
    assign_rows-cons stream taken id row (rows_of rows) named filled new rest

module _ (show : Json → String) where
  guard_record-fresh :
      (rows : List Fields) (op : Operation) (id : String) (target : Option String)
      → guard_record show rows op (id, target) ≡ ok tt
      → member id (ids show rows) ≡ false
  unfolding guard_record
  guard_record-fresh rows op id target h = (raise_if-eq-ok (member id (ids show rows)) _ _ h).0

  guard_batch-fresh :
      (rows : List Fields) (op : Operation) (targets : Fields) (rs : List (String × Fields))
      → guard_batch show rows op (guarded_pairs targets rs) ≡ ok tt
      → all_fresh (ids show rows) (row_ids rs) ≡ true
  unfolding guard_batch
  guard_batch-fresh rows op targets [] h = refl
  guard_batch-fresh rows op targets ((id, row) ∷ rs) h =
      let (first, later) =
        >>-eq-ok (guard_record show rows op (id, target_in targets id))
          (guard_batch show rows op (guarded_pairs targets rs)) h in
      rw (guard_record-fresh rows op id (target_in targets id) first)
        (guard_batch-fresh rows op targets rs later)

module _ (show : Json → String) (sha256 : String → String) (u : Unicode) where
  guard_batch_unless_skip-guarded :
      (v : Verdict) (rows : Rows) (b : Batch)
      → v ≢ skip
      → guard_batch_unless_skip show sha256 u v (ok rows) b ≡ ok tt
      → guard_batch show (of_stream b.stream rows) b.operation (guarded_pairs b.targets b.rows)
        ≡ ok tt
  unfolding guard_batch_unless_skip
  guard_batch_unless_skip-guarded skip rows b written h = absurd (written refl)
  guard_batch_unless_skip-guarded write_full rows b written h = h
  guard_batch_unless_skip-guarded write_summary rows b written h = h

  -- A plan to write a batch was made for a valid batch, not one of events, on the revision that was
  -- observed. On the snapshot it was made on, the records that the commit takes from the plan for
  -- the batch's stream are all given their places, and they are the batch's own, in their order.
  pub plan_batch-assigns :
      (observed : String) (rows : Rows) (proposal authority : Json) (d : Decision) (plan : Json)
      (b : Batch)
      → plan_batch show sha256 u observed (ok rows) proposal authority ≡ ok (d, plan)
      → d.verdict ≢ skip
      → validate_batch_proposal proposal ≡ ok b
      → b.stream ≢ events
      → (b.base_revision ≡ observed)
        × ((pending b.stream (records_of plan)
              >>= assign_rows (stream_name b.stream) (ids show (of_stream b.stream rows)))
            ≡ ok (rows_of b.rows))
  unfolding plan_batch
  plan_batch-assigns observed rows proposal authority d plan b h written valid other =
      let (d', h₁, judged) = >>=-eq-ok (evaluate_batch sha256 u proposal authority) _ h in
      let (b', h₂, valid') = >>=-eq-ok (validate_batch_proposal proposal) _ h₁ in
      let (based, h₃) = raise_if-eq-ok (not (b'.base_revision == observed)) _ _ h₂ in
      let (guarded, h₄) =
        >>-eq-ok (guard_batch_unless_skip show sha256 u d'.verdict (ok rows) b') _ h₃ in
      let (plan', h₅, built) =
        >>=-eq-ok (build_batch_plan sha256 u proposal authority (some (decision_json d'))) _ h₄ in
      let same : d' ≡ d = cc h₅ in
      let same_plan : plan' ≡ plan = cc h₅ in
      let same_b : b' ≡ b = ok_inj (sym valid' ∙ valid) in
      let written' : d'.verdict ≢ skip =
        λ e. written (ap (λ (x : Decision). x.verdict) (sym same) ∙ e) in
      let (named, unlike, _) = validate_batch_proposal-IsWellNamed proposal b valid in
      let taken : Result (List Fields) → Result (List Fields) =
        λ m. m >>= assign_rows (stream_name b.stream) (ids show (of_stream b.stream rows)) in
      let passed =
        guard_batch_unless_skip-guarded d'.verdict rows b written' (
          ap (guard_batch_unless_skip show sha256 u d'.verdict (ok rows)) (sym same_b) ∙ guarded) in
      (
        ap (λ (x : Batch). x.base_revision) (sym same_b)
            ∙ ground (arith, eq_iff b'.base_revision observed, based),
        ap (λ v. taken (pending b.stream (records_of v))) (sym same_plan)
            ∙ (ap taken (
                  build_batch_plan-pending sha256 u proposal authority (some (decision_json d')) d'
                    b plan' judged written' valid other built)
                ∙ assign_rows-fresh (stream_name b.stream) (ids show (of_stream b.stream rows))
                    b.rows named unlike
                    (guard_batch-fresh show (of_stream b.stream rows) b.operation b.targets b.rows
                      passed)),
      )
