-- ===== src/Store/BatchGuard.antt =====
-- `_guard_batch_against_snapshot` of an_kla/plan_guard.py: the guard of a batch.
use an_kla_memory.Base.{
  String, ◌==◌, ◌≡◌, refl, sym, subst, >>-eq-ok, Bool, true, false, Option, none, some, List, [],
}
use an_kla_memory.Base.{
  ◌∷◌, if◌then◌else◌, member, distinct, Result, ok, err, write_policy, key_error,
}
use an_kla_memory.Base.{raise_if, ◌>>◌, arith, eq_iff, Bool-cases, inl, inr}
use an_kla_memory.Json.{Json, Fields}
use an_kla_memory.WritePolicy.Types.{Proposal, Operation, supersede}
use an_kla_memory.Store.Rows.{id_of, ids, find_row}
use an_kla_memory.Store.Guard.{check_target, guard_plan}

absent_below :
    (wanted id : String) (below : List String)
    → (id == wanted) ≡ true
    → distinct (id ∷ below) ≡ true
    → member wanted below ≡ false
absent_below wanted id below here h = ground (
  arith,
  subst (λ (x : String). member x below ≡ member wanted below) (sym ((eq_iff id wanted).0 here))
      refl,
)

distinct_below :
    (id : String) (below : List String) → distinct (id ∷ below) ≡ true → distinct below ≡ true
distinct_below id below h = ground arith

first_or_later :
    (here : Bool) (row : Fields) (later : Option Fields)
    → here ≡ false
    → (elim later as (λ x. Option Fields) [
      | none ↦ if here then some row else none
      | some found ↦ some found
    ])
      ≡ (if here then some row else later)
first_or_later here row none h = refl
first_or_later here row (some found) h = rw h refl

module _ (show : Json → String) where
  -- `by_id.get(wanted)`: of two rows with one id, the dict keeps the later one.
  unfoldable pub find_last : String → List Fields → Option Fields
  find_last wanted [] = none
  find_last wanted (row ∷ rows) = elim (find_last wanted rows) [
    | some found ↦ some found
    | none ↦ if id_of show row == wanted then some row else none
  ]

  -- One record of the batch: its id, and the target that the batch names for it.
  unfoldable pub guard_record : List Fields → Operation → String × Option String → Result (Unit {0})
  unfolding find_last check_target
  guard_record rows operation (row_id, target) =
      raise_if (member row_id (ids show rows)) (write_policy "plan_duplicate_id" none)
      >> (elim operation [
        | supersede ↦ elim target [
          | none ↦ err key_error
          | some wanted ↦
              check_target (write_policy "plan_supersede_target_missing" none)
                (write_policy "plan_supersede_target_not_vigente" none) (find_last wanted rows)
        ]
        | _ ↦ ok tt
      ])

  unfoldable pub guard_batch :
      List Fields → Operation → List (String × Option String) → Result (Unit {0})
  unfolding guard_record
  guard_batch rows operation [] = ok tt
  guard_batch rows operation (r ∷ records) =
      guard_record rows operation r >> guard_batch rows operation records

  find_last-absent :
      (wanted : String) (rows : List Fields)
      → member wanted (ids show rows) ≡ false
      → find_last wanted rows ≡ none
  unfolding find_last
  find_last-absent wanted [] h = refl
  find_last-absent wanted (row ∷ rows) h = ground (
    arith,
    eq_iff wanted (id_of show row),
    eq_iff (id_of show row) wanted,
    find_last-absent wanted rows,
  )

  -- Where no id comes twice, the last row with an id is the first one.
  find_last-find_row :
      (wanted : String) (rows : List Fields)
      → distinct (ids show rows) ≡ true
      → find_last wanted rows ≡ find_row show wanted rows
  unfolding find_last find_row
  find_last-find_row wanted [] h = refl
  find_last-find_row wanted (row ∷ rows) h = elim (Bool-cases (id_of show row == wanted)) [
    | inl here ↦
        rw
          (
            find_last-absent wanted rows
                (absent_below wanted (id_of show row) (ids show rows) here h),
            here,
          )
          refl
    | inr there ↦
        rw (find_last-find_row wanted rows (distinct_below (id_of show row) (ids show rows) h))
          (first_or_later (id_of show row == wanted) row (find_row show wanted rows) there)
  ]

  -- One record of a batch as a proposal of its own.
  abbrev pub single : Proposal → String × Option String → Proposal
  single p (row_id, target) = record p { row_id = row_id; supersedes = target }

  abbrev pub AllGuarded : List Fields → Proposal → List (String × Option String) → Type 0
  AllGuarded rows p [] = Unit
  AllGuarded rows p (r ∷ records) =
      (guard_plan show rows (single p r) ≡ ok tt) × AllGuarded rows p records

  guard_record-single :
      (rows : List Fields) (p : Proposal) (r : String × Option String)
      → distinct (ids show rows) ≡ true
      → guard_record rows p.operation r ≡ ok tt
      → guard_plan show rows (single p r) ≡ ok tt
  unfolding guard_record guard_plan
  guard_record-single rows p (row_id, none) different h = ground arith
  guard_record-single rows p (row_id, some wanted) different h =
      ground (arith, find_last-find_row wanted rows different)

  -- Where no id comes twice in the stream, every record of a batch that passed the guard passes the
  -- guard of a single proposal.
  pub guard_batch-AllGuarded :
      (rows : List Fields) (p : Proposal) (records : List (String × Option String))
      → distinct (ids show rows) ≡ true
      → guard_batch rows p.operation records ≡ ok tt
      → AllGuarded rows p records
  unfolding guard_batch
  guard_batch-AllGuarded rows p [] different h = tt
  guard_batch-AllGuarded rows p (r ∷ records) different h =
      let (first, later) =
        >>-eq-ok (guard_record rows p.operation r) (guard_batch rows p.operation records) h in
      (
        guard_record-single rows p r different first,
        guard_batch-AllGuarded rows p records different later,
      )
