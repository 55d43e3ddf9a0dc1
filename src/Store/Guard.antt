-- ===== src/Store/Guard.antt =====
-- an_kla/plan_guard.py, for one record, and an_kla/supersede.py: the checks of a plan against a
-- snapshot, once when it is planned and once when it is committed under the lock.
use an_kla_memory.Base.{String, ◌==◌, ◌≡◌, false, not, Option, none, some}
use an_kla_memory.Base.{List, [], ◌∷◌, member, Error, write_policy, Result, ok, err}
use an_kla_memory.Base.{raise_if, ◌>>=◌, ◌>>◌, arith, true, eq_iff, Option-cases, inl, inr}
use an_kla_memory.Json.{Json, Fields}
use an_kla_memory.Record.Vigency.{is_active}
use an_kla_memory.WritePolicy.Types.{Proposal, Stream, Operation, add, supersede}
use an_kla_memory.Store.Rows.{of_stream, Rows, id_of, ids, find_row}
use an_kla_memory.Store.Overlay.{Supersession}

-- A supersede target must be there and be current.
unfoldable pub check_target : Error → Error → Option Fields → Result (Unit {0})
check_target missing stale none = err missing
check_target missing stale (some target) = raise_if (not (is_active target)) stale

abbrev pub target_of : Option String → String
target_of none = ""
target_of (some target) = target

abbrev pub invalid_target : String → Error
invalid_target detail = write_policy "invalid_supersede_target" (some detail)

-- The items that `build_write_plan` plans: the record, and the event of the decision.
abbrev pub planned_items : Proposal → String → List (Stream × Operation × String × String)
planned_items p event_id =
    (p.stream, p.operation, p.row_id, target_of p.supersedes)
    ∷ (Stream.events, add, event_id, "")
    ∷ []

abbrev pub planned_targets : Proposal → List Supersession
planned_targets p = elim p.operation [
  | supersede ↦
      record { stream = p.stream; target_id = target_of p.supersedes; successor = p.row_id } ∷ []
  | _ ↦ []
]

module _ (show : Json → String) where
  -- `guard_plan_against_snapshot` on the records of the proposal's stream.
  unfoldable pub guard_plan : List Fields → Proposal → Result (Unit {0})
  unfolding check_target find_row
  guard_plan rows p =
      raise_if (member p.row_id (ids show rows)) (write_policy "plan_duplicate_id" none)
      >> (elim p.operation [
        | supersede ↦
            check_target (write_policy "plan_supersede_target_missing" none)
              (write_policy "plan_supersede_target_not_vigente" none)
              (find_row show (target_of p.supersedes) rows)
        | _ ↦ ok tt
      ])

  -- One item of `plan["records"]`: its stream, operation, record id and target.
  unfoldable pub resolve_item : Rows → Stream → String → String → Result Supersession
  unfolding check_target find_row
  resolve_item rows stream row_id target =
      raise_if (target == row_id) (invalid_target "self_reference")
      >> check_target (invalid_target "target_missing") (invalid_target "target_not_vigente")
          (find_row show target (of_stream stream rows))
      >> ok (record { stream = stream; target_id = target; successor = row_id })

  -- `resolve_supersede_targets`: the items that supersede, in order.
  unfoldable pub resolve_targets :
      Rows → List (Stream × Operation × String × String) → Result (List Supersession)
  unfolding resolve_item
  resolve_targets rows [] = ok []
  resolve_targets rows ((stream, supersede, row_id, target) ∷ items) =
      resolve_item rows stream row_id target >>= λ s.
      resolve_targets rows items >>= λ rest. ok (s ∷ rest)
  resolve_targets rows ((stream, _, row_id, target) ∷ items) = resolve_targets rows items

  find_row-member :
      (wanted : String) (rows : List Fields) (row : Fields)
      → find_row show wanted rows ≡ some row
      → member wanted (ids show rows) ≡ true
  unfolding find_row
  find_row-member wanted [] row h = cc
  find_row-member wanted (r ∷ rows) row h = ground (
    arith,
    eq_iff (id_of show r) wanted,
    eq_iff wanted (id_of show r),
    find_row-member wanted rows row,
  )

  -- The target of a guarded replacement is another record than the new one.
  target-other :
      (target row_id : String) (rows : List Fields) {row : Fields}
      → find_row show target rows ≡ some row
      → member row_id (ids show rows) ≡ false
      → (target == row_id) ≡ false
  target-other target row_id rows {row = row} found fresh =
      ground (arith, eq_iff target row_id, find_row-member target rows row found)

  -- A proposal that was guarded against a snapshot keeps its word at the commit: on the same
  -- snapshot every target resolves, to the one flip that the proposal asks for, and the new
  -- record's id is fresh in its stream.
  pub guard_plan-resolves :
      (rows : Rows) (p : Proposal) (event_id : String)
      → guard_plan (of_stream p.stream rows) p ≡ ok tt
      → (resolve_targets rows (planned_items p event_id) ≡ ok (planned_targets p))
        × (member p.row_id (ids show (of_stream p.stream rows)) ≡ false)
  unfolding guard_plan resolve_targets
  guard_plan-resolves rows p event_id h =
      elim (Option-cases (find_row show (target_of p.supersedes) (of_stream p.stream rows))) [
        | inl missing ↦ ground arith
        | inr (row, found) ↦
            ground (
              arith,
              target-other (target_of p.supersedes) p.row_id (of_stream p.stream rows) found,
            )
      ]
