-- ===== src/Store/Assign.antt =====
-- `MemoryStore._assign_records`: the new records of a commit must have new ids.
use an_kla_memory.Base.{String, ◌<>◌, ◌==◌, ◌≡◌, refl, sym, ap, ◌∙◌, false, ◌||◌, Option, none}
use an_kla_memory.Base.{some, List, [], ◌∷◌, ◌++◌, if◌then◌else◌, member, store, Result, ok, err}
use an_kla_memory.Base.{◌>>=◌, arith, cons_result, cons_result-eq-ok, Bool-cases, inl, inr}
use an_kla_memory.Json.{Json, Fields, as_str, get}
use an_kla_memory.Store.Rows.{Rows, id_of, ids, scan_rows}

-- One stream: `existing` holds the ids of the base and of the rows before.
unfoldable pub assign_rows : String → List String → List Fields → Result (List Fields)
assign_rows stream existing [] = ok []
assign_rows stream existing (row ∷ rows) = elim (as_str (get row "id")) [
  | none ↦ err (store ("missing_" <> (stream <> "_id")))
  | some value ↦
      let rest = cons_result row (assign_rows stream (value ∷ existing) rows) in
      if value == ""
      then err (store ("missing_" <> (stream <> "_id")))
      else if member value existing
      then err (store ("duplicate_" <> (stream <> "_id")))
      else rest
]

-- What an accepted row passed.
record Accepted (stream : String) (existing : List String) (row : Fields) (ys rows : List Fields)
    : Type 0 where
  value : String
  named : as_str (get row "id") ≡ some value
  filled : (value == "") ≡ false
  fresh : member value existing ≡ false
  rest : List Fields
  later : assign_rows stream (value ∷ existing) ys ≡ ok rest
  built : rows ≡ row ∷ rest

assign_step-Accepted :
    (stream : String) (existing : List String) (row : Fields) (ys rows : List Fields)
    (value : String)
    → as_str (get row "id") ≡ some value
    → (if value == ""
        then err (store ("missing_" <> (stream <> "_id")))
        else if member value existing
        then err (store ("duplicate_" <> (stream <> "_id")))
        else cons_result row (assign_rows stream (value ∷ existing) ys))
      ≡ ok rows
    → Accepted stream existing row ys rows
assign_step-Accepted stream existing row ys rows value named h = elim (Bool-cases (value == "")) [
  | inl empty ↦ cc (rw empty at h)
  | inr filled ↦
      let h₁ = rw filled at h in
      elim (Bool-cases (member value existing)) [
        | inl old ↦ cc (rw old at h₁)
        | inr fresh ↦
            let (rest, later, built) =
              cons_result-eq-ok row (assign_rows stream (value ∷ existing) ys) (rw fresh at h₁) in
            record {
              value = value;
              named = named;
              filled = filled;
              fresh = fresh;
              rest = rest;
              later = later;
              built = built;
            }
      ]
]

assign_rows-Accepted :
    (stream : String) (existing : List String) (row : Fields) (ys rows : List Fields)
    → assign_rows stream existing (row ∷ ys) ≡ ok rows
    → Accepted stream existing row ys rows
unfolding assign_rows
assign_rows-Accepted stream existing row ys rows h = at_name (as_str (get row "id")) refl h
  where
    at_name :
        (o : Option String)
        → as_str (get row "id") ≡ o
        → (elim o as (λ _. Result (List Fields)) [
          | none ↦ err (store ("missing_" <> (stream <> "_id")))
          | some value ↦
              if value == ""
              then err (store ("missing_" <> (stream <> "_id")))
              else if member value existing
              then err (store ("duplicate_" <> (stream <> "_id")))
              else cons_result row (assign_rows stream (value ∷ existing) ys)
        ])
          ≡ ok rows
        → Accepted stream existing row ys rows
    at_name none e k = cc
    at_name (some value) e k = assign_step-Accepted stream existing row ys rows value e k

module _ (show : Json → String) where
  unfoldable pub assign_records : Rows → Rows → Result Rows
  unfolding assign_rows
  assign_records base pending = do
    f ← assign_rows "facts" (ids show base.facts_part) pending.facts_part
    e ← assign_rows "events" (ids show base.events_part) pending.events_part
    p ← assign_rows "episodes" (ids show base.episodes_part) pending.episodes_part
    ok (record { facts_part = f; events_part = e; episodes_part = p })

  -- A row whose `id` is a text has that id.
  id_of-text :
      (row : Fields) (value : String) → as_str (get row "id") ≡ some value → id_of show row ≡ value
  id_of-text row value h = ground arith

  -- Rows that were assigned are the given ones, and a reader accepts them behind the ids that
  -- the assignment knew.
  assign_then_scan :
      (stream : String) (ys : List Fields) (seen existing : List String) {rows : List Fields}
      → ((x : String) → member x existing ≡ member x seen)
      → assign_rows stream existing ys ≡ ok rows
      → (rows ≡ ys) × (scan_rows show stream seen ys ≡ ok ys)
  unfolding assign_rows scan_rows
  assign_then_scan stream [] seen existing same h = (cc, refl)
  assign_then_scan stream (row ∷ ys) seen existing same h =
      let a = assign_rows-Accepted stream existing row ys _ h in
      let named = id_of-text row a.value a.named in
      let (same_rows, scanned) =
        assign_then_scan stream ys (a.value ∷ seen) (a.value ∷ existing) (λ x. rw (same x))
          a.later in
      let unseen = sym (same a.value) ∙ a.fresh in
      (a.built ∙ ap (λ (l : List Fields). row ∷ l) same_rows, rw (named, a.filled, unseen, scanned))

  -- The rows of the base, then the new ones.
  scan-assigned :
      (stream : String) (xs ys : List Fields) (seen existing : List String) {rows : List Fields}
      → ((x : String) → member x existing ≡ (member x (ids show xs) || member x seen))
      → scan_rows show stream seen xs ≡ ok xs
      → assign_rows stream existing ys ≡ ok rows
      → scan_rows show stream seen (xs ++ rows) ≡ ok (xs ++ rows)
  unfolding scan_rows
  scan-assigned stream [] ys seen existing same h k =
      let (same_rows, scanned) = assign_then_scan stream ys seen existing same k in
      rw same_rows scanned
  scan-assigned stream (x ∷ xs) ys seen existing same h k =
      elim (Bool-cases (id_of show x == "" || member (id_of show x) seen)) [
        | inl bad ↦ cc (rw bad at h)
        | inr good ↦
            let (rest, scanned, built) =
              cons_result-eq-ok x (scan_rows show stream (id_of show x ∷ seen) xs) (rw good at h) in
            let same_rest : rest ≡ xs = cc built in
            let all =
              scan-assigned stream xs ys (id_of show x ∷ seen) existing
                (λ y. ground (arith, same y)) (scanned ∙ ap ok same_rest) k in
            rw (good, all)
      ]

  -- The segments of a base that a snapshot accepts, followed by the rows that a commit assigned
  -- to the stream, are accepted again; and the assigned rows are the given ones.
  pub assign_rows-keeps_scan :
      (stream : String) (base pending : List Fields) {rows : List Fields}
      → scan_rows show stream [] base ≡ ok base
      → assign_rows stream (ids show base) pending ≡ ok rows
      → (rows ≡ pending) × (scan_rows show stream [] (base ++ rows) ≡ ok (base ++ rows))
  assign_rows-keeps_scan stream base pending h k = (
    (assign_then_scan stream pending (ids show base) (ids show base) (λ x. refl) k).0,
    scan-assigned stream base pending [] (ids show base) (λ x. ground arith) h k,
  )
