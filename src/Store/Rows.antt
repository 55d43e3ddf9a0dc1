-- ===== src/Store/Rows.antt =====
-- The records of a snapshot, one list for each stream, and the walk over the segments.
use an_kla_memory.Base.{String, ◌<>◌, ◌==◌, ◌||◌, Option, none, some, List, []}
use an_kla_memory.Base.{◌∷◌, if◌then◌else◌, member, integrity, Result, ok, err, cons_result}
use an_kla_memory.Json.{Json, Fields, str, lookup}
use an_kla_memory.WritePolicy.Types.{Stream, facts, events, episodes}

-- One value for each of `STREAMS`.
pub record PerStream {ℓ} (A : Type ℓ) : Type ℓ where
  pub facts_part : A
  pub events_part : A
  pub episodes_part : A

abbrev pub of_stream {ℓ} : {A : Type ℓ} → Stream → PerStream A → A
of_stream facts r = r.facts_part
of_stream events r = r.events_part
of_stream episodes r = r.episodes_part

abbrev pub Rows : Type 0
Rows = PerStream (List Fields)

module _ (show : Json → String) where
  -- `str(value)`; `show` is Python's `str` of a value that is not a text.
  abbrev pub to_text : Json → String
  to_text (str s) = s
  to_text v = show v

  -- `str(row.get("id", ""))`
  abbrev pub id_of : Fields → String
  id_of row = elim (lookup "id" row) [ none ↦ "" | some v ↦ to_text v ]

  abbrev pub ids : List Fields → List String
  ids [] = []
  ids (row ∷ rows) = id_of row ∷ ids rows

  -- `next((r for r in rows if str(r.get("id", "")) == wanted), None)`
  unfoldable pub find_row : String → List Fields → Option Fields
  find_row wanted [] = none
  find_row wanted (row ∷ rows) = if id_of row == wanted then some row else find_row wanted rows

  -- The rows of the segments of one stream, `seen` being the ids met so far.
  unfoldable pub scan_rows : String → List String → List Fields → Result (List Fields)
  scan_rows stream seen [] = ok []
  scan_rows stream seen (row ∷ rows) =
      let rest = cons_result row (scan_rows stream (id_of row ∷ seen) rows) in
      if id_of row == "" || member (id_of row) seen
      then err (integrity ("duplicate_or_missing_" <> (stream <> "_id")))
      else rest
