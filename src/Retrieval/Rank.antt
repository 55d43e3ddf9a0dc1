-- ===== src/Retrieval/Rank.antt =====
-- The first half of `_retrieve_under_gate`: what each record of the snapshot comes to, the order of
-- the candidates, and the counters of what was left out.
use an_kla_memory.Base.{ℕ, suc, ◌+◌, String, ◌==◌, Bool, not, ◌&&◌, ◌||◌, List, [], ◌∷◌, ◌++◌}
use an_kla_memory.Base.{if◌then◌else◌, ltb, eqb, length, member}
use an_kla_memory.Base.Text.{Unicode, casefold, words, str_le, add}
use an_kla_memory.Json.{Json, Fields, get, is_truthy}
use an_kla_memory.Record.Vigency.{is_active}
use an_kla_memory.Record.RecordText.{record_text}
use an_kla_memory.WritePolicy.Types.{Stream}
use an_kla_memory.Store.Rows.{Rows, of_stream, id_of}

-- `EXCLUDED_DETAIL_CAP`
abbrev pub detail_cap : ℕ
detail_cap = 50

pub data Reason : Type 0 where
  inactive zero_score budget invalid_record no_text : Reason

-- A counter, with the first identifiers that it counted.
pub record Tally : Type 0 where
  pub count : ℕ
  pub ids : List String

-- `excluded` and `excluded_detail`
pub record Excluded : Type 0 where
  pub inactive_rows : Tally
  pub zero_rows : Tally
  pub budget_rows : Tally
  pub invalid_rows : Tally
  pub no_text_rows : Tally

abbrev empty_tally : Tally
empty_tally = record { count = 0; ids = [] }

abbrev pub no_exclusions : Excluded
no_exclusions = record {
  inactive_rows = empty_tally;
  zero_rows = empty_tally;
  budget_rows = empty_tally;
  invalid_rows = empty_tally;
  no_text_rows = empty_tally;
}

unfoldable pub tally : String → Tally → Tally
tally id t = record {
  count = suc t.count;
  ids = (if ltb (length t.ids) detail_cap then t.ids ++ (id ∷ []) else t.ids);
}

-- A record without an id is counted, and has no identifier to keep.
unfoldable pub note : Reason → String → Excluded → Excluded
unfolding tally
note inactive id e = record e { inactive_rows = tally id e.inactive_rows }
note zero_score id e = record e { zero_rows = tally id e.zero_rows }
note budget id e = record e { budget_rows = tally id e.budget_rows }
note invalid_record id e = record e {
  invalid_rows = record e.invalid_rows { count = suc e.invalid_rows.count };
}
note no_text id e = record e { no_text_rows = tally id e.no_text_rows }

-- An entry of `ranked`.
pub record Candidate : Type 0 where
  pub score : ℕ
  pub id : String
  pub row : Fields
  pub render : String
  pub stream : Stream

pub data Verdict : Type 0 where
  kept : Candidate → Verdict
  dropped : Reason → String → Verdict

module _ (u : Unicode) where
  -- `_terms`: a set, kept as a list without repetition.
  unfoldable pub terms_of : List String → List String
  terms_of [] = []
  terms_of (w ∷ ws) = add (casefold u w) (terms_of ws)

  unfoldable pub terms : String → List String
  unfolding terms_of words
  terms text = terms_of (words u text)

  -- `len(xs & ys)`
  unfoldable pub overlap : List String → List String → ℕ
  overlap [] ys = 0
  overlap (x ∷ xs) ys = (if member x ys then 1 else 0) + overlap xs ys

  module _ (show : Json → String) where
    -- The body of the loop over the records.
    unfoldable pub classify : List String → Stream → Fields → Verdict
    unfolding overlap terms is_active record_text
    classify query_terms stream row =
        let render = record_text u row in
        if not (is_active row)
        then dropped inactive (id_of show row)
        else if not (is_truthy (get row "id"))
        then dropped invalid_record ""
        else if render == ""
        then dropped no_text (id_of show row)
        else kept (record {
          score = overlap query_terms (terms render);
          id = id_of show row;
          row = row;
          render = render;
          stream = stream;
        })

    -- The records of the streams, in the order of the two loops.
    abbrev with_stream : Stream → List Fields → List (Stream × Fields)
    with_stream stream [] = []
    with_stream stream (row ∷ rows) = (stream, row) ∷ with_stream stream rows

    abbrev pub pool : Rows → List Stream → List (Stream × Fields)
    pool rows [] = []
    pool rows (stream ∷ streams) = with_stream stream (of_stream stream rows) ++ pool rows streams

    unfoldable pub scan :
        List String → Excluded → List (Stream × Fields) → List Candidate × Excluded
    unfolding classify note
    scan query_terms e [] = ([], e)
    scan query_terms e ((stream, row) ∷ rest) = elim (classify query_terms stream row) [
      | kept c ↦ let later = scan query_terms e rest in (c ∷ later.0, later.1)
      | dropped why id ↦ scan query_terms (note why id e) rest
    ]

-- The key `(-score, id)`: whether the first is not above the second.
unfoldable pub before : ℕ → String → ℕ → String → Bool
before s i t j = ltb t s || eqb s t && str_le i j

-- `ranked.sort(key=...)`, which is stable.
unfoldable pub insert_ranked : Candidate → List Candidate → List Candidate
unfolding before
insert_ranked c [] = c ∷ []
insert_ranked c (d ∷ ds) =
    let rest = insert_ranked c ds in
    if before c.score c.id d.score d.id then c ∷ d ∷ ds else d ∷ rest

unfoldable pub sort_ranked : List Candidate → List Candidate
unfolding insert_ranked
sort_ranked [] = []
sort_ranked (c ∷ cs) = insert_ranked c (sort_ranked cs)

-- Candidates without a term of the query are counted and left out.
unfoldable pub drop_zero : Excluded → List Candidate → List Candidate × Excluded
unfolding note
drop_zero e [] = ([], e)
drop_zero e (c ∷ cs) =
    let skipped = drop_zero (note zero_score c.id e) cs in
    let rest = drop_zero e cs in if eqb c.score 0 then skipped else (c ∷ rest.0, rest.1)
