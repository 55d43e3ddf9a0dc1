-- ===== src/Retrieval/Tests.antt =====
-- A small snapshot for each theorem on retrieval.
use an_kla_memory.Base.{String, ◌≡◌, refl, true, not, none, some, List, [], ◌∷◌, ok}
use an_kla_memory.Base.{map, all}
use an_kla_memory.Base.Int.{pos}
use an_kla_memory.Base.Text.{Unicode, strip, casefold}
use an_kla_memory.Canonical.{byte_length}
use an_kla_memory.Json.{Json, Fields, field, end, str, null}
use an_kla_memory.Store.Rows.{Rows}
use an_kla_memory.WritePolicy.Types.{facts}
use an_kla_memory.WritePolicy.Samples.{one_space}
use an_kla_memory.Retrieval.Rank.{
  Candidate, scan, drop_zero, sort_ranked, terms, pool, no_exclusions,
}
use an_kla_memory.Retrieval.Select.{Index, Item}
use an_kla_memory.Retrieval.Run.{
  Request, Retrieved, scan_fallback, fts_index, run, retrieve_under_gate,
}
use an_kla_memory.Retrieval.Run.{check_amounts, check_profile, check_freshness, check_streams}
use an_kla_memory.Retrieval.IndexFree.{run-selection}
use an_kla_memory.Retrieval.Accounts.{IsAccounted, retrieve_under_gate-accounts}
use an_kla_memory.Retrieval.Order.{is_ranked, is_scored, item_key, run-is_ranked}
use an_kla_memory.Retrieval.Maximal.{IsSettled, run-settles}

abbrev no_show : Json → String
no_show v = ""

-- Every character but the space is a part of a word, and folds to itself.
abbrev plain : Unicode
plain = record {
  is_space = one_space;
  is_word = λ c. not (one_space c);
  casefold_char = λ c. String.◌∷◌ c String.[];
}

abbrev note_of : String → String → Fields
note_of id text = field "id" (str id) (field "text" (str text) end)

abbrev notes : Rows
notes = record {
  facts_part =
      note_of "f-2" "a b" ∷ note_of "f-1" "b a" ∷ note_of "f-3" "a" ∷ note_of "f-4" "z" ∷ [];
  events_part = [];
  episodes_part = [];
}

abbrev whole : Index
whole = record {
  has_fts5 = true;
  status = "none";
  is_resolved = true;
  integrity = "none";
  narrowed = some ("f-1" ∷ "f-2" ∷ "f-3" ∷ []);
}

abbrev request : Request
request = record {
  query = "a b";
  budget = pos 5;
  fixed_overhead = pos 1;
  per_record_overhead = pos 0;
  profile = "scan-fallback/v1";
  streams = none;
  freshness_profile = none;
  now = none;
  stale_after_days = null;
}

abbrev found : Retrieved
found = run plain no_show scan_fallback whole "r1" notes (facts ∷ []) "a b" 5 1 0 none

retrieve_under_gate-ok :
    retrieve_under_gate plain no_show 0 whole (ok ("r1", notes)) request ≡ ok found
unfolding retrieve_under_gate check_amounts check_profile check_freshness check_streams
retrieve_under_gate-ok = refl

retrieve_under_gate-accounts_example : IsAccounted plain no_show notes request found
retrieve_under_gate-accounts_example =
    retrieve_under_gate-accounts plain no_show 0 whole "r1" notes request retrieve_under_gate-ok

run-selection_example :
    (run plain no_show scan_fallback whole "r1" notes (facts ∷ []) "a b" 5 1 0 none).selection
    ≡ (run plain no_show fts_index whole "r1" notes (facts ∷ []) "a b" 5 1 0 none).selection
run-selection_example =
    run-selection plain no_show scan_fallback fts_index whole whole "r1" notes (facts ∷ []) "a b" 5
      1 0 none

run-is_ranked_example :
    (is_ranked (map item_key found.selection.selected) ≡ true)
    × (all is_scored (map item_key found.selection.selected) ≡ true)
run-is_ranked_example =
    run-is_ranked plain no_show scan_fallback whole "r1" notes (facts ∷ []) "a b" 5 1 0 none

abbrev candidates : List Candidate
candidates =
    let scanned =
      scan plain no_show (terms plain "a b") no_exclusions
        (pool plain no_show notes (facts ∷ [])) in
    (drop_zero scanned.1 (sort_ranked scanned.0)).0

run-settles_example : IsSettled none 5 0 candidates found.selection
run-settles_example =
    run-settles plain no_show scan_fallback whole "r1" notes (facts ∷ []) "a b" 5 1 0 none

abbrev ids_of : List Item → List String
ids_of [] = []
ids_of (i ∷ is) = i.id ∷ ids_of is

-- By score, then by identifier; the last has no term of the query.
found-ids : ids_of found.selection.selected ≡ "f-1" ∷ "f-3" ∷ []
unfolding run strip casefold byte_length
found-ids = refl
