-- ===== src/Retrieval/Select.antt =====
-- The second half of `_retrieve_under_gate`: the index narrows the candidates or is not used, and
-- the budget selects.
use an_kla_memory.Base.{
  ℕ, ◌+◌, String, ◌==◌, Bool, true, false, not, Option, none, some, List, [], ◌∷◌,
}
use an_kla_memory.Base.{if◌then◌else◌, ltb, all, member, ◌||◌}
use an_kla_memory.Json.{Fields, end}
use an_kla_memory.Canonical.{byte_length}
use an_kla_memory.Record.Freshness.{project_record_freshness}
use an_kla_memory.WritePolicy.Types.{Stream}
use an_kla_memory.Retrieval.Rank.{Candidate, Excluded, note, budget}

-- What the index machinery answers for the revision (an_kla/index.py, SQLite): FTS5 is there, how
-- the index file was resolved, whether it is intact, and the identifiers that it finds.
pub record Index : Type 0 where
  pub has_fts5 : Bool
  pub status : String
  pub is_resolved : Bool
  pub integrity : String
  pub narrowed : Option (List String)

-- The candidates that go on, the profile that was used, and how it was degraded.
pub record Narrowed : Type 0 where
  pub ranked : List Candidate
  pub by_index : Bool
  pub degradation : String

unfoldable pub in_ids : List String → List Candidate → List Candidate
in_ids ids [] = []
in_ids ids (c ∷ cs) = let rest = in_ids ids cs in if member c.id ids then c ∷ rest else rest

-- An index that misses a candidate is not used.
unfoldable pub use_ids : List Candidate → Option (List String) → Narrowed
unfolding in_ids
use_ids ranked none = record {
  ranked = ranked;
  by_index = false;
  degradation = "index_unresolvable";
}
use_ids ranked (some ids) =
    if not (all (λ (c : Candidate). not (ltb 0 c.score) || member c.id ids) ranked)
    then record { ranked = ranked; by_index = false; degradation = "index_candidate_mismatch" }
    else record { ranked = in_ids ids ranked; by_index = true; degradation = "none" }

-- `wanted`: the caller asks for the index, and the query has terms.
unfoldable pub narrow : Bool → Index → List Candidate → Narrowed
unfolding use_ids
narrow wanted index ranked =
    let unused : String → Narrowed =
      λ why. record { ranked = ranked; by_index = false; degradation = why } in
    if not wanted
    then unused "none"
    else if not index.has_fts5
    then unused "fts5_unavailable"
    else if not index.is_resolved
    then unused index.status
    else if not (index.integrity == "none")
    then unused index.integrity
    else use_ids ranked index.narrowed

-- A selected item; `freshness` is empty where no freshness is asked for.
pub record Item : Type 0 where
  pub id : String
  pub stream : Stream
  pub score : ℕ
  pub render : String
  pub cost : ℕ
  pub freshness : Fields

-- The injected clock and the threshold of staleness.
abbrev pub Clock : Type 0
Clock = ℕ × Option ℕ

pub record Selection : Type 0 where
  pub selected : List Item
  pub used : ℕ
  pub excluded : Excluded

unfoldable pub freshness_of : Option Clock → Fields → Fields
unfolding project_record_freshness
freshness_of none row = end
freshness_of (some (now, threshold)) row = project_record_freshness row now threshold

abbrev pub cost_of : ℕ → Candidate → ℕ
cost_of per_record c = byte_length c.render + per_record

unfoldable pub item_of : Option Clock → ℕ → Candidate → Item
unfolding freshness_of
item_of clock per_record c = record {
  id = c.id;
  stream = c.stream;
  score = c.score;
  render = c.render;
  cost = cost_of per_record c;
  freshness = freshness_of clock c.row;
}

-- The loop over the candidates; what does not fit is passed over, and smaller ones may still fit.
unfoldable pub select : Option Clock → ℕ → ℕ → ℕ → Excluded → List Candidate → Selection
unfolding item_of note
select clock limit per_record used e [] = record { selected = []; used = used; excluded = e }
select clock limit per_record used e (c ∷ cs) =
    let skipped = select clock limit per_record used (note budget c.id e) cs in
    let taken = select clock limit per_record (used + cost_of per_record c) e cs in
    if ltb limit (used + cost_of per_record c)
    then skipped
    else record taken { selected = item_of clock per_record c ∷ taken.selected }
