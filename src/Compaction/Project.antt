-- ===== src/Compaction/Project.antt =====
-- `project_snapshot` of an_kla/compaction_projection.py.
use an_kla_memory.Base.{
  ℕ, String, ◌<>◌, ◌==◌, Bool, false, ◌&&◌, ◌||◌, List, [], ◌∷◌, ◌++◌, if◌then◌else◌, eqb, ltb,
}
use an_kla_memory.Base.{Result, ok, ◌>>=◌}
use an_kla_memory.Base.Text.{str_le}
use an_kla_memory.Json.{Json, Fields, obj}
use an_kla_memory.Canonical.{canonical_json, digest_json, digest_bytes}
use an_kla_memory.Record.Vigency.{is_active}
use an_kla_memory.WritePolicy.Types.{Stream, stream_name, facts, events, episodes}
use an_kla_memory.Store.Rows.{Rows, PerStream, id_of}
use an_kla_memory.Store.Overlay.{Supersession, Refuted, is_refuted}

pub data State : Type 0 where
  refuted superseded inactive : State

-- An entry of `record_tombstones`.
pub record Tombstone : Type 0 where
  pub stream : Stream
  pub record_sha256 : String
  pub state : State

-- Where a row goes.
pub data Place : Type 0 where
  kept : Place
  buried : State → Place

-- `(stream, id) in superseded`
unfoldable pub is_target : Stream → String → List Supersession → Bool
is_target stream id [] = false
is_target stream id (entry ∷ entries) =
    (stream_name entry.stream == stream_name stream && entry.target_id == id)
    || is_target stream id entries

unfoldable pub place_of :
    List Supersession → List Refuted → Stream → String → String → Fields → Place
unfolding is_target is_refuted
place_of supersedes refutations stream digest id row =
    if is_refuted stream digest refutations
    then buried refuted
    else if is_target stream id supersedes
    then buried superseded
    else if is_active row
    then kept
    else buried inactive

abbrev pub Split : Type 0
Split = List Fields × List Tombstone

abbrev pub add_row : Place → Stream → String → Fields → Split → Split
add_row kept stream digest row (active, tombstones) = (row ∷ active, tombstones)
add_row (buried s) stream digest row (active, tombstones) =
    (active, record { stream = stream; record_sha256 = digest; state = s } ∷ tombstones)

-- `order[stream]`
abbrev pub order : Stream → ℕ
order facts = 0
order events = 1
order episodes = 2

abbrev pub is_before : Tombstone → Tombstone → Bool
is_before a b =
    ltb (order a.stream) (order b.stream)
    || eqb (order a.stream) (order b.stream) && str_le a.record_sha256 b.record_sha256

unfoldable pub insert_tombstone : Tombstone → List Tombstone → List Tombstone
insert_tombstone t [] = t ∷ []
insert_tombstone t (u ∷ us) =
    let rest = insert_tombstone t us in if is_before t u then t ∷ u ∷ us else u ∷ rest

-- `tombstones.sort(key=...)`, which is stable.
unfoldable pub sort_tombstones : List Tombstone → List Tombstone
unfolding insert_tombstone
sort_tombstones [] = []
sort_tombstones (t ∷ ts) = insert_tombstone t (sort_tombstones ts)

-- `b"".join(canonical_json(row) + b"\n" for row in rows)`
unfoldable pub payload_of : List Fields → Result String
payload_of [] = ok ""
payload_of (row ∷ rows) =
    canonical_json (obj row) >>= λ line. payload_of rows >>= λ rest. ok (line <> ("\n" <> rest))

-- What is kept of one stream: the rows, the segment identifiers, the payloads.
pub record Segment : Type 0 where
  pub active : List Fields
  pub identifiers : List String
  pub payloads : List String

pub record Projection : Type 0 where
  pub segments : PerStream Segment
  pub tombstones : List Tombstone

module _ (show : Json → String) (sha256 : String → String) where
  -- The loop over the rows of one stream.
  unfoldable pub split_rows : List Supersession → List Refuted → Stream → List Fields → Result Split
  unfolding place_of
  split_rows supersedes refutations stream [] = ok ([], [])
  split_rows supersedes refutations stream (row ∷ rows) = digest_json sha256 (obj row) >>= λ digest.
      split_rows supersedes refutations stream rows >>= λ rest. ok (
        add_row (place_of supersedes refutations stream digest (id_of show row) row) stream digest
          row rest)

  unfoldable pub segment_of : List Fields → Result Segment
  unfolding payload_of digest_bytes
  segment_of [] = ok (record { active = []; identifiers = []; payloads = [] })
  segment_of (row ∷ rows) = payload_of (row ∷ rows) >>= λ payload. ok (record {
    active = row ∷ rows;
    identifiers = digest_bytes sha256 payload ∷ [];
    payloads = payload ∷ [];
  })

  unfoldable pub project_snapshot : List Supersession → List Refuted → Rows → Result Projection
  unfolding split_rows sort_tombstones segment_of
  project_snapshot supersedes refutations raw = do
    f ← split_rows supersedes refutations facts raw.facts_part
    e ← split_rows supersedes refutations events raw.events_part
    p ← split_rows supersedes refutations episodes raw.episodes_part
    fs ← segment_of f.0
    es ← segment_of e.0
    ps ← segment_of p.0
    ok (record {
      segments = record { facts_part = fs; events_part = es; episodes_part = ps };
      tombstones = sort_tombstones (f.1 ++ (e.1 ++ p.1));
    })
