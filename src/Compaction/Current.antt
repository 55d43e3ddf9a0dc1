-- ===== src/Compaction/Current.antt =====
-- What `project_snapshot` keeps, against what a snapshot shows as current.
use an_kla_memory.Base.{ℕ, ◌+◌, String, ◌==◌, ◌≡◌, refl, sym, ap, ◌∙◌, true, false, ◌||◌}
use an_kla_memory.Base.{List, [], ◌∷◌, ◌++◌, length, filter, ok, arith}
use an_kla_memory.Base.{cons_result-eq-ok, member, Bool-cases, subst, >>=-eq-ok, inl, inr}
use an_kla_memory.Json.{Json, Fields, obj}
use an_kla_memory.Canonical.{digest_json}
use an_kla_memory.Record.Vigency.{is_active}
use an_kla_memory.WritePolicy.Types.{Stream, facts, events, episodes}
use an_kla_memory.Store.Rows.{Rows, PerStream, id_of, scan_rows}
use an_kla_memory.Store.Overlay.{Supersession, Refuted, is_refuted}
use an_kla_memory.Store.Overlay.{overlay_row, overlay_rows, overlay}
use an_kla_memory.Base.{ok_inj}
use an_kla_memory.Compaction.Buried.{dropped, stones, sort_tombstones_perm}
use mathlib.Core.List.{Permᴰ}
use an_kla_memory.Compaction.Placing.{
  is_target-is_superseded, laid, place, place-laid, place-stones,
}
use an_kla_memory.Compaction.Placing.{add_row-length}
use an_kla_memory.Compaction.Sorted.{count_all, is_sorted, sort_tombstones-is_sorted}
use an_kla_memory.Compaction.Project.{Tombstone, is_target, place_of}
use an_kla_memory.Compaction.Project.{Split, add_row, split_rows}
use an_kla_memory.Compaction.Project.{segment_of, payload_of, project_snapshot, Projection, Segment}

abbrev HasIds : (Json → String) → List Fields → Type 0
HasIds show [] = Unit
HasIds show (row ∷ rows) = ((id_of show row == "") ≡ false) × HasIds show rows

module _ (show : Json → String) (sha256 : String → String) where
  -- With the digest at hand, the snapshot shows the row under the same two tests.
  overlay_row-laid :
      (supersedes : List Supersession) (refutations : List Refuted) (stream : Stream)
      (digest : String) (row : Fields)
      → digest_json sha256 (obj row) ≡ ok digest
      → (id_of show row == "") ≡ false
      → overlay_row show sha256 supersedes refutations stream row
        ≡ ok (
            laid
              (is_target stream (id_of show row) supersedes)
              (is_refuted stream digest refutations)
              row)
  unfolding overlay_row laid is_refuted
  overlay_row-laid supersedes [] stream digest row d h =
      rw (is_target-is_superseded stream (id_of show row) supersedes h) refl
  overlay_row-laid supersedes (entry ∷ entries) stream digest row d h =
      rw (d, is_target-is_superseded stream (id_of show row) supersedes h) refl

  place_of-place :
      (supersedes : List Supersession) (refutations : List Refuted) (stream : Stream)
      (digest id : String) (row : Fields)
      → place_of supersedes refutations stream digest id row
        ≡ place (is_target stream id supersedes) (is_refuted stream digest refutations) row
  unfolding place_of place
  place_of-place supersedes refutations stream digest id row = refl

  -- What the split of one stream is to the rows that the snapshot shows.
  record Current (supersedes : List Supersession) (refutations : List Refuted) (stream : Stream)
      (raws : List Fields) (s : Split) : Type 0 where
    shown : List Fields
    overlaid : overlay_rows show sha256 supersedes refutations stream raws ≡ ok shown
    active : s.0 ≡ filter is_active shown
    buried_rows : stones show sha256 supersedes refutations stream (dropped raws shown) ≡ ok s.1
    count : length s.0 + length s.1 ≡ length raws

  split_rows-Current :
      (supersedes : List Supersession) (refutations : List Refuted) (stream : Stream)
      (raws : List Fields) (s : Split)
      → HasIds show raws
      → split_rows show sha256 supersedes refutations stream raws ≡ ok s
      → Current supersedes refutations stream raws s
  unfolding split_rows overlay_rows
  split_rows-Current supersedes refutations stream [] s ids h =
      subst (λ t. Current supersedes refutations stream [] t) (ok_inj h)
        (record { shown = []; overlaid = refl; active = refl; buried_rows = refl; count = refl })
  split_rows-Current supersedes refutations stream (row ∷ rows) s (id, ids) h =
      let (digest, h1, d) = >>=-eq-ok (digest_json sha256 (obj row)) _ h in
      let (rest, h2, r) =
        >>=-eq-ok (split_rows show sha256 supersedes refutations stream rows) _ h1 in
      let later = split_rows-Current supersedes refutations stream rows rest ids r in
      let superseded = is_target stream (id_of show row) supersedes in
      let refuted = is_refuted stream digest refutations in
      let at_place = place_of-place supersedes refutations stream digest (id_of show row) row in
      let same : add_row (place superseded refuted row) stream digest row rest ≡ s =
        ap (λ q. add_row q stream digest row rest) (sym at_place) ∙ ok_inj h2 in
      subst (λ t. Current supersedes refutations stream (row ∷ rows) t) same
        (record {
          shown = laid superseded refuted row ∷ later.shown;
          overlaid =
              rw (overlay_row-laid supersedes refutations stream digest row d id, later.overlaid)
                refl;
          active = place-laid superseded refuted stream digest row rest later.shown later.active;
          buried_rows =
              place-stones show sha256 supersedes refutations superseded refuted stream digest row
                rows rest later.shown d refl
                (is_target-is_superseded stream (id_of show row) supersedes id) later.buried_rows;
          count =
              add_row-length (place superseded refuted row) stream digest row rest (length rows)
                later.count;
        })

  -- The walk over the segments lets through only rows with an id.
  scan_rows-HasIds :
      (name : String) (seen : List String) (raws rows : List Fields)
      → scan_rows show name seen raws ≡ ok rows
      → HasIds show raws
  unfolding scan_rows
  scan_rows-HasIds name seen [] rows h = tt
  scan_rows-HasIds name seen (row ∷ raws) rows h =
      elim (Bool-cases (id_of show row == "" || member (id_of show row) seen)) [
        | inl e ↦ cc (rw e at h)
        | inr e ↦
            let (rest, later, eq) =
              cons_result-eq-ok row (scan_rows show name (id_of show row ∷ seen) raws)
                (rw e at h) in
            (ground (arith, e), scan_rows-HasIds name (id_of show row ∷ seen) raws rest later)
      ]

  segment_of-active :
      (rows : List Fields) (s : Segment) → segment_of show sha256 rows ≡ ok s → s.active ≡ rows
  unfolding segment_of
  segment_of-active [] s h = ap (λ (t : Segment). t.active) (sym (ok_inj h))
  segment_of-active (row ∷ rows) s h =
      let (payload, k, e) = >>=-eq-ok (payload_of (row ∷ rows)) _ h in
      ap (λ (t : Segment). t.active) (sym (ok_inj k))

abbrev total : ℕ → ℕ → ℕ → ℕ
total a b c = a + (b + c)

module _ (show : Json → String) (sha256 : String → String) where
  -- What compaction keeps, against the shown rows of the three streams.
  pub record KeepsCurrent (supersedes : List Supersession) (refutations : List Refuted) (raw : Rows)
      (segments : PerStream Segment) (tombstones : List Tombstone) : Type 0 where
    pub shown : Rows
    pub overlaid : overlay show sha256 supersedes refutations raw ≡ ok shown
    pub kept_facts : segments.facts_part.active ≡ filter is_active shown.facts_part
    pub kept_events : segments.events_part.active ≡ filter is_active shown.events_part
    pub kept_episodes : segments.episodes_part.active ≡ filter is_active shown.episodes_part
    pub facts_stones : List Tombstone
    pub events_stones : List Tombstone
    pub episodes_stones : List Tombstone
    pub buried_facts :
        stones show sha256 supersedes refutations facts (dropped raw.facts_part shown.facts_part)
        ≡ ok facts_stones
    pub buried_events :
        stones show sha256 supersedes refutations events (dropped raw.events_part shown.events_part)
        ≡ ok events_stones
    pub buried_episodes :
        stones show sha256 supersedes refutations episodes
          (dropped raw.episodes_part shown.episodes_part)
        ≡ ok episodes_stones
    pub all_buried : Permᴰ tombstones (facts_stones ++ (events_stones ++ episodes_stones))
    pub in_order : is_sorted tombstones ≡ true
    pub nothing_lost :
        total
            (length segments.facts_part.active)
            (length segments.events_part.active)
            (length segments.episodes_part.active)
          + length tombstones
        ≡ total (length raw.facts_part) (length raw.events_part) (length raw.episodes_part)

  -- Of a snapshot that its walk over the segments accepted, compaction keeps exactly the records
  -- that the snapshot shows as current, unchanged and in their order. Its tombstones are, up to
  -- their order, one for each other record: with the record's stream, the digest of what is stored,
  -- and the state that the refutations, else the replacements, else the record itself give it. They
  -- are in the order of their streams and digests, and nothing is lost.
  pub project_snapshot-KeepsCurrent :
      (supersedes : List Supersession) (refutations : List Refuted) (raw : Rows) (p : Projection)
      → scan_rows show "facts" [] raw.facts_part ≡ ok raw.facts_part
      → scan_rows show "events" [] raw.events_part ≡ ok raw.events_part
      → scan_rows show "episodes" [] raw.episodes_part ≡ ok raw.episodes_part
      → project_snapshot show sha256 supersedes refutations raw ≡ ok p
      → KeepsCurrent supersedes refutations raw p.segments p.tombstones
  unfolding project_snapshot overlay
  project_snapshot-KeepsCurrent supersedes refutations raw p wf we wp h =
      let (f, h1, rf) =
        >>=-eq-ok (split_rows show sha256 supersedes refutations facts raw.facts_part) _ h in
      let (e, h2, re) =
        >>=-eq-ok (split_rows show sha256 supersedes refutations events raw.events_part) _ h1 in
      let (s, h3, rs) =
        >>=-eq-ok (split_rows show sha256 supersedes refutations episodes raw.episodes_part) _ h2 in
      let (fs, h4, gf) = >>=-eq-ok (segment_of show sha256 f.0) _ h3 in
      let (es, h5, ge) = >>=-eq-ok (segment_of show sha256 e.0) _ h4 in
      let (ps, h6, gs) = >>=-eq-ok (segment_of show sha256 s.0) _ h5 in
      let cf =
        split_rows-Current show sha256 supersedes refutations facts raw.facts_part f
          (scan_rows-HasIds show sha256 "facts" [] raw.facts_part raw.facts_part wf) rf in
      let ce =
        split_rows-Current show sha256 supersedes refutations events raw.events_part e
          (scan_rows-HasIds show sha256 "events" [] raw.events_part raw.events_part we) re in
      let cs =
        split_rows-Current show sha256 supersedes refutations episodes raw.episodes_part s
          (scan_rows-HasIds show sha256 "episodes" [] raw.episodes_part raw.episodes_part wp) rs in
      let af = segment_of-active show sha256 f.0 fs gf in
      let ae = segment_of-active show sha256 e.0 es ge in
      let as_ = segment_of-active show sha256 s.0 ps gs in
      subst (λ (q : Projection). KeepsCurrent supersedes refutations raw q.segments q.tombstones)
        (ok_inj h6)
        (record {
          shown = record {
            facts_part = cf.shown;
            events_part = ce.shown;
            episodes_part = cs.shown;
          };
          overlaid = rw (cf.overlaid, ce.overlaid, cs.overlaid) refl;
          kept_facts = af ∙ cf.active;
          kept_events = ae ∙ ce.active;
          kept_episodes = as_ ∙ cs.active;
          facts_stones = f.1;
          events_stones = e.1;
          episodes_stones = s.1;
          buried_facts = cf.buried_rows;
          buried_events = ce.buried_rows;
          buried_episodes = cs.buried_rows;
          all_buried = sort_tombstones_perm (f.1 ++ (e.1 ++ s.1));
          in_order = sort_tombstones-is_sorted (f.1 ++ (e.1 ++ s.1));
          nothing_lost =
              rw (af, ae, as_) (count_all f.1 e.1 s.1 _ _ _ _ _ _ cf.count ce.count cs.count);
        })
