-- ===== src/Store/Overlay.antt =====
-- The vigency overlay of `MemoryStore._snapshot_under_gate`: superseded and refuted records show
-- another `status`, and the segments stay as they are.
use an_kla_memory.Base.{
  String, ◌==◌, ◌≡◌, sym, cons_results, cons_results-eq-ok, refl, ◌∙◌, subst, err, Bool, true,
  false, not, ◌&&◌, ◌||◌,
}
use an_kla_memory.Base.{some, List, [], ◌∷◌, if◌then◌else◌, eq_iff, Result, ok, ◌>>=◌, arith}
use an_kla_memory.Json.{Json, Fields, end, field, str, obj, lookup, put}
use an_kla_memory.Canonical.{digest_json}
use an_kla_memory.Record.Vigency.{is_active, vigent_value}
use an_kla_memory.WritePolicy.Types.{Stream, stream_name, facts, events, episodes}
use an_kla_memory.Store.Rows.{Rows, id_of}

-- An entry of `supersedes_map`.
pub record Supersession : Type 0 where
  pub stream : Stream
  pub target_id : String
  pub successor : String

-- An entry of `refutations_map`.
pub record Refuted : Type 0 where
  pub stream : Stream
  pub target_sha256 : String
  pub refutation_id : String

-- `(stream, id) in targets`; an entry with an empty target marks nothing.
unfoldable pub is_superseded : Stream → String → List Supersession → Bool
is_superseded stream id [] = false
is_superseded stream id (entry ∷ entries) =
    (stream_name entry.stream == stream_name stream
      && entry.target_id == id
      && not (entry.target_id == ""))
    || is_superseded stream id entries

unfoldable pub is_refuted : Stream → String → List Refuted → Bool
is_refuted stream digest [] = false
is_refuted stream digest (entry ∷ entries) =
    (stream_name entry.stream == stream_name stream && entry.target_sha256 == digest)
    || is_refuted stream digest entries

-- `{**row, "status": ...}`
unfoldable pub with_status : String → Fields → Fields
with_status status row = put "status" (str status) row

module _ (show : Json → String) (sha256 : String → String) where
  -- `digest_json(raw)`, which is asked for only if anything is refuted.
  abbrev pub row_digest : List Refuted → Fields → Result String
  row_digest [] raw = ok ""
  row_digest (entry ∷ entries) raw = digest_json sha256 (obj raw)

  -- One row: the refutation is laid over the supersession, and is found by the digest of the row
  -- as it is stored.
  unfoldable pub overlay_row : List Supersession → List Refuted → Stream → Fields → Result Fields
  unfolding is_superseded is_refuted with_status
  overlay_row supersedes refuted stream raw = row_digest refuted raw >>= λ digest.
      let row =
        if is_superseded stream (id_of show raw) supersedes
        then with_status "sustituida" raw
        else raw in
      ok (if is_refuted stream digest refuted then with_status "refutada" row else row)

  unfoldable pub overlay_rows :
      List Supersession → List Refuted → Stream → List Fields → Result (List Fields)
  unfolding overlay_row
  overlay_rows supersedes refuted stream [] = ok []
  overlay_rows supersedes refuted stream (raw ∷ rows) =
      cons_results (overlay_row supersedes refuted stream raw)
        (overlay_rows supersedes refuted stream rows)

  unfoldable pub overlay : List Supersession → List Refuted → Rows → Result Rows
  unfolding overlay_rows
  overlay supersedes refuted raw = do
    f ← overlay_rows supersedes refuted facts raw.facts_part
    e ← overlay_rows supersedes refuted events raw.events_part
    p ← overlay_rows supersedes refuted episodes raw.episodes_part
    ok (record { facts_part = f; events_part = e; episodes_part = p })

lookup-put :
    (k j : String) (v : Json) (fs : Fields)
    → lookup j (put k v fs) ≡ (if k == j then some v else lookup j fs)
lookup-put k j v end = refl
lookup-put k j v (field i w fs) =
    ground (arith, eq_iff k j, eq_iff i k, eq_iff i j, lookup-put k j v fs)

-- A new status keeps the id, and neither of the two is current.
id_of-with_status :
    (show : Json → String) (s : String) (row : Fields)
    → id_of show (with_status s row) ≡ id_of show row
unfolding with_status
id_of-with_status show s row = ground (arith, lookup-put "status" "id" (str s) row)

-- A status that is neither "vigente" nor "active" takes the row out of use.
pub is_active-with_status :
    (s : String) (row : Fields) → is_active (with_status s row) ≡ vigent_value (str s)
unfolding with_status is_active
is_active-with_status s row = ground (arith, lookup-put "status" "status" (str s) row)

module _ (show : Json → String) (sha256 : String → String) where
  -- What a shown row is to the stored one.
  pub record Shown (supersedes : List Supersession) (refuted : List Refuted) (stream : Stream)
      (raw row : Fields) : Type 0 where
    pub digest : String
    pub digested : row_digest show sha256 refuted raw ≡ ok digest
    pub same_id : id_of show row ≡ id_of show raw
    pub current : is_active row ≡ (
        not (is_superseded stream (id_of show raw) supersedes)
        && not (is_refuted stream digest refuted)
        && is_active raw)

  shown_status :
      (superseded refuted : Bool) (raw : Fields)
      → let row = if superseded then with_status "sustituida" raw else raw in
        let shown = if refuted then with_status "refutada" row else row in
        (id_of show shown ≡ id_of show raw)
        × (is_active shown ≡ (not superseded && not refuted && is_active raw))
  unfolding vigent_value
  shown_status true true raw = (
    id_of-with_status show "refutada" _ ∙ id_of-with_status show "sustituida" raw,
    is_active-with_status "refutada" _,
  )
  shown_status true false raw =
      (id_of-with_status show "sustituida" raw, is_active-with_status "sustituida" raw)
  shown_status false true raw =
      (id_of-with_status show "refutada" raw, is_active-with_status "refutada" raw)
  shown_status false false raw = (refl, refl)

  digest_step-Shown :
      (supersedes : List Supersession) (refuted : List Refuted) (stream : Stream) (raw row : Fields)
      (r : Result String)
      → row_digest show sha256 refuted raw ≡ r
      → (r >>= λ digest.
          let base =
            if is_superseded stream (id_of show raw) supersedes
            then with_status "sustituida" raw
            else raw in
          ok (if is_refuted stream digest refuted then with_status "refutada" base else base))
        ≡ ok row
      → Shown supersedes refuted stream raw row
  digest_step-Shown supersedes refuted stream raw row (err e) digested h = cc
  digest_step-Shown supersedes refuted stream raw row (ok digest) digested h =
      let (same_id, current) =
        shown_status (is_superseded stream (id_of show raw) supersedes)
          (is_refuted stream digest refuted) raw in
      subst (λ shown. Shown supersedes refuted stream raw shown) (cc h)
        (record { digest = digest; digested = digested; same_id = same_id; current = current })

  overlay_row-Shown :
      (supersedes : List Supersession) (refuted : List Refuted) (stream : Stream) (raw row : Fields)
      → overlay_row show sha256 supersedes refuted stream raw ≡ ok row
      → Shown supersedes refuted stream raw row
  unfolding overlay_row
  overlay_row-Shown supersedes refuted stream raw row h =
      digest_step-Shown supersedes refuted stream raw row _ refl h

  -- Row by row, `Shown`.
  abbrev pub AllShown :
      List Supersession → List Refuted → Stream → List Fields → List Fields → Type 0
  AllShown supersedes refuted stream [] [] = Unit
  AllShown supersedes refuted stream (raw ∷ raws) (row ∷ rows) =
      Shown supersedes refuted stream raw row × AllShown supersedes refuted stream raws rows
  AllShown supersedes refuted stream _ _ = ⊥

  -- A snapshot shows the stored rows in their order, with their ids. A row is current exactly if it
  -- is so as stored, no `supersedes_map` entry of its stream targets its id, and no
  -- `refutations_map` entry of its stream names its digest.
  pub overlay_rows-AllShown :
      (supersedes : List Supersession) (refuted : List Refuted) (stream : Stream)
      (raws rows : List Fields)
      → overlay_rows show sha256 supersedes refuted stream raws ≡ ok rows
      → AllShown supersedes refuted stream raws rows
  unfolding overlay_rows
  overlay_rows-AllShown supersedes refuted stream [] [] h = tt
  overlay_rows-AllShown supersedes refuted stream [] (row ∷ rows) h = cc
  overlay_rows-AllShown supersedes refuted stream (raw ∷ raws) rows h =
      let (row, rest, first, later, e) =
        cons_results-eq-ok (overlay_row show sha256 supersedes refuted stream raw)
          (overlay_rows show sha256 supersedes refuted stream raws) h in
      subst (λ (l : List Fields). AllShown supersedes refuted stream (raw ∷ raws) l) (sym e)
        (
          overlay_row-Shown supersedes refuted stream raw row first,
          overlay_rows-AllShown supersedes refuted stream raws rest later,
        )
