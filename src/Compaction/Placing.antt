-- ===== src/Compaction/Placing.antt =====
-- Where one row goes (an_kla/compaction_projection.py), against how a snapshot shows it.
use an_kla_memory.Base.{ℕ, suc, ◌+◌, String, ◌==◌, ◌≡◌, refl, Bool, true, false}
use an_kla_memory.Base.{List, [], ◌∷◌, if◌then◌else◌, length, filter, ok, arith}
use an_kla_memory.Base.{Bool-cases, eq_iff, inl, inr}
use an_kla_memory.Json.{Json, Fields, obj}
use an_kla_memory.Canonical.{digest_json}
use an_kla_memory.Record.Vigency.{is_active, vigent_value}
use an_kla_memory.WritePolicy.Types.{Stream}
use an_kla_memory.Store.Rows.{id_of}
use an_kla_memory.Store.Overlay.{Supersession, Refuted, is_superseded, is_refuted, with_status}
use an_kla_memory.Store.Overlay.{is_active-with_status}
use an_kla_memory.Compaction.Buried.{dropped, stones}
use an_kla_memory.Compaction.Project.{State, Place, kept, buried, is_target}
use an_kla_memory.Compaction.Project.{Split, add_row}

-- A target that is not empty is one for the snapshot too.
pub is_target-is_superseded :
    (stream : Stream) (id : String) (entries : List Supersession)
    → (id == "") ≡ false
    → is_superseded stream id entries ≡ is_target stream id entries
unfolding is_target is_superseded
is_target-is_superseded stream id [] h = refl
is_target-is_superseded stream id (entry ∷ entries) h =
    ground (arith, is_target-is_superseded stream id entries h, eq_iff entry.target_id id)

-- The shown row is the stored one and current, or it is buried and not current.
unfoldable pub laid : Bool → Bool → Fields → Fields
laid superseded refuted row =
    let base = if superseded then with_status "sustituida" row else row in
    if refuted then with_status "refutada" base else base

unfoldable pub place : Bool → Bool → Fields → Place
place superseded refuted row =
    if refuted
    then buried State.refuted
    else if superseded
    then buried State.superseded
    else if is_active row
    then kept
    else buried State.inactive

pub place-laid :
    (superseded refuted : Bool) (stream : Stream) (digest : String) (row : Fields) (rest : Split)
    (shown : List Fields)
    → rest.0 ≡ filter is_active shown
    → (add_row (place superseded refuted row) stream digest row rest).0
      ≡ filter is_active (laid superseded refuted row ∷ shown)
unfolding vigent_value place laid
place-laid true true stream digest row rest shown h =
    rw (is_active-with_status "refutada" (with_status "sustituida" row)) h
place-laid false true stream digest row rest shown h = rw (is_active-with_status "refutada" row) h
place-laid true false stream digest row rest shown h = rw (is_active-with_status "sustituida" row) h
place-laid false false stream digest row rest shown h = elim (Bool-cases (is_active row)) [
  | inl e ↦ rw (e, h) refl
  | inr e ↦ rw (e, h) refl
]

-- What is not shown as current gets its tombstone, in the state of the two tests.
pub place-stones :
    (show : Json → String) (sha256 : String → String) (supersedes : List Supersession)
    (refutations : List Refuted) (superseded refuted : Bool) (stream : Stream) (digest : String)
    (row : Fields) (raws : List Fields) (rest : Split) (shown : List Fields)
    → digest_json sha256 (obj row) ≡ ok digest
    → is_refuted stream digest refutations ≡ refuted
    → is_superseded stream (id_of show row) supersedes ≡ superseded
    → stones show sha256 supersedes refutations stream (dropped raws shown) ≡ ok rest.1
    → stones show sha256 supersedes refutations stream
        (dropped (row ∷ raws) (laid superseded refuted row ∷ shown))
      ≡ ok (add_row (place superseded refuted row) stream digest row rest).1
unfolding vigent_value place laid
place-stones show sha256 supersedes refutations true true stream digest row raws rest shown d r s
      h =
    rw (is_active-with_status "refutada" (with_status "sustituida" row), d, h, r) refl
place-stones show sha256 supersedes refutations false true stream digest row raws rest shown d r s
      h =
    rw (is_active-with_status "refutada" row, d, h, r) refl
place-stones show sha256 supersedes refutations true false stream digest row raws rest shown d r s
      h =
    rw (is_active-with_status "sustituida" row, d, h, r, s) refl
place-stones show sha256 supersedes refutations false false stream digest row raws rest shown d r s
      h =
    elim (Bool-cases (is_active row)) [ inl e ↦ rw (e, h) refl | inr e ↦ rw (e, d, h, r, s) refl ]

pub add_row-length :
    (p : Place) (stream : Stream) (digest : String) (row : Fields) (rest : Split) (n : ℕ)
    → length rest.0 + length rest.1 ≡ n
    → length (add_row p stream digest row rest).0 + length (add_row p stream digest row rest).1
      ≡ suc n
add_row-length kept stream digest row rest n h = omega arith
add_row-length (buried s) stream digest row rest n h = omega arith
