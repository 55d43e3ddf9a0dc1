-- ===== src/Compaction/Buried.antt =====
-- The tombstones of a projection (an_kla/compaction_projection.py), said from what a snapshot shows.
use an_kla_memory.Base.{String, refl, Bool, true, false, List, [], ◌∷◌, if◌then◌else◌}
use an_kla_memory.Base.{Bool-cases, inl, inr, Result, ok, ◌>>=◌}
use an_kla_memory.Json.{Json, Fields, obj}
use an_kla_memory.Canonical.{digest_json}
use an_kla_memory.Record.Vigency.{is_active}
use an_kla_memory.WritePolicy.Types.{Stream}
use an_kla_memory.Store.Rows.{id_of}
use an_kla_memory.Store.Overlay.{Supersession, Refuted, is_superseded, is_refuted}
use an_kla_memory.Compaction.Project.{
  State, Tombstone, insert_tombstone, sort_tombstones, is_before,
}
use mathlib.Core.List.{Permᴰ}
use mathlib.Core.List.Permᴰ

-- The stored rows that are not shown as current.
abbrev pub dropped : List Fields → List Fields → List Fields
dropped (row ∷ raws) (seen ∷ shown) =
    let rest = dropped raws shown in if is_active seen then rest else row ∷ rest
dropped _ _ = []

-- The state of a record that is not current, by the two tests of the overlay.
abbrev pub state_by : Bool → Bool → State
state_by true superseded = State.refuted
state_by false true = State.superseded
state_by false false = State.inactive

module _ (show : Json → String) (sha256 : String → String) (supersedes : List Supersession)
    (refutations : List Refuted) (stream : Stream) where
  -- One tombstone for each row: its stream, the digest of what is stored, and its state.
  abbrev pub stones : List Fields → Result (List Tombstone)
  stones [] = ok []
  stones (row ∷ rows) = digest_json sha256 (obj row) >>= λ digest. stones rows >>= λ rest. ok (
      record {
        stream = stream;
        record_sha256 = digest;
        state =
            state_by (is_refuted stream digest refutations)
              (is_superseded stream (id_of show row) supersedes);
      }
      ∷ rest)

insert_tombstone_perm :
    (t : Tombstone) (ts : List Tombstone) → Permᴰ (insert_tombstone t ts) (t ∷ ts)
unfolding insert_tombstone
insert_tombstone_perm t [] = Permᴰ.cons refl Permᴰ.nil
insert_tombstone_perm t (u ∷ us) = elim (Bool-cases (is_before t u)) [
  | inl e ↦ rw e (Permᴰ.refl (t ∷ u ∷ us))
  | inr e ↦ rw e (Permᴰ.trans (Permᴰ.cons refl (insert_tombstone_perm t us)) (Permᴰ.swap refl refl))
]

pub sort_tombstones_perm : (ts : List Tombstone) → Permᴰ (sort_tombstones ts) ts
unfolding sort_tombstones
sort_tombstones_perm [] = Permᴰ.nil
sort_tombstones_perm (t ∷ ts) =
    Permᴰ.trans (insert_tombstone_perm t (sort_tombstones ts))
      (Permᴰ.cons refl (sort_tombstones_perm ts))
