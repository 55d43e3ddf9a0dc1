-- ===== src/Compaction/Tests.antt =====
-- The compaction's projection on a small snapshot.
use an_kla_memory.Base.{String, ◌≡◌, refl, List, [], ◌∷◌, map, ok}
use an_kla_memory.Base.Text.{join}
use an_kla_memory.Canonical.{digest_json, canonical_json, insert_member, member_text}
use an_kla_memory.Record.Vigency.{is_active}
use an_kla_memory.Json.{Json, Fields, field, end, str}
use an_kla_memory.WritePolicy.Types.{facts}
use an_kla_memory.Store.Rows.{Rows, scan_rows}
use an_kla_memory.Store.Overlay.{Supersession, Refuted}
use an_kla_memory.Compaction.Project.{project_snapshot, Projection, Tombstone}
use an_kla_memory.Compaction.Project.{superseded, refuted, inactive}
use an_kla_memory.Compaction.Current.{KeepsCurrent, project_snapshot-KeepsCurrent}

abbrev no_show : Json → String
no_show v = "?"

-- A stand-in for the digest: the text itself.
abbrev plain : String → String
plain s = s

abbrev row_of : String → String → Fields
row_of id status = field "id" (str id) (field "status" (str status) end)

abbrev snapshot_rows : Rows
snapshot_rows = record {
  facts_part =
      row_of "f-1" "vigente"
      ∷ row_of "f-2" "vigente"
      ∷ row_of "f-3" "historico"
      ∷ row_of "f-4" "vigente"
      ∷ [];
  events_part = [];
  episodes_part = row_of "p-1" "vigente" ∷ [];
}

abbrev replaced : List Supersession
replaced = record { stream = facts; target_id = "f-1"; successor = "f-4" } ∷ []

abbrev rejected : List Refuted
rejected =
    record {
      stream = facts;
      target_sha256 = "sha256:{\"id\":\"f-2\",\"status\":\"vigente\"}";
      refutation_id = "r-1";
    }
    ∷ []

projected :
    (p : Projection) × (project_snapshot no_show plain replaced rejected snapshot_rows ≡ ok p)
unfolding project_snapshot digest_json canonical_json join insert_member member_text is_active
projected = (_, refl)

kept_and_buried :
    (map (λ (t : Tombstone). t.state) projected.0.tombstones ≡ superseded ∷ refuted ∷ inactive ∷ [])
    × (projected.0.segments.facts_part.active ≡ row_of "f-4" "vigente" ∷ [])
unfolding projected
kept_and_buried = (refl, refl)

project_snapshot-KeepsCurrent_example :
    KeepsCurrent no_show plain replaced rejected snapshot_rows projected.0.segments
      projected.0.tombstones
unfolding scan_rows
project_snapshot-KeepsCurrent_example =
    project_snapshot-KeepsCurrent no_show plain replaced rejected snapshot_rows projected.0 refl
      refl refl projected.1
