-- ===== src/Revision/Watermark.antt =====
-- an_kla/watermark.py: the revision up to which the chain was verified, a cache.
use an_kla_memory.Base.{String, ◌==◌, Bool, true, false, not, ◌&&◌, ◌||◌, Option, none, some}
use an_kla_memory.Base.{if◌then◌else◌}
use an_kla_memory.Base.{starts_with}
use an_kla_memory.Json.{Json, Fields, null, str, obj, get, is_str}
use an_kla_memory.Json.Equal.{equal}

-- What `usable_watermark` returns.
pub record Watermark : Type 0 where
  pub revision : String
  pub parent : Json
  pub epoch_id : Json

abbrev pub is_null : Json → Bool
is_null null = true
is_null _ = false

-- `epoch_of`, `null` for `None`
abbrev text_or_null : Json → Json
text_or_null (str s) = str s
text_or_null _ = null

abbrev pub epoch_of : Fields → Json
epoch_of manifest = elim (get manifest "compaction_epoch") [
  | obj epoch ↦ text_or_null (get epoch "epoch_id")
  | _ ↦ null
]

abbrev is_identifier : Json → Bool
is_identifier (str s) = starts_with s "sha256:"
is_identifier _ = false

abbrev is_text : Json → Bool
is_text (str s) = true
is_text _ = false

-- `usable_watermark`; there is no argument where the file cannot be read or is no JSON.
unfoldable pub usable_watermark : Option Json → Option Watermark
usable_watermark (some (obj parsed)) =
    let revision = get parsed "revision" in
    let parent = get parsed "parent" in
    let epoch_id = get parsed "epoch_id" in
    if not (is_str "an-kla/watermark-v1" (get parsed "schema"))
      || not (is_identifier revision)
      || not (is_null parent || is_identifier parent)
      || not (is_null epoch_id || is_text epoch_id)
    then none
    else elim revision [
      | str s ↦ some (record { revision = s; parent = parent; epoch_id = epoch_id })
      | _ ↦ none
    ]
usable_watermark _ = none

module _ (same_number : Json → Json → Bool) where
  -- `binding_matches`
  unfoldable pub binding_matches : Option Watermark → String → Fields → Bool
  unfolding equal
  binding_matches none child_id child = false
  binding_matches (some stop) child_id child =
      child_id == stop.revision
      && equal same_number (get child "parent") stop.parent
      && equal same_number (epoch_of child) stop.epoch_id
