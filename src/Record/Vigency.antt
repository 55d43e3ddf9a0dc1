-- ===== src/Record/Vigency.antt =====
-- an_kla/vigency.py
use an_kla_memory.Base.{◌==◌, Bool, true, false, not, ◌||◌, none, some}
use an_kla_memory.Json.{Json, Fields, null, str, lookup}

-- `value in _VIGENT or value is None`; a value with no hash raises a `TypeError` there, which
-- answers `False`.
unfoldable pub vigent_value : Json → Bool
vigent_value null = true
vigent_value (str s) = s == "vigente" || s == "active"
vigent_value _ = false

-- `record.get("status", record.get("nu", "vigente"))`
unfoldable pub deciding_value : Fields → Json
deciding_value row = elim (lookup "status" row) [
  | some v ↦ v
  | none ↦ elim (lookup "nu" row) [ some v ↦ v | none ↦ str "vigente" ]
]

unfoldable pub is_active : Fields → Bool
unfolding vigent_value deciding_value
is_active row = vigent_value (deciding_value row)

abbrev canonical_value : Json → Bool
canonical_value null = true
canonical_value (str s) = not (s == "")
canonical_value _ = false

unfoldable pub is_canonical_vigency : Fields → Bool
is_canonical_vigency row = elim (lookup "status" row) [
  | some v ↦ canonical_value v
  | none ↦ elim (lookup "nu" row) [ some v ↦ canonical_value v | none ↦ true ]
]
