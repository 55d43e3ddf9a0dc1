-- ===== src/Record/RecordText.antt =====
-- an_kla/record_text.py
use an_kla_memory.Base.{String, ◌==◌, Option, none, some, List, [], ◌∷◌}
use an_kla_memory.Base.{if◌then◌else◌}
use an_kla_memory.Base.Text.{Unicode, strip}
use an_kla_memory.Json.{Json, Fields, str, obj, get}

module _ (u : Unicode) where
  -- `isinstance(value, str) and value.strip()`, with the stripped text.
  abbrev stripped : Json → Option String
  stripped (str s) = if strip u s == "" then none else some (strip u s)
  stripped _ = none

  -- The containers of one field, in order.
  unfoldable pub first_in : String → List Fields → Option String
  first_in name [] = none
  first_in name (c ∷ cs) = elim (stripped (get c name)) [
    | some t ↦ some t
    | none ↦ first_in name cs
  ]

  -- The two nested loops: fields outside, containers inside.
  unfoldable pub first_field : List String → List Fields → Option String
  unfolding first_in
  first_field [] containers = none
  first_field (name ∷ names) containers = elim (first_in name containers) [
    | some t ↦ some t
    | none ↦ first_field names containers
  ]

  -- `(payload, record) if isinstance(payload, dict) else (record,)`
  abbrev containers_of : Fields → Json → List Fields
  containers_of row (obj payload) = payload ∷ row ∷ []
  containers_of row _ = row ∷ []

  abbrev pub text_fields : List String
  text_fields = "indexable_text" ∷ "text" ∷ "render" ∷ "summary" ∷ "p" ∷ []

  unfoldable pub record_text : Fields → String
  unfolding first_field
  record_text row =
      let payload = get row "payload" in
      elim (first_field text_fields (containers_of row payload)) [
        | some t ↦ t
        | none ↦ elim (stripped payload) [ some t ↦ t | none ↦ "" ]
      ]
