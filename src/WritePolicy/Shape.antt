-- ===== src/WritePolicy/Shape.antt =====
-- The checks that the validators of the write policy share.
use an_kla_memory.Base.{String, ◌<>◌, ◌==◌, Bool, true, false, not, Option, none, some}
use an_kla_memory.Base.{List, [], ◌∷◌, ◌++◌, if◌then◌else◌, member, Error, write_policy, type_error}
use an_kla_memory.Base.{Result, ok, err, raise_if, ◌>>=◌, ◌>>◌}
use an_kla_memory.Base.Text.{sorted, join}
use an_kla_memory.Json.{Json, Fields, Items, null, str, arr, obj, keys, lookup, item, is_text}
use an_kla_memory.Json.{in_set}
use an_kla_memory.Json.Limits.{visit}
use an_kla_memory.Canonical.{canonical_json}
use an_kla_memory.Canonical.Identifiers.{is_digest}
use an_kla_memory.Record.SubjectRef.{parse_subject_ref}
use an_kla_memory.Record.Temporal.{parse_verified_at}

-- `xs - ys` on sets of texts
abbrev pub without : List String → List String → List String
without [] ys = []
without (x ∷ xs) ys = if member x ys then without xs ys else x ∷ without xs ys

abbrev listed : String → List String → List String
listed label [] = []
listed label (x ∷ xs) = (label <> join "," (sorted (x ∷ xs))) ∷ []

abbrev pub policy_error : String → String → Error
policy_error code detail = write_policy code (some detail)

-- `_require_exact_keys`
unfoldable pub require_exact_keys :
    Fields → List String → List String → String → String → Result (Unit {0})
unfolding join
require_exact_keys value required optional code detail =
    let parts =
      listed "missing=" (without required (keys value))
      ++ listed "extra=" (without (keys value) (required ++ optional)) in
    elim parts [
      | [] ↦ ok tt
      | p ∷ ps ↦ err (policy_error code (detail <> (":" <> join ";" (p ∷ ps))))
    ]

-- `_is_digest`
unfoldable pub is_digest_value : Json → Bool
unfolding is_digest
is_digest_value (str s) = is_digest s
is_digest_value _ = false

-- `if value not in {...}: raise`, for a closed vocabulary.
abbrev pub one_of {ℓ} : {A : Type ℓ} → (String → Option A) → Json → Error → Result A
one_of parse (str s) e = elim (parse s) [ none ↦ err e | some a ↦ ok a ]
one_of parse (arr xs) e = err type_error
one_of parse (obj fs) e = err type_error
one_of parse _ e = err e

-- `except (TypeError, ValueError, OverflowError): raise`
abbrev pub or_raise {ℓ} : {A : Type ℓ} → Result A → Error → Result (Unit {0})
or_raise (ok a) e = ok tt
or_raise (err _) e = err e

-- `_validate_json_value`
unfoldable pub validate_json_value : Json → String → String → Result (Unit {0})
validate_json_value value code detail =
    let e = policy_error code detail in
    or_raise (visit e value 0 0) e >> or_raise (canonical_json value) e

-- `"sha256" in value and not _is_digest(value["sha256"])`
abbrev pub bad_digest_field : Fields → Bool
bad_digest_field fs = elim (lookup "sha256" fs) [ none ↦ false | some v ↦ not (is_digest_value v) ]

abbrev reference_kinds : List String
reference_kinds = "artifact" ∷ "event" ∷ "fact" ∷ "episode" ∷ "revision" ∷ "external" ∷ []

-- `_validate_reference`
unfoldable pub validate_reference : Json → String → String → Result (Unit {0})
unfolding is_digest_value require_exact_keys
validate_reference (obj value) code detail = do
  let e = policy_error code detail
  require_exact_keys value ("kind" ∷ "id" ∷ []) ("sha256" ∷ []) code detail
  kind ← item value "kind"
  known ← in_set reference_kinds kind
  raise_if (not known) e
  id ← item value "id"
  raise_if (not (is_text id)) e
  raise_if (bad_digest_field value) e
validate_reference _ code detail = err (policy_error code detail)

unfoldable pub validate_references : Items → String → String → Result (Unit {0})
unfolding validate_reference
validate_references Items.nil code detail = ok tt
validate_references (Items.cons x xs) code detail =
    validate_reference x code detail >> validate_references xs code detail

-- `field in record and not (record[field] is None or isinstance(record[field], str))`
abbrev pub bad_scalar : String → Fields → Bool
bad_scalar name row = elim (lookup name row) [
  | none ↦ false
  | some v ↦ elim v [ null ↦ false | str s ↦ false | _ ↦ true ]
]

-- A field that may be absent, and must parse if it is there.
abbrev pub parsed_if_present {ℓ} :
    {A : Type ℓ} → (Json → Result A) → String → Fields → Error → Result (Unit {0})
parsed_if_present parse name row e = elim (lookup name row) [
  | none ↦ ok tt
  | some v ↦ or_raise (parse v) e
]

-- `validate_record_fields`: returns the id.
unfoldable pub validate_record_fields : Json → String → String → Result String
unfolding parse_verified_at parse_subject_ref
validate_record_fields (obj Fields.end) code prefix =
    err (policy_error code (prefix <> ":not_object"))
validate_record_fields (obj (Fields.field k v fs)) code prefix = do
  let row = Fields.field k v fs
  id ← elim (lookup "id" row) [
    | some (str s) ↦ if s == "" then err (policy_error code (prefix <> ".id")) else ok s
    | _ ↦ err (policy_error code (prefix <> ".id"))
  ]
  parsed_if_present parse_verified_at "verified_at" row
      (policy_error code (prefix <> ".verified_at"))
  raise_if (bad_scalar "status" row) (policy_error code (prefix <> ".status"))
  raise_if (bad_scalar "nu" row) (policy_error code (prefix <> ".nu"))
  parsed_if_present parse_subject_ref "subject_ref" row
      (policy_error code (prefix <> ".subject_ref"))
  ok id
validate_record_fields _ code prefix = err (policy_error code (prefix <> ":not_object"))
