-- ===== src/WriteBatch/Named.antt =====
-- The records of a valid batch have ids, and no id twice.
use an_kla_memory.Base.{
  ℕ, suc, String, ◌<>◌, ◌==◌, ◌≡◌, ◌≤◌, refl, sym, ap, subst, ◌∙◌, true, false, not, some, List, [],
  ◌∷◌,
}
use an_kla_memory.Base.{
  Error, Result, ok, err, arith, distinct, length, ltb, if◌then◌else◌, >>=-eq-ok, >>-eq-ok,
  raise_if-eq-ok,
}
use an_kla_memory.Json.{
  Json, Fields, Items, nil, cons, null, bool, num, real, not_finite, str, arr, obj, end, field,
  item, lookup, get, as_str,
}
use an_kla_memory.Canonical.{decimal}
use an_kla_memory.Record.SubjectRef.{parse_subject_ref}
use an_kla_memory.Record.Temporal.{parse_verified_at}
use an_kla_memory.WritePolicy.Shape.{
  policy_error, require_exact_keys, validate_record_fields, validate_json_value,
}
use an_kla_memory.WritePolicy.Shape.{parsed_if_present, bad_scalar}
use an_kla_memory.WritePolicy.Proposal.{proposal_code, fields_of, Request}
use an_kla_memory.WriteBatch.Validate.{
  Batch, row_ids, validate_rows, validate_records, validate_batch_proposal, max_batch_records,
  count,
}
use an_kla_memory.WriteBatch.Validate.{
  read_batch_request, read_batch_content, targets_of, validate_batch_lineage,
}
use an_kla_memory.WriteBatch.Likeness.{batch_is_obj}
use an_kla_memory.WriteBatch.Readings.{keys_of}
use an_kla_memory.Base.{ok_inj}

-- Every record has its id under `id`, and the id is not empty.
abbrev pub AllNamed : List (String × Fields) → Type 0
AllNamed [] = Unit
AllNamed ((id, row) ∷ rows) =
    (as_str (get row "id") ≡ some id) × ((id == "") ≡ false) × AllNamed rows

abbrev pub IsNamed : Fields → String → Type 0
IsNamed row id = (as_str (get row "id") ≡ some id) × ((id == "") ≡ false)

abbrev id_from : Fields → String → String → Result String
id_from row code prefix = elim (lookup "id" row) [
  | some (str s) ↦ if s == "" then err (policy_error code (prefix <> ".id")) else ok s
  | _ ↦ err (policy_error code (prefix <> ".id"))
]

id_from-IsNamed :
    (row : Fields) (code prefix id : String) → id_from row code prefix ≡ ok id → IsNamed row id
id_from-IsNamed row code prefix id h = ground arith

pub validate_record_fields-IsNamed :
    (row : Json) (code prefix id : String)
    → validate_record_fields row code prefix ≡ ok id
    → IsNamed (fields_of row) id
unfolding validate_record_fields
validate_record_fields-IsNamed (obj (field k v fs)) code prefix id h =
    let row = field k v fs in
    let (found, h₁, read) = >>=-eq-ok (id_from row code prefix) _ h in
    let (_, h₂) =
      >>-eq-ok
        (parsed_if_present parse_verified_at "verified_at" row
          (policy_error code (prefix <> ".verified_at")))
        _ h₁ in
    let (_, h₃) = raise_if-eq-ok (bad_scalar "status" row) _ _ h₂ in
    let (_, h₄) = raise_if-eq-ok (bad_scalar "nu" row) _ _ h₃ in
    let (_, h₅) =
      >>-eq-ok
        (parsed_if_present parse_subject_ref "subject_ref" row
          (policy_error code (prefix <> ".subject_ref")))
        _ h₄ in
    id_from-IsNamed row code prefix id (read ∙ h₅)
validate_record_fields-IsNamed (obj end) code prefix id h = (cc, cc)
validate_record_fields-IsNamed null code prefix id h = (cc, cc)
validate_record_fields-IsNamed (bool x) code prefix id h = (cc, cc)
validate_record_fields-IsNamed (num n) code prefix id h = (cc, cc)
validate_record_fields-IsNamed (real r) code prefix id h = (cc, cc)
validate_record_fields-IsNamed not_finite code prefix id h = (cc, cc)
validate_record_fields-IsNamed (str s) code prefix id h = (cc, cc)
validate_record_fields-IsNamed (arr xs) code prefix id h = (cc, cc)

validate_rows-AllNamed :
    (items : Items) (index : ℕ) (rows : List (String × Fields))
    → validate_rows index items ≡ ok rows
    → AllNamed rows × (length rows ≡ count items)
unfolding validate_rows
validate_rows-AllNamed nil index [] h = (tt, refl)
validate_rows-AllNamed nil index (x ∷ rows) h = cc
validate_rows-AllNamed (cons row items) index rows h =
    let (id, h₁, read) =
      >>=-eq-ok (validate_record_fields row proposal_code ("records[" <> (decimal index <> "]"))) _
        h in
    let (rest, h₂, later) = >>=-eq-ok (validate_rows (suc index) items) _ h₁ in
    let (named, filled) = validate_record_fields-IsNamed row proposal_code _ id read in
    let (all_named, counted) = validate_rows-AllNamed items (suc index) rest later in
    subst (λ l. AllNamed l × (length l ≡ suc (count items))) (ok_inj h₂)
      ((named, filled, all_named), ap suc counted)

err_not_ok {ℓ} : {A : Type ℓ} {e : Error} {a : A} → err e ≡ ok a → ⊥
err_not_ok h = cc

-- What the checks of the records give.
abbrev pub IsWellNamed : List (String × Fields) → Type 0
IsWellNamed rows =
    AllNamed rows × (distinct (row_ids rows) ≡ true) × (length rows ≤ max_batch_records)

validate_records-IsWellNamed :
    (records : Json) (rows : List (String × Fields))
    → validate_records records ≡ ok rows
    → IsWellNamed rows
unfolding validate_records
validate_records-IsWellNamed (arr (cons row items)) rows h =
    let (small, h₁) = raise_if-eq-ok (ltb max_batch_records (count (cons row items))) _ _ h in
    let (pairs, h₂, valid) = >>=-eq-ok (validate_rows 0 (cons row items)) _ h₁ in
    let (unlike, h₃) = raise_if-eq-ok (not (distinct (row_ids pairs))) _ _ h₂ in
    let (named, counted) = validate_rows-AllNamed (cons row items) 0 pairs valid in
    subst IsWellNamed (ok_inj h₃) (named, ground arith, ground arith)
validate_records-IsWellNamed (arr nil) rows h = absurd (err_not_ok h)
validate_records-IsWellNamed null rows h = absurd (err_not_ok h)
validate_records-IsWellNamed (bool x) rows h = absurd (err_not_ok h)
validate_records-IsWellNamed (num n) rows h = absurd (err_not_ok h)
validate_records-IsWellNamed (real r) rows h = absurd (err_not_ok h)
validate_records-IsWellNamed not_finite rows h = absurd (err_not_ok h)
validate_records-IsWellNamed (str s) rows h = absurd (err_not_ok h)
validate_records-IsWellNamed (obj fs) rows h = absurd (err_not_ok h)

read_batch_content-IsWellNamed :
    (fs : Fields) (q : Request) (b : Batch) → read_batch_content fs q ≡ ok b → IsWellNamed b.rows
unfolding read_batch_content
read_batch_content-IsWellNamed fs (base, stream, operation, requested) b h =
    let (records, h₁, _) = >>=-eq-ok (item fs "records") _ h in
    let (rows, h₂, valid) = >>=-eq-ok (validate_records records) _ h₁ in
    let (_, h₃, _) = >>=-eq-ok (targets_of operation fs (row_ids rows)) _ h₂ in
    let (lineage, h₄, _) = >>=-eq-ok (item fs "lineage") _ h₃ in
    let (_, h₅, _) = >>=-eq-ok (validate_batch_lineage lineage) _ h₄ in
    let (_, h₆) =
      >>-eq-ok (validate_json_value (obj fs) proposal_code "proposal:invalid_json") _ h₅ in
    subst IsWellNamed (ap (λ (x : Batch). x.rows) (ok_inj h₆))
      (validate_records-IsWellNamed records rows valid)

obj-IsWellNamed :
    (fs : Fields) (b : Batch) → validate_batch_proposal (obj fs) ≡ ok b → IsWellNamed b.rows
unfolding validate_batch_proposal
obj-IsWellNamed fs b h =
    let (_, h₁) =
      >>-eq-ok
        (require_exact_keys fs (keys_of "records") ("supersedes" ∷ []) proposal_code
          "proposal:keys")
        _ h in
    let (q, h₂, _) = >>=-eq-ok (read_batch_request fs) _ h₁ in
    read_batch_content-IsWellNamed fs q b h₂

pub validate_batch_proposal-IsWellNamed :
    (proposal : Json) (b : Batch) → validate_batch_proposal proposal ≡ ok b → IsWellNamed b.rows
validate_batch_proposal-IsWellNamed proposal b h =
    let (fs, e) = batch_is_obj proposal b h in
    obj-IsWellNamed fs b (ap validate_batch_proposal (sym e) ∙ h)
