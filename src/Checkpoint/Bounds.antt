-- ===== src/Checkpoint/Bounds.antt =====
-- The bounds of a valid working state.
use an_kla_memory.Base.{ℕ, ◌≤◌, String, ◌<>◌, ◌≡◌, refl, Bool, true, false, List, [], ◌∷◌, member}
use an_kla_memory.Base.{
  ltb, arith, Result, ok, err, raise_if, >>=-eq-ok, >>-eq-ok, raise_if-eq-ok, ok_inj, subst, ap,
  ◌∙◌, Error,
}
use an_kla_memory.Json.{
  Json, Fields, Items, nil, cons, str, arr, obj, null, bool, num, real, not_finite, get,
}
use an_kla_memory.Canonical.{canonical_json, byte_length}
use an_kla_memory.WriteBatch.Validate.{count}
use an_kla_memory.Checkpoint.Contracts.{exact, digest, policy_error, state_code}
use an_kla_memory.Checkpoint.WorkingState.{check_size, item_bytes, check_item, check_all, max_items}
use an_kla_memory.Checkpoint.WorkingState.{
  check_items, state_bytes, validate_working_state, read_id,
}
use an_kla_memory.Checkpoint.WorkingState.{check_provenance, check_field, check_source}

-- The value has a canonical text of so many bytes at most.
abbrev pub HasSize : Json → ℕ → Type 0
HasSize v limit = (text : String) × (canonical_json v ≡ ok text) × (byte_length text ≤ limit)

within_limit : (limit n : ℕ) → ltb limit n ≡ false → n ≤ limit
within_limit limit n h = ground arith

raise_if-false : (t : Bool) (e : Error) → raise_if t e ≡ ok tt → t ≡ false
raise_if-false true e h = cc
raise_if-false false e h = refl

check_text :
    (v : Json) (limit : ℕ) (a b : String) (r : Result String)
    → canonical_json v ≡ r
    → elim r [
      | err e ↦ err (policy_error state_code a)
      | ok text ↦ raise_if (ltb limit (byte_length text)) (policy_error state_code b)
    ]
      ≡ ok tt
    → HasSize v limit
check_text v limit a b (err e) same h = cc
check_text v limit a b (ok text) same h =
    (text, same, within_limit limit (byte_length text) (raise_if-false _ _ h))

check_size-HasSize :
    (v : Json) (limit : ℕ) (a b : String) → check_size v limit a b ≡ ok tt → HasSize v limit
unfolding check_size
check_size-HasSize v limit a b h = check_text v limit a b (canonical_json v) refl h

exact-obj :
    (v : Json) (names : List String) (code path : String) (out : Fields)
    → exact v names code path ≡ ok out
    → v ≡ obj out
unfolding exact
exact-obj v names code path out h = ground arith

read_id-str : (v : Json) (path id : String) → read_id v path ≡ ok id → v ≡ str id
read_id-str v path id h = ground arith

-- The ids are none of those before and differ, and each value is within its size.
abbrev pub ItemsFit : List String → Items → Type 0
ItemsFit seen nil = Unit
ItemsFit seen (cons raw raws) =
    (fs : Fields) × (id : String) × (raw ≡ obj fs)
    × (get fs "id" ≡ str id)
    × (member id seen ≡ false)
    × HasSize (get fs "value") item_bytes
    × ItemsFit (id ∷ seen) raws

check_all-ItemsFit :
    (seen : List String) (xs : Items) (path : String)
    → check_all seen xs path ≡ ok tt
    → ItemsFit seen xs
unfolding check_all check_item
check_all-ItemsFit seen nil path h = tt
check_all-ItemsFit seen (cons raw raws) path h =
    let (id, later, first) = >>=-eq-ok (check_item seen raw path) _ h in
    let (fs, h1, e1) = >>=-eq-ok (exact raw _ state_code (path <> "[]")) _ first in
    let (id', h2, e2) = >>=-eq-ok (read_id (get fs "id") path) _ h1 in
    let (fresh, h3) = raise_if-eq-ok _ _ _ h2 in
    let (_, h4) = >>-eq-ok (check_provenance (get fs "provenance") (path <> "[]")) _ h3 in
    let (_, h5) = raise_if-eq-ok _ _ _ h4 in
    let (sized, h6) =
      >>-eq-ok
        (check_size (get fs "value") item_bytes (path <> "[].value:not_canonical_json")
          (path <> "[].value:too_large"))
        _ h5 in
    let same : id' ≡ id = ok_inj h6 in
    (
      fs,
      id,
      exact-obj raw _ state_code (path <> "[]") fs e1,
      read_id-str (get fs "id") path id (e2 ∙ ap ok same),
      subst (λ i. member i seen ≡ false) same fresh,
      check_size-HasSize (get fs "value") item_bytes _ _ sized,
      check_all-ItemsFit (id ∷ seen) raws path later,
    )

-- At most 50 items, with different ids, each value of at most 8192 bytes.
abbrev pub IsBounded : Json → Type 0
IsBounded v = (xs : Items) × (v ≡ arr xs) × (count xs ≤ max_items) × ItemsFit [] xs

check_items-IsBounded : (v : Json) (path : String) → check_items v path ≡ ok tt → IsBounded v
unfolding check_items
check_items-IsBounded (arr xs) path h =
    let (few, h1) = raise_if-eq-ok (ltb max_items (count xs)) _ _ h in
    (xs, refl, within_limit max_items (count xs) few, check_all-ItemsFit [] xs path h1)
check_items-IsBounded null path h = cc
check_items-IsBounded (bool b) path h = cc
check_items-IsBounded (num n) path h = cc
check_items-IsBounded (real r) path h = cc
check_items-IsBounded not_finite path h = cc
check_items-IsBounded (str s) path h = cc
check_items-IsBounded (obj fs) path h = cc

-- A valid working state is a dict of at most 65,536 bytes of canonical JSON; its decisions, blockers
-- and evidence are lists of at most 50 items each, with different ids within a list and values of
-- at most 8,192 bytes.
pub validate_working_state-IsBounded :
    (state : Json) (supersedes : String)
    → validate_working_state state ≡ ok supersedes
    → (fs : Fields) × (state ≡ obj fs)
      × HasSize state state_bytes
      × IsBounded (get fs "decisions")
      × IsBounded (get fs "blockers")
      × IsBounded (get fs "evidence")
unfolding validate_working_state
validate_working_state-IsBounded state supersedes h =
    let (fs, h1, e1) = >>=-eq-ok (exact state _ state_code "working_state") _ h in
    let (_, h2) = raise_if-eq-ok _ _ _ h1 in
    let (_, h3) = >>-eq-ok (check_field false (get fs "objective") "objective") _ h2 in
    let (_, h4) = >>-eq-ok (check_field false (get fs "phase") "phase") _ h3 in
    let (_, h5) = >>-eq-ok (check_field false (get fs "next_step") "next_step") _ h4 in
    let (d, h6) = >>-eq-ok (check_items (get fs "decisions") "decisions") _ h5 in
    let (b, h7) = >>-eq-ok (check_items (get fs "blockers") "blockers") _ h6 in
    let (e, h8) = >>-eq-ok (check_items (get fs "evidence") "evidence") _ h7 in
    let (_, h9) = >>-eq-ok (check_source (get fs "source_state")) _ h8 in
    let (_, h10) = >>-eq-ok (check_field true (get fs "captured_at") "captured_at") _ h9 in
    let (s, h11, e11) = >>=-eq-ok (digest (get fs "supersedes_checkpoint") _ _) _ h10 in
    let (sized, h12) =
      >>-eq-ok
        (check_size state state_bytes "working_state:not_canonical_json" "working_state:too_large")
        _ h11 in
    (
      fs,
      exact-obj state _ state_code "working_state" fs e1,
      check_size-HasSize state state_bytes _ _ sized,
      check_items-IsBounded (get fs "decisions") "decisions" d,
      check_items-IsBounded (get fs "blockers") "blockers" b,
      check_items-IsBounded (get fs "evidence") "evidence" e,
    )
