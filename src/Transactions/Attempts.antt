-- ===== src/Transactions/Attempts.antt =====
-- an_kla/transaction_attempts.py: the binding of a transaction to what it executes.
pub mod RoundTrip
use an_kla_memory.Base.{String, ◌==◌, Bool, true, false, not, ◌&&◌, ◌||◌, Option, some}
use an_kla_memory.Base.{if◌then◌else◌, eqb, length, Result, ok, err, transaction, type_error}
use an_kla_memory.Base.{raise_if, ◌>>=◌, ◌>>◌}
use an_kla_memory.Base.Int.{pos, negsuc}
use an_kla_memory.Base.Regex.{Regex, seq, rep, cls, text, is_hex, range, fullmatch}
use an_kla_memory.Json.{
  Json, Fields, null, bool, num, real, not_finite, str, arr, obj, nil, cons, end, field,
}
use an_kla_memory.Json.{get, lookup, keys}
use an_kla_memory.Json.{is_truthy}
use an_kla_memory.Canonical.{digest_json}
use an_kla_memory.Canonical.Identifiers.{bare_digest}

-- `str(uuid.UUID(value)) == value`, version 1 to 5, RFC 4122: the texts of this pattern.
abbrev uuid_pattern : Regex
uuid_pattern = seq (rep 8 8 (cls is_hex)) (
    seq (text "-") (
      seq (rep 4 4 (cls is_hex)) (
        seq (text "-") (
          seq (cls (range b'1' b'5')) (
            seq (rep 3 3 (cls is_hex)) (
              seq (text "-") (
                seq (cls (λ c. range b'8' b'9' c || range b'a' b'b' c))
                  (seq (rep 3 3 (cls is_hex)) (seq (text "-") (rep 12 12 (cls is_hex)))))))))))

unfoldable pub is_canonical_uuid : Json → Bool
unfolding fullmatch
is_canonical_uuid (str s) = fullmatch uuid_pattern s
is_canonical_uuid _ = false

-- `canonical_uuid`
unfoldable pub canonical_uuid : Json → Result String
unfolding is_canonical_uuid
canonical_uuid (str s) =
    raise_if (not (is_canonical_uuid (str s))) (transaction "invalid_transaction_id") >> ok s
canonical_uuid _ = err (transaction "invalid_transaction_id")

-- `bare_digest(value)`; what is no text has no `startswith`.
abbrev pub bare_digest_of : Json → Result String
bare_digest_of (str s) = bare_digest s
bare_digest_of _ = err type_error

abbrev pub is_none : Json → Bool
is_none null = true
is_none _ = false

-- The arguments of `begin_transaction` after the operation; `null` is `None`.
pub record Binding : Type 0 where
  pub transaction_id : Json
  pub base_revision : Json
  pub plan_fingerprint : Json
  pub initialization_fingerprint : Json
  pub mutation_fingerprint : Json

pub data Binds : Type 0 where
  plan initialization mutation unbound : Binds

abbrev pub binds_of : String → Binds
binds_of operation =
    if operation == "write"
      || operation == "checkpoint"
      || operation == "refute"
      || operation == "compact"
    then plan
    else if operation == "initialize"
    then initialization
    else if operation == "internal_commit"
    then mutation
    else unbound

-- Two digests that must be there.
abbrev pub both_digests : Json → Json → String → String → Result Fields
both_digests first second key₁ key₂ =
    raise_if (is_none first || is_none second) (transaction "invalid_transaction_binding")
    >> (bare_digest_of first >>= λ _.
        bare_digest_of second >>= λ _. ok (field key₁ first (field key₂ second end)))

unfoldable pub binding_fields : Binds → Binding → Result Fields
unfolding bare_digest
binding_fields plan b =
    both_digests b.base_revision b.plan_fingerprint "base_revision" "plan_fingerprint"
binding_fields initialization b =
    raise_if (is_none b.initialization_fingerprint) (transaction "invalid_transaction_binding")
    >> (bare_digest_of b.initialization_fingerprint >>= λ _. ok (
        field "expected_current" null
          (field "initialization_fingerprint" b.initialization_fingerprint end)))
binding_fields mutation b =
    both_digests b.base_revision b.mutation_fingerprint "base_revision" "mutation_fingerprint"
binding_fields unbound b = err (transaction "invalid_transaction_operation")

abbrev pub put_last : String → Json → Fields → Fields
put_last k v end = field k v end
put_last k v (field j w fs) = field j w (put_last k v fs)

-- Equality with a dict whose values are texts and `None`.
abbrev pub same_flat : Json → Option Json → Bool
same_flat null (some null) = true
same_flat (str s) (some (str t)) = s == t
same_flat _ _ = false

abbrev included : Fields → Fields → Bool
included end other = true
included (field k v fs) other = same_flat v (lookup k other) && included fs other

abbrev pub is_same : Fields → Fields → Bool
is_same fs other = included fs other && eqb (length (keys fs)) (length (keys other))

abbrev pub attempt_core : String → String → Fields → Fields
attempt_core operation txid bound =
    field "schema" (str "an-kla/transaction-attempt-v1")
      (field "operation" (str operation) (put_last "transaction_id" (str txid) bound))

abbrev pub attempt_of : String → String → Fields → String → Fields
attempt_of operation txid bound fingerprint =
    put_last "execution_fingerprint" (str fingerprint) (attempt_core operation txid bound)

-- `attempt.get(...)` for the arguments
abbrev pub binding_in : Fields → Binding
binding_in attempt = record {
  transaction_id = get attempt "transaction_id";
  base_revision = get attempt "base_revision";
  plan_fingerprint = get attempt "plan_fingerprint";
  initialization_fingerprint = get attempt "initialization_fingerprint";
  mutation_fingerprint = get attempt "mutation_fingerprint";
}

-- `fresh` is the `uuid.uuid4()` of the call, `show` Python's `str` of what is no text.
module _ (sha256 : String → String) (show : Json → String) (fresh : String) where
  unfoldable pub begin_transaction : String → Binding → Result Fields
  unfolding canonical_uuid binding_fields
  begin_transaction operation b = do
    txid ← canonical_uuid (if is_truthy b.transaction_id then b.transaction_id else str fresh)
    bound ← binding_fields (binds_of operation) b
    let core = attempt_core operation txid bound
    fingerprint ← digest_json sha256 (obj core)
    ok (attempt_of operation txid bound fingerprint)

  abbrev pub text_value : Json → String
  text_value (str s) = s
  text_value v = show v

  unfoldable pub validate_attempt : Json → Result Fields
  unfolding begin_transaction
  validate_attempt (obj attempt) =
      begin_transaction (text_value (get attempt "operation")) (binding_in attempt) >>= λ rebuilt.
      raise_if (not (is_same rebuilt attempt)) (transaction "invalid_transaction_attempt")
      >> ok rebuilt
  validate_attempt _ = err (transaction "invalid_transaction_attempt")
