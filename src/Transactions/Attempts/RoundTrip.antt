-- ===== src/Transactions/Attempts/RoundTrip.antt =====
-- An attempt that `begin_transaction` returned is accepted by `validate_attempt`.
use an_kla_memory.Base.{String, ◌==◌, ◌≡◌, refl, ap, subst, true, false, not, ◌||◌, ok}
use an_kla_memory.Base.{
  >>=-eq-ok, >>-eq-ok, raise_if-eq-ok, ◌>>=◌, ◌>>◌, arith, eq_iff, eq_refl, raise_if, transaction,
}
use an_kla_memory.Base.{Bool-cases, inl, inr, if◌then◌else◌}
use an_kla_memory.Json.{
  Json, Fields, null, bool, num, real, not_finite, str, arr, obj, end, field, get,
}
use an_kla_memory.Json.{is_truthy}
use an_kla_memory.Canonical.{digest_json}
use an_kla_memory.Canonical.Identifiers.{bare_digest}
use an_kla_memory.Transactions.Attempts.{
  is_canonical_uuid, canonical_uuid, bare_digest_of, Binding, Binds,
}
use an_kla_memory.Transactions.Attempts.{
  plan, initialization, mutation, unbound, binds_of, both_digests,
}
use an_kla_memory.Transactions.Attempts.{
  binding_fields, is_same, attempt_of, attempt_core, begin_transaction, binding_in,
}
use an_kla_memory.Transactions.Attempts.{validate_attempt, is_none}

canonical_uuid-eq-ok :
    (value : Json) {txid : String}
    → canonical_uuid value ≡ ok txid
    → (value ≡ str txid) × (is_canonical_uuid (str txid) ≡ true)
unfolding canonical_uuid
canonical_uuid-eq-ok (str s) {txid = txid} h =
    let (canonical, same) = raise_if-eq-ok (not (is_canonical_uuid (str s))) _ _ h in
    let at : s ≡ txid = cc same in
    (
      ap str at,
      ground (arith, subst (λ (t : String). not (is_canonical_uuid (str t)) ≡ false) at canonical),
    )
canonical_uuid-eq-ok null h = cc
canonical_uuid-eq-ok (bool b) h = cc
canonical_uuid-eq-ok (num n) h = cc
canonical_uuid-eq-ok (real r) h = cc
canonical_uuid-eq-ok not_finite h = cc
canonical_uuid-eq-ok (arr xs) h = cc
canonical_uuid-eq-ok (obj fs) h = cc

bare_digest_of-eq-ok :
    (value : Json) {bare : String}
    → bare_digest_of value ≡ ok bare
    → (s : String) × (value ≡ str s) × (bare_digest s ≡ ok bare)
bare_digest_of-eq-ok (str s) h = (s, refl, h)
bare_digest_of-eq-ok null h = cc
bare_digest_of-eq-ok (bool b) h = cc
bare_digest_of-eq-ok (num n) h = cc
bare_digest_of-eq-ok (real r) h = cc
bare_digest_of-eq-ok not_finite h = cc
bare_digest_of-eq-ok (arr xs) h = cc
bare_digest_of-eq-ok (obj fs) h = cc

-- No text of the pattern is empty.
truthy_uuid : (txid : String) → is_canonical_uuid (str txid) ≡ true → (txid == "") ≡ false
unfolding is_canonical_uuid
truthy_uuid txid h = elim (Bool-cases (txid == "")) [
  | inr filled ↦ filled
  | inl empty ↦ cc (rw ((eq_iff txid "").0 empty) at h)
]

both_digests-eq-ok :
    (first second : Json) (key₁ key₂ : String) {bound : Fields}
    → both_digests first second key₁ key₂ ≡ ok bound
    → (s : String) × (t : String) × (first ≡ str s)
      × (second ≡ str t)
      × (bound ≡ field key₁ (str s) (field key₂ (str t) end))
      × (d : String) × (e : String) × (bare_digest s ≡ ok d)
      × (bare_digest t ≡ ok e)
both_digests-eq-ok first second key₁ key₂ h =
    let (_, h₁) =
      >>-eq-ok
        (raise_if (is_none first || is_none second) (transaction "invalid_transaction_binding"))
        (bare_digest_of first >>= λ _.
          bare_digest_of second >>= λ _. ok (field key₁ first (field key₂ second end)))
        h in
    let (d, h₂, found) =
      >>=-eq-ok (bare_digest_of first)
        (λ _. bare_digest_of second >>= λ _. ok (field key₁ first (field key₂ second end))) h₁ in
    let (e, h₃, found₂) =
      >>=-eq-ok (bare_digest_of second) (λ _. ok (field key₁ first (field key₂ second end))) h₂ in
    let (s, at, digest) = bare_digest_of-eq-ok first found in
    let (t, at₂, digest₂) = bare_digest_of-eq-ok second found₂ in
    (s, t, at, at₂, cc (h₃, at, at₂), d, e, digest, digest₂)

-- What an attempt says of itself.
record Readable (k : Binds) (operation txid : String) (bound : Fields) (fingerprint : String)
    : Type 0 where
  operation_read : get (attempt_of operation txid bound fingerprint) "operation" ≡ str operation
  txid_read : get (attempt_of operation txid bound fingerprint) "transaction_id" ≡ str txid
  bound_read :
      binding_fields k (binding_in (attempt_of operation txid bound fingerprint)) ≡ ok bound
  same :
      is_same
        (attempt_of operation txid bound fingerprint)
        (attempt_of operation txid bound fingerprint)
      ≡ true

initial_digest-eq-ok :
    (value : Json) {bound : Fields}
    → (raise_if (is_none value) (transaction "invalid_transaction_binding")
        >> (bare_digest_of value >>= λ _.
            ok (field "expected_current" null (field "initialization_fingerprint" value end))))
      ≡ ok bound
    → (s : String) × (bound
        ≡ field "expected_current" null (field "initialization_fingerprint" (str s) end))
      × (d : String) × (bare_digest s ≡ ok d)
initial_digest-eq-ok value h =
    let (_, h₁) =
      >>-eq-ok (raise_if (is_none value) (transaction "invalid_transaction_binding"))
        (bare_digest_of value >>= λ _.
          ok (field "expected_current" null (field "initialization_fingerprint" value end)))
        h in
    let (d, h₂, found) =
      >>=-eq-ok (bare_digest_of value)
        (λ _. ok (field "expected_current" null (field "initialization_fingerprint" value end)))
        h₁ in
    let (s, at, digest) = bare_digest_of-eq-ok value found in (s, cc (h₂, at), d, digest)

binding_fields-Readable :
    (k : Binds) (b : Binding) (operation txid fingerprint : String) {bound : Fields}
    → binding_fields k b ≡ ok bound
    → Readable k operation txid bound fingerprint
unfolding binding_fields
binding_fields-Readable plan b operation txid fingerprint h =
    let (s, t, at, at₂, built, d, e, digest, digest₂) =
      both_digests-eq-ok b.base_revision b.plan_fingerprint _ _ h in
    rw built (record {
      operation_read = refl;
      txid_read = refl;
      bound_read = rw (digest, digest₂) refl;
      same = rw (eq_refl operation, eq_refl s, eq_refl t, eq_refl txid, eq_refl fingerprint) refl;
    })
binding_fields-Readable mutation b operation txid fingerprint h =
    let (s, t, at, at₂, built, d, e, digest, digest₂) =
      both_digests-eq-ok b.base_revision b.mutation_fingerprint _ _ h in
    rw built (record {
      operation_read = refl;
      txid_read = refl;
      bound_read = rw (digest, digest₂) refl;
      same = rw (eq_refl operation, eq_refl s, eq_refl t, eq_refl txid, eq_refl fingerprint) refl;
    })
binding_fields-Readable initialization b operation txid fingerprint h =
    let (s, built, d, digest) = initial_digest-eq-ok b.initialization_fingerprint h in
    rw built (record {
      operation_read = refl;
      txid_read = refl;
      bound_read = rw digest refl;
      same = rw (eq_refl operation, eq_refl s, eq_refl txid, eq_refl fingerprint) refl;
    })
binding_fields-Readable unbound b operation txid fingerprint h = cc

module _ (sha256 : String → String) (show : Json → String) (fresh fresh' : String) where
  begin_transaction-again :
      (operation txid : String) (bound : Fields) (fingerprint : String)
      → is_canonical_uuid (str txid) ≡ true
      → digest_json sha256 (obj (attempt_core operation txid bound)) ≡ ok fingerprint
      → Readable (binds_of operation) operation txid bound fingerprint
      → let a = attempt_of operation txid bound fingerprint in
        begin_transaction sha256 show fresh' operation (binding_in a) ≡ ok a
  unfolding begin_transaction canonical_uuid
  begin_transaction-again operation txid bound fingerprint canonical digested r =
      let bound_again = rw r.txid_read at r.bound_read in
      rw (r.txid_read, truthy_uuid txid canonical, canonical, bound_again, digested) refl

  validate_attempt-begun :
      (operation txid : String) (bound : Fields) (fingerprint : String)
      → is_canonical_uuid (str txid) ≡ true
      → digest_json sha256 (obj (attempt_core operation txid bound)) ≡ ok fingerprint
      → Readable (binds_of operation) operation txid bound fingerprint
      → let a = attempt_of operation txid bound fingerprint in
        validate_attempt sha256 show fresh' (obj a) ≡ ok a
  unfolding validate_attempt
  validate_attempt-begun operation txid bound fingerprint canonical digested r =
      rw (begin_transaction-again operation txid bound fingerprint canonical digested r, r.same)
        refl

  -- An attempt that was begun is valid, and is returned as it is, whatever identifier would be
  -- generated at the time.
  pub begin_transaction-validates :
      (operation : String) (b : Binding) {attempt : Fields}
      → begin_transaction sha256 show fresh operation b ≡ ok attempt
      → validate_attempt sha256 show fresh' (obj attempt) ≡ ok attempt
  unfolding begin_transaction
  begin_transaction-validates operation b {attempt = attempt} h =
      let (txid, h₁, named) =
        >>=-eq-ok
          (canonical_uuid (if is_truthy b.transaction_id then b.transaction_id else str fresh)) _
          h in
      let (bound, h₂, bindings) = >>=-eq-ok (binding_fields (binds_of operation) b) _ h₁ in
      let (fingerprint, h₃, digested) =
        >>=-eq-ok (digest_json sha256 (obj (attempt_core operation txid bound))) _ h₂ in
      let (_, canonical) =
        canonical_uuid-eq-ok (if is_truthy b.transaction_id then b.transaction_id else str fresh)
          named in
      let r = binding_fields-Readable (binds_of operation) b operation txid fingerprint bindings in
      let same : attempt_of operation txid bound fingerprint ≡ attempt = cc h₃ in
      subst (λ (a : Fields). validate_attempt sha256 show fresh' (obj a) ≡ ok a) same
        (validate_attempt-begun operation txid bound fingerprint canonical digested r)
