-- ===== src/Transactions/Tests.antt =====
-- The theorems on the outcome of a commit, at concrete runs.
use an_kla_memory.Base.{◌≡◌, refl, true, false, Option, some, none, [], ◌∷◌, ◌↔◌, ◌≢◌, arith}
use an_kla_memory.Transactions.Outcome.{make_outcome, make_outcome-committed, current, committed}
use an_kla_memory.Transactions.Outcome.{AuditState, Durability, is_in_lineage}
use an_kla_memory.Transactions.Commit.{
  World, Step, Fault, write, refute, replace_current, commit_locked,
}
use an_kla_memory.Transactions.Commit.{fresh_run}
use an_kla_memory.Transactions.Commit.Success.{Committed, commit_locked-commits}
use an_kla_memory.Transactions.Commit.Honesty.{Honest, commit_locked-Honest}
use an_kla_memory.Base.{String, ok, err, transaction}
use an_kla_memory.Json.{Json, Fields, null, str, obj, field, end}
use an_kla_memory.Canonical.{digest_json, canonical_json}
use an_kla_memory.Canonical.Identifiers.{bare_digest}
use an_kla_memory.Base.{◌==◌, List, Bool}
use an_kla_memory.Transactions.Binding.{check_binding}
use an_kla_memory.Transactions.Attempts.{Binding, begin_transaction, validate_attempt}
use an_kla_memory.Transactions.Attempts.{canonical_uuid, attempt_of}
use an_kla_memory.Transactions.Attempts.RoundTrip.{begin_transaction-validates}

-- `os.replace` succeeded and flushing the directory failed.
abbrev flush_fails : Step → Option Fault
flush_fails replace_current = some (record { code = "EIO"; landed = true })
flush_fails _ = none

abbrev flushing : World
flushing = record {
  fault = flush_fails;
  reread_fails = false;
  handler_read_fails = false;
  audited = λ head. some (head ∷ []);
}

commit_locked-Honest_example :
    Honest "r1" "r2" (commit_locked flushing "r1" "r2" write (fresh_run "r1"))
commit_locked-Honest_example =
    commit_locked-Honest flushing "r1" "r2" refl (λ ids e. ground arith) write

make_outcome-committed_example :
    ((make_outcome
        (some "r1")
        (some "r2")
        (some "r2")
        current
        (some true)
        AuditState.complete
        Durability.complete
        none).state
      ≡ committed)
    ↔ ((is_in_lineage current ≡ true)
        × (Durability.complete ≢ Durability.incomplete)
        × (AuditState.complete ≡ AuditState.complete))
make_outcome-committed_example =
    make_outcome-committed (some "r1") (some "r2") (some "r2") current (some true)
      AuditState.complete Durability.complete none

abbrev healthy_world : World
healthy_world = record {
  fault = λ step. none;
  reread_fails = false;
  handler_read_fails = true;
  audited = λ head. none;
}

commit_locked-commits_example :
    Committed "r2" (commit_locked healthy_world "r1" "r2" refute (fresh_run "r1"))
commit_locked-commits_example =
    commit_locked-commits healthy_world "r1" "r2" (λ step. refl) refl refute

abbrev constant_sha256 : String → String
constant_sha256 s = "0123456789abcdef0123456789abcdef0123456789abcdef0123456789abcdef"

abbrev no_show : Json → String
no_show v = ""

abbrev some_digest : String
some_digest = "sha256:0123456789abcdef0123456789abcdef0123456789abcdef0123456789abcdef"

abbrev some_uuid : String
some_uuid = "12345678-1234-4123-8123-123456789abc"

abbrev write_binding : Binding
write_binding = record {
  transaction_id = null;
  base_revision = str some_digest;
  plan_fingerprint = str some_digest;
  initialization_fingerprint = null;
  mutation_fingerprint = null;
}

abbrev begun : Fields
begun =
    attempt_of "write" some_uuid
      (field "base_revision" (str some_digest) (field "plan_fingerprint" (str some_digest) end))
      some_digest

begun_run : begin_transaction constant_sha256 no_show some_uuid "write" write_binding ≡ ok begun
unfolding begin_transaction canonical_uuid bare_digest digest_json canonical_json
begun_run = refl

begin_transaction-validates_example :
    validate_attempt constant_sha256 no_show "another" (obj begun) ≡ ok begun
begin_transaction-validates_example =
    begin_transaction-validates constant_sha256 no_show some_uuid "another" "write" write_binding
      begun_run

-- Attempts are compared as texts here.
abbrev same_text : String → String → Bool
same_text s t = s == t

abbrev one_candidate : List String
one_candidate = "r2" ∷ []

-- A candidate of which nothing else is known.
unknown_candidate :
    check_binding same_text "a" none one_candidate []
    ≡ err (transaction "transaction_evidence_missing_or_invalid")
unfolding check_binding
unknown_candidate = refl
