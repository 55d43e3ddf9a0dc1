-- ===== src/Lib.antt =====
-- A model of the core of AN-KLA, a local memory store for agents (the Python package an_kla/), and
-- proofs about it. A memory is a chain of immutable revisions under refs/CURRENT: manifests that
-- list content-addressed segments of records in three streams (facts, events, episodes), with maps
-- of what was superseded and refuted. A record gets in by a governed write: a proposal and an
-- authority are validated and judged by a pure policy, which gives a decision and an exact plan;
-- the plan is guarded against a snapshot, committed under a lock by a sequence of durable writes
-- that ends with the move of CURRENT, and an outcome is reported.
--
-- The files, and the code they are about:
--   Base, Base/Text, Base/TextOrder, Base/Regex, Base/Int: Python's exceptions as a result type,
--     `str`, `re`, and the native numbers; helpers only.
--   Json, Json/Limits, Json/Equal: JSON values as `json.loads` gives them, the limits on nodes and
--     depth (`_validate_json_value` of an_kla/write_policy.py), and `==` on these values.
--   Canonical and below: an_kla/canonical.py; KeyOrder has the proofs on the order of keys, Parts
--     lemmas on when a value has a canonical text.
--   Record/Vigency, RecordText, SubjectRef, Temporal, Temporal/Format, Freshness:
--     an_kla/vigency.py, record_text.py, subject_ref.py and temporal.py; Ages has a proof.
--   WritePolicy and below: an_kla/write_policy.py, for write-proposal-v1: Types (vocabularies),
--     Shape (checks shared), Proposal, Authority, Configuration, Evaluate (`evaluate_write`),
--     Decision, Plan (`build_write_plan`, `validate_write_plan`, `verify_write_plan`); Ceiling has
--     the proofs on decisions.
--   WriteBatch and below: an_kla/write_batch.py: Validate, Judge (`evaluate_batch_write` by way
--     of the twin) and Assemble (`build_batch_write_plan`); Ceiling has the proofs on decisions,
--     with the lemmas of Twin, Readings, Likeness and Named.
--   Revision and below: an_kla/revision_walk.py (Walk; Chain and Lineage have the proofs) and
--     an_kla/revision_builder.py (Builder); `validate_manifest` and
--     `validate_revision_chain` of an_kla/revision_validation.py (Maps, Validation, Ascent, with
--     the proofs in Agreement, Visited, Watermarked); an_kla/watermark.py (Watermark).
--   Store and below: from an_kla/store.py the scan of the segments (Rows), the vigency overlay
--     (Overlay), `_assign_records` (Assign) and `plan_write` (Planning, BatchPlanning);
--     an_kla/plan_guard.py and an_kla/supersede.py (Guard, BatchGuard, Reading); and what
--     an_kla/write_commit.py takes from a plan (Pending; the lemmas on plans are in
--     PlanItems and BatchRecords).
--   Transactions and below: an_kla/transaction_attempts.py (Attempts, with a proof in
--     Attempts/RoundTrip); from an_kla/transactions.py the checks before the first write (Binding),
--     `make_outcome` and `candidate_relation` (Outcome), and the durable steps of `commit_locked`
--     with its error path (Commit); Commit/Honesty and Commit/Success have the proofs.
--   Storage and below: an_kla/storage_primitives.py: AtomicWrite and Immutable, as functions of
--     what each system call answers (Atomicity, Preservation, Healing have the proofs); and
--     an_kla/reader_gate.py for one thread and the bounded wait, on one round more than the timeout
--     has ticks (Gate, with its proofs in Balance).
--   Refute and below: an_kla/refute_contracts.py (Contracts, Claim, Attestation) and
--     an_kla/refute_policy.py (Evaluate, Plan); Safety and RoundTrip have the proofs, with the
--     lemmas of Outcomes and Reading.
--   Checkpoint and below: an_kla/checkpoint_policy.py: Contracts (checks shared), WorkingState
--     (`validate_working_state`, `validate_proposal`), Authority, Evaluate (`evaluate`,
--     `build_plan`, `verify_plan`); Bounds and Grant have the proofs.
--   Compaction and below: an_kla/compaction_projection.py (Project; Current has the proof, with
--     Sorted, Buried and Placing).
--   Retrieval and below: `_retrieve_under_gate` of an_kla/retrieval.py: Rank (the loop over the
--     records and the order), Select (the index and the budget), Run (checks, run, result); the
--     other files have the proofs.
--
-- How the code became definitions. A function that raises returns a `Result`; an exception is a
-- constructor of `Error` with the code of the source. A validated dict is kept as a record of the
-- fields that are used later. A dict is its list of fields with one value for each key; Python's
-- `int` is ℤ, a `float` its `repr`. A text holds Unicode scalar values and stands for its UTF-8
-- bytes. Recursion follows the data, but for four loops: `exact_sized_payload` has the bound of
-- the source as its argument; `walk_revisions` gets two rounds more than the number of its first
-- revision, which is enough because the numbers go down by one; `validate_revision_chain` has the
-- rounds of the source, two more than that number; and the wait at the gate gets one round more
-- than the timeout has ticks, which is enough where the clock gains a tick with every try.
--
-- Parameters: `sha256` (hashlib), the Unicode tables of the interpreter (`Unicode`), Python's
-- `str` of a value that is not a text (`show`) and its `==` on numbers (`same_number`), what the
-- SQLite index answers (`Index`), the host's resolver of a refutation (`Resolver`). In a commit,
-- the storage is the function that says which step fails, with which code, and whether its bytes
-- landed before. The validation of a chain asks an interface (`ChainStore`) for what it reads
-- beside the manifests. In a commit, the audit of the chain below a revision is `World.audited`,
-- and that a new candidate is not in the chain of its own parent, which follows from content
-- addressing, is a hypothesis.
--
-- Not modelled: the write lock, the quota and the calls of `_quarantine_conflict`, several threads at the reader gate, the contents of the objects
-- that `commit_locked` writes, a failure that is not an `OSError`, context packages, the store's
-- part in refutations, checkpoints and compactions, identity, custody and relocation, attestation,
-- sealed bundles and exports, the command line, the MCP server, and the benchmarks: they are I/O,
-- glue, or parts that stand beside the path of a write.
pub mod Base
pub mod Json
pub mod Canonical
pub mod Record
pub mod WritePolicy
pub mod WriteBatch
pub mod Revision
pub mod Store
pub mod Transactions
pub mod Storage
pub mod Compaction
pub mod Refute
pub mod Checkpoint
pub mod Retrieval
