-- ===== src/WriteBatch.antt =====
-- an_kla/write_batch.py: one decision and one plan for a batch of records (write-proposal-v2).
pub mod Validate
pub mod Judge
pub mod Assemble
pub mod Twin
pub mod Readings
pub mod Likeness
pub mod Ceiling
pub mod Named
mod Tests
