-- ===== src/WritePolicy.antt =====
-- an_kla/write_policy.py: the pure core that turns a proposal and an
-- authority into a decision and a plan. A validated dict is kept as a record of its fields.
pub mod Types
pub mod Shape
pub mod Proposal
pub mod Authority
pub mod Configuration
pub mod Evaluate
pub mod Decision
pub mod Plan
pub mod Ceiling
pub mod Samples
mod Tests
