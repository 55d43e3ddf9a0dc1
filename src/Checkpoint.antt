-- ===== src/Checkpoint.antt =====
-- an_kla/checkpoint_policy.py: which checkpoint an authority may write.
pub mod Contracts
pub mod WorkingState
pub mod Authority
pub mod Evaluate
pub mod Bounds
pub mod Grant
mod Tests
