-- ===== src/Refute.antt =====
-- an_kla/refute_contracts.py and an_kla/refute_policy.py: who may refute a record.
pub mod Contracts
pub mod Claim
pub mod Attestation
pub mod Evaluate
pub mod Plan
pub mod Safety
pub mod Outcomes
pub mod Reading
pub mod RoundTrip
mod Tests
