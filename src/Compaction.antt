-- ===== src/Compaction.antt =====
-- an_kla/compaction_projection.py: what a compaction keeps of a snapshot.
pub mod Project
pub mod Sorted
pub mod Buried
pub mod Placing
pub mod Current
mod Tests
