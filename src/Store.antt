-- ===== src/Store.antt =====
-- an_kla/store.py, plan_guard.py and supersede.py: the records of a revision, how a snapshot
-- shows them, and what a write checks against it.
pub mod Rows
pub mod Overlay
pub mod Assign
pub mod Guard
pub mod Reading
pub mod PlanItems
pub mod BatchGuard
pub mod Pending
pub mod BatchRecords
pub mod Planning
pub mod BatchPlanning
mod Tests
