-- ===== src/Retrieval.antt =====
-- an_kla/retrieval.py: ranked retrieval of current records within a budget of bytes.
pub mod Rank
pub mod Select
pub mod Run
pub mod Budget
pub mod IndexFree
pub mod Accounts
pub mod Order
pub mod Maximal
mod Tests
