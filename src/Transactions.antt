-- ===== src/Transactions.antt =====
-- an_kla/transaction_attempts.py and transactions.py: how a commit is carried out, recorded and
-- reported.
pub mod Attempts
pub mod Outcome
pub mod Binding
pub mod Commit
mod Tests
