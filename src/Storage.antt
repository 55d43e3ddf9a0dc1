-- ===== src/Storage.antt =====
-- an_kla/storage_primitives.py and reader_gate.py: what a write leaves on the disk when any of its
-- system calls fails, and what a thread keeps of the gate.
pub mod AtomicWrite
pub mod Atomicity
pub mod Immutable
pub mod Preservation
pub mod Healing
pub mod Gate
pub mod Balance
mod Tests
