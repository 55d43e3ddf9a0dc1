-- ===== src/Record.antt =====
-- What the program reads off an open record: whether it counts as current, the text it shows, the
-- subject that it names, and when it was verified.
mod Tests
pub mod Vigency
pub mod RecordText
pub mod SubjectRef
pub mod Temporal
pub mod Freshness
pub mod Ages
