-- ===== src/Revision.antt =====
-- an_kla/revision_walk.py and an_kla/revision_builder.py: the chain of revisions.
pub mod Walk
pub mod Chain
pub mod Lineage
pub mod Builder
pub mod Maps
pub mod Validation
pub mod Agreement
pub mod Watermark
pub mod Ascent
pub mod Visited
pub mod Watermarked
mod Tests
mod ValidationTests
mod WatermarkTests
