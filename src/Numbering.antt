-- ===== src/Numbering.antt =====
-- `maia/utils/numbering`: global indices of the entities of a structured block.
pub mod Structured
pub mod Flat
pub mod Block
pub mod Exact
pub mod ExactLaws
pub mod FitLaws
pub mod Int32
pub mod StructuredLaws
pub mod Slabs
pub mod SlabCells
pub mod SlabLaws
pub mod SlabEnds
pub mod Dataspace
pub mod Tests
