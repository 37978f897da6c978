-- ===== src/Pytree.antt =====
-- The tree library `maia/pytree`: nodes, searches, removals.
pub mod Node
pub mod Walk
pub mod Remove
pub mod Access
pub mod Sample
pub mod Tests
pub mod Paths
pub mod PathLaws
pub mod PathTests
pub mod Update
pub mod ByPath
pub mod ByPathLaws
