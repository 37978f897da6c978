-- ===== src/Partitioning.antt =====
-- `maia/factory/partitioning`: how zones are shared between processes.
pub mod KarmarkarKarp
pub mod Spread
pub mod HomogeneousRepart
pub mod KarmarkarKarpLaws
pub mod Tests
pub mod CutTree
pub mod CutTreeLaws
pub mod Refine
pub mod SplitBlock
pub mod SplitLaws
pub mod SplitCounts
pub mod LineLaws
pub mod PointRanges
