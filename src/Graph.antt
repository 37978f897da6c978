-- ===== src/Graph.antt =====
-- `maia/pytree/graph`: traversals of graphs, and of CGNS trees as graphs.
pub mod Stack
pub mod Visitors
pub mod Traversal
pub mod StackLaws
pub mod QuietLaws
pub mod Build
pub mod BuildLaws
pub mod Cgns
pub mod CgnsLaws
pub mod Zip
pub mod Compare
pub mod SortLaws
pub mod Reorder
pub mod Zipped
pub mod CompareLaws
pub mod CompareAll
pub mod Diff
pub mod DiffLaws
pub mod Tests
pub mod DiffTests
