-- ===== src/Pytree/Walk.antt =====
-- `maia/pytree/walk`: searches through a tree.
pub mod Options
pub mod NodesIterator
pub mod ShallowIterator
pub mod NodeParser
pub mod Places
pub mod OrderLaws
pub mod DfsLaws
pub mod BfsLaws
pub mod Walker
pub mod WalkerLaws
pub mod Chains
pub mod ChainLaws
pub mod LineageLaws
pub mod ShallowBfsLaws
pub mod FindBfsLaws
pub mod Queue
pub mod FindLaws
pub mod ShallowLaws
pub mod Finder
pub mod ChainWalker
pub mod Api
pub mod ApiLaws
pub mod Predicate
pub mod PredicateLaws
pub mod PredicateTests
pub mod ChainWalkerLaws
pub mod Tests
pub mod ApiTests
