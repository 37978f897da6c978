-- ===== src/Utils.antt =====
-- The helpers on plain lists and numbers of `maia/utils` and `maia/pytree`.
pub mod Distribution
pub mod DistributionLaws
pub mod Lists
pub mod ListLaws
pub mod Sequences
pub mod SequenceLaws
pub mod SplitLaws
pub mod Tests
