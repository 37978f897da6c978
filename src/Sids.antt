-- ===== src/Sids.antt =====
-- `maia/pytree/sids`: what the CGNS standard fixes.
pub mod Elements
pub mod ElementLaws
pub mod Arrays
pub mod ChildLaws
pub mod Element
pub mod Zone
pub mod ZoneElements
pub mod GridConnectivity
pub mod Subset
pub mod Tree
pub mod Building
pub mod Presets
pub mod ZonePresets
pub mod LiteralLaws
pub mod BcNodes
pub mod AttachLaws
pub mod TransformLaws
pub mod PresetLaws
pub mod ZoneLaws
pub mod Groups
pub mod GroupLaws
pub mod Holders
pub mod Components
pub mod Sample
pub mod InspectTests
pub mod Tests
