-- ===== src/Analyze.antt =====
-- The package analyze/: two states of one dashboard compared.
pub mod Views
pub mod Anchor
pub mod Positions
pub mod Sections
pub mod Settings
pub mod Settle
pub mod Slots
