-- ===== src/Restore.antt =====
-- custom_components/dashboard_history/restore.py: putting removed items back, parking what has no
-- proven place, and applying an undo plan. The records are those of analyze/model.py.
pub mod Types
pub mod Place
pub mod Anchor
pub mod Reinsert
pub mod Park
pub mod Undo
