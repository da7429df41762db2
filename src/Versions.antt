-- ===== src/Versions.antt =====
-- custom_components/dashboard_history/versions.py: version numbers and daily marks.
pub mod Digits
pub mod Number
pub mod Description
pub mod Days
