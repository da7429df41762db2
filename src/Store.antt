-- ===== src/Store.antt =====
-- store.py: the versions and the recorded states, over the git library (Git).
pub mod Types
pub mod Resolve
pub mod Tags
pub mod Versions
pub mod Paths
pub mod Dict
pub mod Touched
pub mod Index
pub mod Race
pub mod Changes
pub mod Reads
