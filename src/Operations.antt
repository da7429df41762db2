-- ===== src/Operations.antt =====
-- operations.py: the operations on versions, as the panel and the services call them.
pub mod Create
pub mod Change
