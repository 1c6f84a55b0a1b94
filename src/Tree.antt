-- ===== src/Tree.antt =====
-- Partition trees (server/framework.py).
pub mod Defs
pub mod Walk
pub mod Shape
pub mod Growth
pub mod Paths
pub mod Subtree
pub mod Status
