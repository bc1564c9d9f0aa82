-- ===== src/Storage.antt =====
-- server/src/storage: what the server keeps.
pub mod ThreadDataset
pub mod Nodes
pub mod Config
