-- ===== src/Api.antt =====
-- server/src/api: what the commands do, with the state that they share.
pub mod Ota
pub mod Context
pub mod Icd
pub mod Shared
pub mod Network
