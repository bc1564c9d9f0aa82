-- ===== src/Migrate.antt =====
-- server/src/migrate: reading a matterjs-server installation, and taking it over.
pub mod Value
pub mod Store
pub mod Directory
pub mod Namespaces
pub mod Import
pub mod Commissioned
pub mod Takeover
mod Tests
