-- ===== src/Protocol.antt =====
-- server/src/protocol: the wire protocol.
pub mod Error
pub mod Json
pub mod Message
pub mod Paths
pub mod Events
pub mod Model
