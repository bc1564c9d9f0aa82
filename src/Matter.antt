-- ===== src/Matter.antt =====
-- server/src/matter: what the controller agrees about with its devices.
pub mod Subscriptions
pub mod Mdns
pub mod Checkin
pub mod OtaProvider
pub mod Reports
