-- ===== src/Tests.antt =====
-- Concrete runs of the library, and each theorem at one of them.
pub mod Worlds
pub mod Users
pub mod Servers
pub mod Clients
pub mod Relays
pub mod Associations
pub mod Bounds
pub mod Names
pub mod Sessions
pub mod Logs
pub mod Tables
