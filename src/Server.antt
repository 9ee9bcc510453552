-- ===== src/Server.antt =====
-- src/hev-socks5-server.c: one task that serves one client.
pub mod Defs
pub mod Negotiate
pub mod Request
pub mod Decode
pub mod DecodeCreds
pub mod Quiet
pub mod Gate
pub mod Transcript
pub mod Descriptors
pub mod Untouched
pub mod Outcome
pub mod Lifetime
pub mod Handshake
pub mod Run
