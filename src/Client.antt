-- ===== src/Client.antt =====
-- src/hev-socks5-client.c with src/hev-socks5-client-tcp.c and src/hev-socks5-client-udp.c.
pub mod Defs
pub mod Upstream
pub mod Messages
pub mod Handshake
pub mod Descriptors
pub mod Steady
pub mod Lifetime
pub mod Request
pub mod Pipeline
pub mod Standard
pub mod Sent
pub mod New
pub mod Created
