-- ===== src/Session.antt =====
-- A client and a server that talk to each other: src/hev-socks5-client.c against
-- src/hev-socks5-server.c.
pub mod Stream
pub mod Accept
pub mod Target
pub mod Serve
pub mod Request
pub mod Agreed
pub mod Offer
pub mod Answers
pub mod Asked
pub mod Orders
pub mod Meet
