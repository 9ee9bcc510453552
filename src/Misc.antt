-- ===== src/Misc.antt =====
-- src/hev-socks5-misc.c
pub mod Bytes16
pub mod Addr
pub mod Resolve
pub mod Socket
pub mod RoundTrip
pub mod Answer
pub mod Yielder
pub mod Name
pub mod Text
