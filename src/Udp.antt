-- ===== src/Udp.antt =====
-- src/hev-socks5-udp.c: datagrams over a SOCKS5 connection or association.
pub mod Defs
pub mod Send
pub mod Recv
pub mod RecvUdp
pub mod Forward
pub mod Splice
pub mod Waiting
pub mod Arrival
pub mod Framing
pub mod RoundTrip
pub mod Association
pub mod Kept
pub mod Directions
pub mod Lifetime
pub mod Ending
pub mod Bounds
pub mod Blocks
pub mod Truncated
pub mod Desync
pub mod Short
pub mod Delivery
pub mod Literal
pub mod Closed
pub mod Return
pub mod Final
