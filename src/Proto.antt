-- ===== src/Proto.antt =====
-- The constants of src/hev-socks5-proto.h, one module for each enumeration.
pub mod Method
pub mod Cmd
pub mod Rep
pub mod AddrType
pub mod Family
use hev_socks5_core.Base.{ℕ}

abbrev pub version_5 : ℕ
version_5 = 5

abbrev pub auth_version_1 : ℕ
auth_version_1 = 1
