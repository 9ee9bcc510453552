-- ===== src/Proto/AddrType.antt =====
-- enum _HevSocks5AddrType of src/hev-socks5-proto.h
use hev_socks5_core.Base.{ℕ}

abbrev pub ipv4 : ℕ
ipv4 = 1

abbrev pub name : ℕ
name = 3

abbrev pub ipv6 : ℕ
ipv6 = 4
