-- ===== src/Proto/Family.antt =====
-- enum _HevSocks5AddrFamily of src/hev-socks5.h; the values are those of Linux
use hev_socks5_core.Base.{ℕ}

abbrev pub unspec : ℕ
unspec = 0

abbrev pub ipv4 : ℕ
ipv4 = 2

abbrev pub ipv6 : ℕ
ipv6 = 10
