-- ===== src/Proto/Cmd.antt =====
-- enum _HevSocks5ReqCmd of src/hev-socks5-proto.h
use hev_socks5_core.Base.{ℕ}

abbrev pub connect : ℕ
connect = 1

abbrev pub udp_asc : ℕ
udp_asc = 3

abbrev pub fwd_udp : ℕ
fwd_udp = 5
