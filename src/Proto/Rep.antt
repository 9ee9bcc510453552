-- ===== src/Proto/Rep.antt =====
-- enum _HevSocks5ResRep of src/hev-socks5-proto.h
use hev_socks5_core.Base.{ℕ}

abbrev pub succ : ℕ
succ = 0

abbrev pub fail : ℕ
fail = 1

abbrev pub host : ℕ
host = 4

abbrev pub impl : ℕ
impl = 7

abbrev pub addr : ℕ
addr = 8
