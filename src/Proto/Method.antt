-- ===== src/Proto/Method.antt =====
-- enum _HevSocks5AuthMethod of src/hev-socks5-proto.h
use hev_socks5_core.Base.{ℕ}

abbrev pub no_auth : ℕ
no_auth = 0

abbrev pub user : ℕ
user = 2

abbrev pub deny : ℕ
deny = 255
