-- ===== src/Client/Defs.antt =====
-- The client objects, and the functions that set them up and tear them down.
use hev_socks5_core.Base.{
  ℕ, ◌-◌, Bool, not, Option, none, some, Bytes, ℤ, pos, negsuc, minus_one, is_neg, take,
  if◌then◌else◌,
}
use hev_socks5_core.Host.{Host, M, pure, self, modify, ◌>>=◌, ◌>>◌, malloc, emit, freed}
use hev_socks5_core.Misc.Addr.{Addr, addr_len}
use hev_socks5_core.Socks5
use hev_socks5_core.Socks5.{Socks5, Kind, tcp}
use hev_socks5_core.Server.Defs.{drop_open}

-- The class of the object: HevSocks5ClientTCP with its `addr`, HevSocks5ClientUDP with its `fd`.
pub data Variant : Type 0 where
  tcp_client : Option Addr → Variant
  udp_client : ℤ → Variant

-- `auth.user` and `auth.pass` are C strings, or null.
pub record Client : Type 0 where
  pub base : Socks5
  pub open base use *
  pub auth_user : Option Bytes
  pub auth_pass : Option Bytes
  pub variant : Variant

-- hev_socks5_client_construct
unfoldable pub construct : ℤ → Kind → Client → ℤ × Client
unfolding Socks5.construct
construct base_res kind c =
    let (res, b) = Socks5.construct base_res kind c.base in (res, record c { base = b })

-- hev_socks5_client_udp_construct
unfoldable pub udp_construct : ℤ → Kind → Client → ℤ × Client
unfolding construct
udp_construct base_res kind c =
    let (res, c') = construct base_res kind c in
    if is_neg res then (res, c') else (pos 0, record c' { variant = udp_client minus_one })

-- the bytes of a block: a negative `int` is an immense `size_t`, which no allocator grants
unfoldable pub allocate : Host → ℤ → M Client Bool
allocate host (pos n) = malloc host n
allocate host (negsuc n) = malloc host (18446744073709551615 - n)

-- memcpy of that many bytes
unfoldable pub copied : ℤ → Bytes → Bytes
copied (pos n) bytes = take n bytes
copied (negsuc n) bytes = bytes

-- hev_socks5_client_tcp_construct
unfoldable pub tcp_construct : Host → ℤ → Addr → M Client ℤ
unfolding construct allocate copied addr_len
tcp_construct host base_res addr c =
    let (res, c') = construct base_res tcp c in
    (if is_neg res then pure res else do
      granted ← allocate host (addr_len addr)
      if not granted then pure minus_one else do
        modify
            (λ (k : Client). record k { variant = tcp_client (some (copied (addr_len addr) addr)) })
        pure (pos 0))
      c'

-- hev_socks5_client_set_auth
unfoldable pub set_auth : Option Bytes → Option Bytes → Client → Client
set_auth name pass c = record c { auth_user = name; auth_pass = pass }

-- hev_socks5_client_tcp_destruct and hev_socks5_client_udp_destruct, before the base class's
unfoldable pub destruct_variant : Variant → M Client (Unit {0})
unfolding drop_open
destruct_variant (tcp_client none) = pure tt
destruct_variant (tcp_client (some addr)) = emit freed
destruct_variant (udp_client fd) = drop_open fd

unfoldable pub destruct : M Client (Unit {0})
unfolding destruct_variant
destruct = do c ← self; destruct_variant c.variant; drop_open c.fd

unfoldable pub set_timeout : ℤ → M Client (Unit {0})
unfolding Socks5.set_timeout
set_timeout timeout = modify (λ (c : Client). record c { base = Socks5.set_timeout timeout c.base })

unfoldable pub set_addr_family : ℕ → M Client (Unit {0})
unfolding Socks5.set_addr_family
set_addr_family family =
    modify (λ (c : Client). record c { base = Socks5.set_addr_family family c.base })
