-- ===== src/Server/Request.antt =====
-- The request and the response in src/hev-socks5-server.c.
use hev_socks5_core.Base.{
  ℕ, ◌+◌, not, Option, none, some, Bytes, ◌∷◌, ◌++◌, ℤ, pos, minus_one, is_neg, to_byte, ◌==◌,
  get_or, drop, if◌then◌else◌,
}
use hev_socks5_core.Host.{Sockaddr, Host, M, pure, self, ◌>>=◌, ◌>>◌, exactly, recv}
use hev_socks5_core.Proto.{version_5}
use hev_socks5_core.Proto.Rep
use hev_socks5_core.Proto.AddrType
use hev_socks5_core.Misc.Addr.{addr_from_sockaddr6}
use hev_socks5_core.Misc.Resolve.{addr_into_sockaddr6}
use hev_socks5_core.Server.Defs.{Server, set_addr_family}
use hev_socks5_core.Server.Negotiate.{send_all}

-- What hev_socks5_server_read_request returns and writes through its pointers. `cmd` is not written
-- on a failure: `none` is the uninitialised variable of the caller.
pub record Request : Type 0 where
  pub res : ℤ
  pub cmd : Option ℕ
  pub rep : ℕ
  pub addr : Sockaddr

abbrev pub rejected : ℕ → Sockaddr → Request
rejected rep addr = record { res = pos 0; cmd = none; rep = rep; addr = addr }

-- the `switch` over `req.addr.atype`: the bytes that follow the first five
unfoldable pub rest_len : ℕ → ℕ → Option ℕ
rest_len atype len =
    if atype == AddrType.ipv4
    then some 5
    else if atype == AddrType.ipv6
    then some 17
    else if atype == AddrType.name
    then some (2 + len)
    else none

module _ (host : Host) where
  -- hev_socks5_server_read_request, from the translation of the address on
  unfoldable pub finish_request : ℕ → ℕ → Bytes → Sockaddr → M Server Request
  unfolding set_addr_family
  finish_request cmd rep addr_bytes sa = do
    s ← self
    (res, sa', family) ← addr_into_sockaddr6 host addr_bytes sa s.addr_family
    if is_neg res then pure (rejected Rep.addr sa') else do
      set_addr_family family
      pure (record { res = pos 0; cmd = some cmd; rep = rep; addr = sa' })

  -- hev_socks5_server_read_request, behind the first five bytes `h`
  unfoldable pub read_addr : Bytes → ℕ → Sockaddr → M Server Request
  unfolding rest_len
  read_addr h rep sa = elim (rest_len (get_or h 3 0) (get_or h 4 0)) [
    | none ↦ pure (rejected Rep.addr sa)
    | some n ↦ do
      s ← self
      rest ← recv host s.fd n
      elim (exactly n rest) [
        | none ↦ pure (rejected Rep.addr sa)
        | some r ↦ finish_request (get_or h 1 0) rep (drop 3 h ++ r) sa
      ]
  ]

  -- hev_socks5_server_read_request
  unfoldable pub read_request : ℕ → Sockaddr → M Server Request
  read_request rep sa = do
    s ← self
    head ← recv host s.fd 5
    elim (exactly 5 head) [
      | none ↦ pure (record { res = minus_one; cmd = none; rep = rep; addr = sa })
      | some h ↦
          if not (get_or h 0 0 == version_5)
          then pure (rejected Rep.fail sa)
          else read_addr h rep sa
    ]

  -- hev_socks5_server_write_response
  unfoldable pub write_response : ℕ → Sockaddr → M Server ℤ
  unfolding addr_from_sockaddr6 send_all
  write_response rep sa =
      send_all host (version_5 ∷ to_byte (pos rep) ∷ 0 ∷ (addr_from_sockaddr6 sa).1)
