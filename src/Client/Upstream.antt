-- ===== src/Client/Upstream.antt =====
-- The address that a client asks for and the one that it is given: the class's functions
-- get_upstream_addr and set_upstream_addr.
use hev_socks5_core.Base.{
  suc, ℕ, true, Option, none, some, ◌∷◌, ℤ, pos, minus_one, is_neg, ◌==◌, replicate, if◌then◌else◌,
}
use hev_socks5_core.Host.{Host, dgram, M, pure, self, modify, ◌>>=◌, ◌>>◌, binder, connect, malloc}
use hev_socks5_core.Proto.AddrType
use hev_socks5_core.Proto.Family
use hev_socks5_core.Misc.Addr.{Addr, zero_sockaddr}
use hev_socks5_core.Misc.Resolve.{addr_into_sockaddr6}
use hev_socks5_core.Misc.Socket.{socks5_socket}
use hev_socks5_core.Socks5.{Kind, no_type, tcp, udp_in_tcp, udp_in_udp}
use hev_socks5_core.Server.Defs.{drop_fd}
use hev_socks5_core.Client.Defs.{Client, Variant, tcp_client, udp_client}

unfoldable pub set_variant : Variant → M Client (Unit {0})
set_variant v = modify (λ (c : Client). record c { variant = v })

-- `addr = hev_malloc0 (size); if (addr) addr->atype = atype;`
unfoldable pub zero_addr : Host → ℕ → ℕ → M Client (Option Addr)
zero_addr host atype rest = do
  granted ← malloc host (suc rest)
  pure (if granted then some (atype ∷ replicate rest 0) else none)

module _ (host : Host) where
  -- hev_socks5_client_tcp_get_upstream_addr hands the address over;
  -- hev_socks5_client_udp_get_upstream_addr makes one of zeros.
  unfoldable pub upstream_of : Variant → ℕ → M Client (Option Addr)
  unfolding set_variant zero_addr
  upstream_of (tcp_client addr) family = do set_variant (tcp_client none); pure addr
  upstream_of (udp_client fd) family =
      if family == Family.ipv4
      then zero_addr host AddrType.ipv4 6
      else if family == Family.ipv6
      then zero_addr host AddrType.ipv6 18
      else pure none

  unfoldable pub get_upstream_addr : M Client (Option Addr)
  unfolding upstream_of
  get_upstream_addr = do c ← self; upstream_of c.variant c.addr_family

  -- `hev_task_del_fd (…); close (fd); return -1;`
  unfoldable pub give_up : ℤ → M Client ℤ
  unfolding drop_fd
  give_up fd = do drop_fd fd; pure minus_one

  -- the end of hev_socks5_client_udp_set_upstream_addr
  unfoldable pub associate : ℤ → M Client (Unit {0})
  associate fd = modify (λ (c : Client). record c {
    base = record c.base { udp_associated = true };
    variant = udp_client fd;
  })

  -- hev_socks5_client_udp_set_upstream_addr, behind its first test
  unfoldable pub udp_connect : Addr → M Client ℤ
  unfolding give_up associate
  udp_connect addr = do
    c ← self
    (res, sa, family) ← addr_into_sockaddr6 host addr zero_sockaddr c.addr_family
    if is_neg res then pure minus_one else do
      fd ← socks5_socket host dgram
      if is_neg fd then pure minus_one else do
        hooked ← binder host fd sa
        if is_neg hooked then give_up fd else do
          connected ← connect host fd sa
          if is_neg connected then give_up fd else do associate fd; pure (pos 0)

  -- hev_socks5_client_udp_set_upstream_addr, over the type of the object
  unfoldable pub udp_set_upstream : Kind → Addr → M Client ℤ
  unfolding udp_connect
  udp_set_upstream no_type addr = pure (pos 0)
  udp_set_upstream tcp addr = pure (pos 0)
  udp_set_upstream udp_in_tcp addr = pure (pos 0)
  udp_set_upstream udp_in_udp addr = udp_connect addr

  -- hev_socks5_client_tcp_set_upstream_addr does nothing
  unfoldable pub set_upstream_of : Variant → Kind → Addr → M Client ℤ
  unfolding udp_set_upstream
  set_upstream_of (tcp_client a) kind addr = pure (pos 0)
  set_upstream_of (udp_client fd) kind addr = udp_set_upstream kind addr

  unfoldable pub set_upstream_addr : Addr → M Client ℤ
  unfolding set_upstream_of
  set_upstream_addr addr = do c ← self; set_upstream_of c.variant c.kind addr
