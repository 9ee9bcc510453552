-- ===== src/Client/New.antt =====
-- The constructors hev_socks5_client_tcp_new_name, _ipv4 and _ipv6 and hev_socks5_client_udp_new,
-- and hev_socks5_client_udp_get_fd.
use hev_socks5_core.Base.{
  ℕ, not, Option, none, some, ◌∷◌, Bytes, ℤ, pos, minus_one, is_neg, if◌then◌else◌,
}
use hev_socks5_core.Host.{Host, Trace, allocated, freed}
use hev_socks5_core.Misc.Addr.{Addr, addr_from_name, addr_from_ipv4, addr_from_ipv6}
use hev_socks5_core.Socks5.{Socks5, zero_base, Kind, no_type, tcp, udp_in_tcp, udp_in_udp}
use hev_socks5_core.Client.Defs.{Client, tcp_client, udp_client, tcp_construct, udp_construct}
use hev_socks5_core.Udp.Defs.{UdpIface}

-- the object in memory that is cleared
abbrev pub zero_tcp_client : Client
zero_tcp_client = record {
  base = zero_base;
  auth_user = none;
  auth_pass = none;
  variant = tcp_client none;
}

abbrev pub zero_udp_client : Client
zero_udp_client = record {
  base = zero_base;
  auth_user = none;
  auth_pass = none;
  variant = udp_client (pos 0);
}

-- `size` is the size of the object, and `base_res` the result of hev_object_construct
module _ (host : Host) (size : ℕ) (base_res : ℤ) where
  -- what the three constructors of a TCP client have in common
  unfoldable pub tcp_new : Addr → Trace → Option Client × Trace
  tcp_new addr t =
      let granted = host.on_malloc t size in
      let (res, c, t') =
        tcp_construct host base_res addr zero_tcp_client (allocated size granted ∷ t) in
      if not granted
      then (none, allocated size granted ∷ t)
      else if is_neg res
      then (none, freed ∷ t')
      else (some c, t')

  -- hev_socks5_client_tcp_new_name; `stack` is the memory of the local variable `addr`
  unfoldable pub tcp_new_name : Bytes → Bytes → ℕ → Trace → Option Client × Trace
  tcp_new_name stack name port = tcp_new (addr_from_name stack name port).1

  -- hev_socks5_client_tcp_new_ipv4
  unfoldable pub tcp_new_ipv4 : Bytes → ℕ → Trace → Option Client × Trace
  tcp_new_ipv4 ipv4 port = tcp_new (addr_from_ipv4 ipv4 port).1

  -- hev_socks5_client_tcp_new_ipv6
  unfoldable pub tcp_new_ipv6 : Bytes → ℕ → Trace → Option Client × Trace
  tcp_new_ipv6 ipv6 port = tcp_new (addr_from_ipv6 ipv6 port).1

  -- hev_socks5_client_udp_new
  unfoldable pub udp_new : Kind → Trace → Option Client × Trace
  udp_new kind t =
      let granted = host.on_malloc t size in
      let (res, c) = udp_construct base_res kind zero_udp_client in
      if not granted
      then (none, allocated size granted ∷ t)
      else if is_neg res
      then (none, freed ∷ allocated size granted ∷ t)
      else (some c, allocated size granted ∷ t)

-- hev_socks5_client_udp_get_fd, where the association's socket is `udp`
unfoldable pub client_fd : Kind → ℤ → ℤ → ℤ
client_fd no_type fd udp = minus_one
client_fd tcp fd udp = minus_one
client_fd udp_in_tcp fd udp = fd
client_fd udp_in_udp fd udp = udp

unfoldable pub client_iface : ℤ → UdpIface
client_iface udp = record { get_fd = λ (o : Socks5). client_fd o.kind o.fd udp }
