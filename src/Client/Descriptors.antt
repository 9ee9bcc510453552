-- ===== src/Client/Descriptors.antt =====
-- The descriptors of a client: each one that is opened is held or closed.
use hev_socks5_core.Base.{ℕ, ◌+◌, ◌≡◌, Bytes, ℤ, pos, minus_one, arith}
use hev_socks5_core.Host.{Host, Trace, Sockaddr, stream, dgram}
use hev_socks5_core.Sockets.{opens, closes}
use hev_socks5_core.Misc.Addr.{Addr}
use hev_socks5_core.Misc.Socket.{socks5_socket}
use hev_socks5_core.Misc.Resolve.{addr_into_sockaddr6, name_into_sockaddr6}
use hev_socks5_core.Server.Descriptors.{is_fd}
use hev_socks5_core.Client.Defs.{
  Client, Variant, tcp_client, udp_client, set_timeout, set_addr_family,
}
use hev_socks5_core.Client.Upstream.{give_up, associate, udp_connect}
use hev_socks5_core.Misc.Addr.{zero_sockaddr}
use hev_socks5_core.Client.Handshake.{set_fd, connect_to, client_connect}

-- the descriptor of the variant
abbrev pub variant_fd : Variant → ℤ
variant_fd (tcp_client a) = minus_one
variant_fd (udp_client fd) = fd

-- how often a client holds the descriptor n
abbrev pub client_held : ℕ → Client → ℕ
client_held n c = is_fd n c.fd + is_fd n (variant_fd c.variant)

-- from (c, t) to (c', t') what was opened is closed or held
abbrev pub ClientBalanced : ℕ → Client → Trace → Client → Trace → Type 0
ClientBalanced n c t c' t' =
    opens (pos n) t' + closes (pos n) t + client_held n c
    ≡ opens (pos n) t + closes (pos n) t' + client_held n c'

module _ (host : Host) (n : ℕ) (c : Client) (t : Trace) where
  client_socket-counts :
      let (fd, c', t') = socks5_socket host dgram c t in
      opens (pos n) t' + closes (pos n) t ≡ opens (pos n) t + closes (pos n) t' + is_fd n fd
  unfolding socks5_socket opens closes
  client_socket-counts = ground arith

  client_stream-counts :
      let (fd, c', t') = socks5_socket host stream c t in
      opens (pos n) t' + closes (pos n) t ≡ opens (pos n) t + closes (pos n) t' + is_fd n fd
  unfolding socks5_socket opens closes
  client_stream-counts = ground arith

  client_socket_self : (socks5_socket host dgram c t).1 ≡ c
  unfolding socks5_socket
  client_socket_self = ground arith

  pub client_stream_self : (socks5_socket host stream c t).1 ≡ c
  unfolding socks5_socket
  client_stream_self = ground arith

  pub resolver-counts :
      (name : Bytes) (port : ℕ) (sa : Sockaddr) (family : ℕ)
      → let (_, c', t') = name_into_sockaddr6 host name port sa family c t in
        (c' ≡ c) × (opens (pos n) t' ≡ opens (pos n) t) × (closes (pos n) t' ≡ closes (pos n) t)
  unfolding name_into_sockaddr6 opens closes
  resolver-counts name port sa family = ground arith

  addr-counts :
      (a : Addr) (sa : Sockaddr) (family : ℕ)
      → let (_, c', t') = addr_into_sockaddr6 host a sa family c t in
        (c' ≡ c) × (opens (pos n) t' ≡ opens (pos n) t) × (closes (pos n) t' ≡ closes (pos n) t)
  unfolding addr_into_sockaddr6 opens closes
  addr-counts a sa family = ground arith

module _ (host : Host) (n : ℕ) (c : Client) (t : Trace) where
  connect_to-Balanced :
      (sa : Sockaddr) (family : ℕ)
      → c.fd ≡ minus_one
      → let (_, c', t') = connect_to host sa family c t in ClientBalanced n c t c' t'
  unfolding connect_to set_fd set_addr_family give_up opens closes
  connect_to-Balanced sa family h =
      ground (arith, client_stream-counts host n c t, client_stream_self host n c t)

  pub udp_connect-Balanced :
      (addr : Addr)
      → variant_fd c.variant ≡ minus_one
      → let (_, c', t') = udp_connect host addr c t in ClientBalanced n c t c' t'
  unfolding udp_connect give_up associate opens closes
  udp_connect-Balanced addr h =
      let (_, c1, t1) = addr_into_sockaddr6 host addr zero_sockaddr c.addr_family c t in
      ground (
        arith,
        addr-counts host n c t addr zero_sockaddr c.addr_family,
        client_socket-counts host n c1 t1,
        client_socket_self host n c1 t1,
      )

module _ (host : Host) (n : ℕ) (c : Client) (t : Trace) where
  pub client_connect-Balanced :
      (addr : Bytes) (port : ℕ)
      → c.fd ≡ minus_one
      → let (_, c', t') = client_connect host addr port c t in ClientBalanced n c t c' t'
  unfolding client_connect set_timeout
  client_connect-Balanced addr port h =
      let (_, c0, _) = set_timeout host.config.connect_timeout c t in
      let answer = name_into_sockaddr6 host addr port zero_sockaddr c0.addr_family c0 t in
      let ((res, sa, family), c1, t1) = answer in
      ground (
        arith,
        resolver-counts host n c0 t addr port zero_sockaddr c0.addr_family,
        connect_to-Balanced host n c1 t1 sa family,
      )
