-- ===== src/Server/Descriptors.antt =====
-- The descriptors of a server: each one that is opened is held or closed.
use hev_socks5_core.Base.{ℕ, ◌+◌, ◌≡◌, ◌∷◌, ℤ, pos, minus_one, arith, if◌then◌else◌}
use hev_socks5_core.Host.{Host, Trace, SocketType, stream, dgram, reuseaddr, option_set, Sockaddr}
use hev_socks5_core.Wire.{eq_ℤ}
use hev_socks5_core.Sockets.{opens, closes}
use hev_socks5_core.Misc.Socket.{socks5_socket}
use hev_socks5_core.Server.Defs.{Server, set_timeout}
use hev_socks5_core.Server.Handshake.{
  set_fds0, set_fds1, set_kind, give_up, server_connect, udp_bind, bind_second, bind_addr,
  bind_null, serve,
}

-- 1 if `fd` is the descriptor n, which is not negative
abbrev pub is_fd : ℕ → ℤ → ℕ
is_fd n fd = if eq_ℤ (pos n) fd then 1 else 0

-- how often a server holds the descriptor n, as `fd` or in `fds`
abbrev pub held : ℕ → Server → ℕ
held n s = is_fd n s.fd + is_fd n s.fds0 + is_fd n s.fds1

-- from (s, t) to (s', t') what was opened is closed or held
abbrev pub Balanced : ℕ → Server → Trace → Server → Trace → Type 0
Balanced n s t s' t' =
    opens (pos n) t' + closes (pos n) t + held n s ≡ opens (pos n) t + closes (pos n) t' + held n s'

module _ (host : Host) (n : ℕ) (s : Server) (t : Trace) where
  pub socks5_socket-counts :
      (ty : SocketType)
      → let (fd, s', t') = socks5_socket host ty s t in
        opens (pos n) t' + closes (pos n) t ≡ opens (pos n) t + closes (pos n) t' + is_fd n fd
  unfolding socks5_socket opens closes
  socks5_socket-counts stream = ground arith
  socks5_socket-counts dgram = ground arith

  pub socks5_socket_self : (ty : SocketType) → (socks5_socket host ty s t).1 ≡ s
  unfolding socks5_socket
  socks5_socket_self stream = ground arith
  socks5_socket_self dgram = ground arith

  server_connect-Balanced :
      (addr : Sockaddr)
      → s.fds0 ≡ minus_one
      → let (_, s', t') = server_connect host addr s t in Balanced n s t s' t'
  unfolding server_connect set_timeout set_fds0 give_up opens closes
  server_connect-Balanced addr h =
      ground (arith, socks5_socket-counts stream, socks5_socket_self stream)

  pub udp_bind_self : (fd : ℤ) (sa : Sockaddr) → (udp_bind host fd sa s t).1 ≡ s
  unfolding udp_bind
  udp_bind_self fd sa = ground arith

  udp_bind-counts :
      (fd : ℤ) (sa : Sockaddr)
      → (opens (pos n) (udp_bind host fd sa s t).2 ≡ opens (pos n) t)
        × (closes (pos n) (udp_bind host fd sa s t).2 ≡ closes (pos n) t)
  unfolding udp_bind opens closes
  udp_bind-counts fd sa = ground arith

  bind_null-Balanced :
      s.fds0 ≡ minus_one → let (_, s', t') = bind_null host s t in Balanced n s t s' t'
  unfolding bind_null set_fds0 opens closes
  bind_null-Balanced h = ground (arith, socks5_socket-counts dgram, socks5_socket_self dgram)

module _ (host : Host) (n : ℕ) (s : Server) (t : Trace) where
  bind_second-Balanced :
      (addr : Sockaddr)
      → s.fds1 ≡ minus_one
      → let (_, s', t') = bind_second host addr s t in Balanced n s t s' t'
  unfolding bind_second set_fds1 give_up opens closes
  bind_second-Balanced addr h =
      let (fd, s1, t1) = socks5_socket host dgram s t in
      let t2 : Trace = option_set fd reuseaddr (host.on_setsockopt t1 fd reuseaddr) ∷ t1 in
      ground (
        arith,
        socks5_socket-counts host n s t dgram,
        socks5_socket_self host n s t dgram,
        udp_bind_self host n s1 t2 fd addr,
        udp_bind-counts host n s1 t2 fd addr,
      )

module _ (host : Host) (n : ℕ) (s : Server) (t : Trace) where
  bind_addr-Balanced :
      (addr : Sockaddr)
      → s.fds0 ≡ minus_one
      → s.fds1 ≡ minus_one
      → let (_, s', t') = bind_addr host addr s t in Balanced n s t s' t'
  unfolding bind_addr set_fds0 opens closes
  bind_addr-Balanced addr h k =
      let (fd, s1, t1) = socks5_socket host dgram s t in
      let s2 : Server = record s1 { fds0 = fd } in
      ground (
        arith,
        socks5_socket-counts host n s t dgram,
        socks5_socket_self host n s t dgram,
        bind_second-Balanced host n s2 t1 addr,
      )

  pub serve-Balanced :
      (cmd : ℕ) (addr : Sockaddr)
      → s.fds0 ≡ minus_one
      → s.fds1 ≡ minus_one
      → let (_, s', t') = serve host cmd addr s t in Balanced n s t s' t'
  unfolding serve set_kind
  serve-Balanced cmd addr h k = ground (
    arith,
    server_connect-Balanced host n s t addr,
    bind_addr-Balanced addr,
    bind_null-Balanced host n s t,
  )
