-- ===== src/Server/Run/Balance.antt =====
-- The descriptors over the whole life of a server: hev_socks5_server_run and
-- hev_socks5_server_destruct.
use hev_socks5_core.Base.{ℕ, ◌+◌, ◌≡◌, ℤ, pos, minus_one, arith}
use hev_socks5_core.Host.{Host, Trace}
use hev_socks5_core.Sockets.{opens, closes}
use hev_socks5_core.Misc.Socket.{watch}
use hev_socks5_core.Socks5.{Socks5, Kind, no_type, tcp, udp_in_tcp, udp_in_udp}
use hev_socks5_core.Socks5
use hev_socks5_core.Tcp.{tcp_splicer}
use hev_socks5_core.Udp.Lifetime.{udp_splicer-descriptors}
use hev_socks5_core.Server.Defs.{Server, destruct, set_timeout}
use hev_socks5_core.Server.Handshake.{handshake}
use hev_socks5_core.Server.Descriptors.{is_fd, Balanced}
use hev_socks5_core.Server.Lifetime.{handshake-Balanced, destruct-counts, held-fresh}
use hev_socks5_core.Server.Run.{on_base, server_iface, serve_udp, serve_kind, service, run}

module _ (host : Host) (n : ℕ) (s : Server) (t : Trace) where
  watch-counts :
      (fd : ℤ)
      → let (_, s', t') = watch host fd s t in
        (s' ≡ s) × (opens (pos n) t' ≡ opens (pos n) t) × (closes (pos n) t' ≡ closes (pos n) t)
  unfolding watch opens closes
  watch-counts fd = ground arith

tcp_splicer-counts :
    (host : Host) (n : ℕ) (fd : ℤ) (o : Socks5) (t : Trace)
    → let (_, o', t') = tcp_splicer host fd o t in
      (o'.fd ≡ o.fd) × (opens (pos n) t' ≡ opens (pos n) t) × (closes (pos n) t' ≡ closes (pos n) t)
unfolding tcp_splicer watch opens closes
tcp_splicer-counts host n fd o t = ground arith

module _ (host : Host) (n fuel : ℕ) where
  serve_udp-Balanced :
      (s : Server) (t : Trace) → let (_, s', t') = serve_udp host fuel s t in Balanced n s t s' t'
  unfolding serve_udp on_base set_timeout Socks5.set_timeout
  serve_udp-Balanced s t =
      let s1 : Server = (set_timeout host.config.udp_timeout s t).1 in
      ground
        (arith, udp_splicer-descriptors host (server_iface s1.fds1) s1.fds0 (pos n) s1.base t fuel)

  serve_kind-Balanced :
      (kind : Kind) (s : Server) (t : Trace)
      → let (_, s', t') = serve_kind host fuel kind s t in Balanced n s t s' t'
  unfolding serve_kind on_base
  serve_kind-Balanced no_type s t = omega arith
  serve_kind-Balanced tcp s t = ground (arith, tcp_splicer-counts host n s.fds0 s.base t)
  serve_kind-Balanced udp_in_tcp s t = serve_udp-Balanced s t
  serve_kind-Balanced udp_in_udp s t = serve_udp-Balanced s t

  run-Balanced :
      (s : Server) (t : Trace)
      → s.fds0 ≡ minus_one
      → s.fds1 ≡ minus_one
      → let (_, s', t') = run host fuel s t in Balanced n s t s' t'
  unfolding run service
  run-Balanced s t h k =
      let (_, s1, t1) = watch host s.fd s t in
      let (same, a, b) = watch-counts host n s t s.fd in
      let (res, s2, t2) = handshake host s1 t1 in
      ground (arith, same, a, b, handshake-Balanced host n s1 t1, serve_kind-Balanced s2.kind s2 t2)

-- A server that holds no descriptor but its own is run, with a relay of any number of rounds,
-- whatever the outside answers and whatever the result, and is then destroyed. The number of times
-- that a descriptor is closed from the start of the run is the number of times that it is opened, and
-- one more for the descriptor of the client.
pub run-destruct :
    (host : Host) (n fuel : ℕ) (s : Server) (t : Trace)
    → s.fds0 ≡ minus_one
    → s.fds1 ≡ minus_one
    → let (_, s1, t1) = run host fuel s t in
      let (_, _, t2) = destruct s1 t1 in
      closes (pos n) t2 + opens (pos n) t ≡ closes (pos n) t + opens (pos n) t2 + is_fd n s.fd
run-destruct host n fuel s t h k =
    let (_, s1, t1) = run host fuel s t in
    ground (arith, run-Balanced host n fuel s t h k, destruct-counts n s1 t1, held-fresh n s h k)
