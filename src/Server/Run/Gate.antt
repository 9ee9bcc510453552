-- ===== src/Server/Run/Gate.antt =====
-- No relay without authentication.
use hev_socks5_core.Base.{◌≡◌, refl, ℕ, true, some, minus_one, is_neg, arith}
use hev_socks5_core.Host.{Host, Trace}
use hev_socks5_core.Sockets.{sockets}
use hev_socks5_core.Misc.Socket.{watch}
use hev_socks5_core.Server.Defs.{Server, set_timeout}
use hev_socks5_core.Server.Negotiate.{server_auth}
use hev_socks5_core.Server.Outcome.{handshake-gate}
use hev_socks5_core.Server.Run.{run}

watch_self : (host : Host) (s : Server) (t : Trace) → (watch host s.fd s t).1 ≡ s
unfolding watch
watch_self host s t = ground arith

-- If the authentication fails behind the registration of the client's descriptor,
-- hev_socks5_server_run returns -1. Apart from that registration it has opened, closed, connected,
-- bound and configured no descriptor, waited for none, probed none and relayed nothing, and it has
-- not changed `fds`.
pub run-gate :
    (host : Host) (fuel : ℕ) (s : Server) (t : Trace)
    → let (_, _, t0) = watch host s.fd s t in
      is_neg (server_auth host (set_timeout host.config.tcp_timeout s t0).1 t0).0 ≡ true
      → let (res, s', t') = run host fuel s t in
        (res ≡ some minus_one)
        × (sockets t' ≡ sockets (watch host s.fd s t).2)
        × (s'.fds0 ≡ s.fds0)
        × (s'.fds1 ≡ s.fds1)
unfolding run
run-gate host fuel s t e =
    let w = watch_self host s t in
    let (_, s0, t0) = watch host s.fd s t in
    let (res, trace, f0, f1) = handshake-gate host s t0 e in simp (w, res) (refl, trace, f0, f1)
