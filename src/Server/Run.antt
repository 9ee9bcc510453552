-- ===== src/Server/Run.antt =====
-- The life of a server's task: hev_socks5_server_new, hev_socks5_server_run with the service behind
-- the handshake, and the descriptor that the UDP relay uses.
pub mod Balance
pub mod Gate
pub mod Life
use hev_socks5_core.Base.{
  ℕ, Bool, not, Option, none, some, ◌∷◌, ℤ, pos, minus_one, is_neg, if◌then◌else◌,
}
use hev_socks5_core.Host.{Host, Trace, allocated, freed, M, pure, self, ◌>>=◌, ◌>>◌}
use hev_socks5_core.Misc.Socket.{watch, get_udp_timeout}
use hev_socks5_core.Socks5.{Socks5, zero_base, Kind, no_type, tcp, udp_in_tcp, udp_in_udp}
use hev_socks5_core.Server.Defs.{Server, nothing, construct, set_timeout}
use hev_socks5_core.Server.Handshake.{handshake}
use hev_socks5_core.Tcp.{tcp_splicer}
use hev_socks5_core.Udp.Defs.{UdpIface}
use hev_socks5_core.Udp.Splice.{udp_splicer}

-- the object in memory that is cleared
abbrev pub zero_server : Server
zero_server = record { base = zero_base; fds0 = pos 0; fds1 = pos 0; obj = nothing }

-- hev_socks5_server_new, where `size` is the size of the object and `base_res` the result of
-- hev_object_construct
unfoldable pub server_new : Host → ℕ → ℤ → ℤ → Trace → Option Server × Trace
server_new host size base_res fd t =
    let granted = host.on_malloc t size in
    let (res, s) = construct base_res fd zero_server in
    if not granted
    then (none, allocated size granted ∷ t)
    else if is_neg res
    then (none, freed ∷ allocated size granted ∷ t)
    else (some s, allocated size granted ∷ t)

-- a function of the base object, for the server
unfoldable pub on_base : {A : Type 0} → M Socks5 A → M Server A
on_base m s t = let (a, o, t') = m s.base t in (a, record s { base = o }, t')

-- hev_socks5_server_get_fd, where the second socket of the server is `fds1`
unfoldable pub fd_of_kind : Kind → ℤ → ℤ → ℤ
fd_of_kind no_type fd fds1 = minus_one
fd_of_kind tcp fd fds1 = minus_one
fd_of_kind udp_in_tcp fd fds1 = fd
fd_of_kind udp_in_udp fd fds1 = fds1

unfoldable pub server_iface : ℤ → UdpIface
server_iface fds1 = record { get_fd = λ (o : Socks5). fd_of_kind o.kind o.fd fds1 }

module _ (host : Host) (fuel : ℕ) where
  -- the UDP cases of hev_socks5_server_service
  unfoldable pub serve_udp : M Server (Option ℤ)
  serve_udp = do
    set_timeout (get_udp_timeout host.config)
    s ← self
    res ← on_base (udp_splicer host (server_iface s.fds1) s.fds0 fuel)
    pure (elim res [ none ↦ none | some r ↦ some (pos 0) ])

  -- The `switch` of hev_socks5_server_service. The result of a relay is dropped.
  unfoldable pub serve_kind : Kind → M Server (Option ℤ)
  serve_kind no_type = pure (some minus_one)
  serve_kind tcp = do s ← self; on_base (tcp_splicer host s.fds0); pure (some (pos 0))
  serve_kind udp_in_tcp = serve_udp
  serve_kind udp_in_udp = serve_udp

  -- hev_socks5_server_service; `none` if the relay has not ended after `fuel` rounds
  unfoldable pub service : M Server (Option ℤ)
  service = do s ← self; serve_kind s.kind

  -- hev_socks5_server_run
  unfoldable pub run : M Server (Option ℤ)
  run = do
    s ← self
    watch host s.fd
    res ← handshake host
    if is_neg res then pure (some minus_one) else service
