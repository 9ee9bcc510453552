-- ===== src/Session/Serve.antt =====
-- A server that connects to where a client asks it to, and replies.
use hev_socks5_core.Base.{◌≡◌, false, ◌∷◌, ℤ, pos, is_neg, arith}
use hev_socks5_core.Host.{
  Host, Trace, Sockaddr, SocketOption, stream, v6only, opened, hooked, connected,
}
use hev_socks5_core.Wire.{consumed, outgoing}
use hev_socks5_core.Misc.Socket.{socks5_socket}
use hev_socks5_core.Server.Defs.{Server, set_timeout}
use hev_socks5_core.Server.Handshake.{set_fds0, give_up, server_connect}
use hev_socks5_core.Server.Descriptors.{socks5_socket_self}

-- Every socket is made and configured, and the connection to the address is made.
pub record Reaches (host : Host) (sa : Sockaddr) : Type 0 where
  pub opens : (t : Trace) → is_neg (host.on_socket t stream) ≡ false
  pub configures :
      (t : Trace) (fd : ℤ) (o : SocketOption) → is_neg (host.on_setsockopt t fd o) ≡ false
  pub binds : (t : Trace) (fd : ℤ) → is_neg (host.on_binder t fd sa) ≡ false
  pub connects : (t : Trace) (fd : ℤ) → is_neg (host.on_connect t fd sa) ≡ false

-- two traces say the same of the stream on a descriptor
abbrev pub SameStream : ℤ → Trace → Trace → Type 0
SameStream fd t t' = (consumed fd t' ≡ consumed fd t) × (outgoing fd t' ≡ outgoing fd t)

module _ (host : Host) (fd : ℤ) (s : Server) (t : Trace) where
  socks5_socket-SameStream : SameStream fd t (socks5_socket host stream s t).2
  unfolding socks5_socket consumed outgoing
  socks5_socket-SameStream = ground arith

  socks5_socket-opens :
      (sa : Sockaddr) → Reaches host sa → is_neg (socks5_socket host stream s t).0 ≡ false
  unfolding socks5_socket
  socks5_socket-opens sa h =
      let to = host.on_socket t stream in
      ground (arith, h.opens t, h.configures (opened stream to ∷ t) to v6only)

  pub server_connect-Reaches :
      (sa : Sockaddr)
      → Reaches host sa
      → let (res, s', t') = server_connect host sa s t in
        (res ≡ pos 0)
        × (s'.fd ≡ s.fd)
        × (s'.obj ≡ s.obj)
        × SameStream fd t t'
        × (to r : ℤ) × (t1 : Trace) × (t' ≡ connected to sa r ∷ t1)
  unfolding server_connect set_timeout set_fds0 give_up consumed outgoing
  server_connect-Reaches sa h =
      let (to, s1, t1) = socks5_socket host stream s t in
      let t2 : Trace = hooked to sa (host.on_binder t1 to sa) ∷ t1 in
      let good = socks5_socket-opens sa h in
      let kept = socks5_socket_self host 0 s t stream in
      let same = socks5_socket-SameStream in
      let bound = h.binds t1 to in
      let joined = h.connects t2 to in
      (
        ground (arith, good, bound, joined),
        ground (arith, good, bound, joined, kept),
        ground (arith, good, bound, joined, kept),
        (ground (arith, good, bound, joined, same), ground (arith, good, bound, joined, same)),
        to,
        host.on_connect t2 to sa,
        t2,
        ground (arith, good, bound, joined),
      )
