-- ===== src/Session/Meet.antt =====
-- A client and a server on the two ends of one connection.
use hev_socks5_core.Base.{
  ◌≡◌, ◌∙◌, ap, sym, subst, true, some, [], ◌∷◌, ◌++◌, pos, drop, append_nil,
}
use hev_socks5_core.Host.{Host, Trace}
use hev_socks5_core.Wire.{consumed, outgoing, Streams}
use hev_socks5_core.Socks5.{tcp}
use hev_socks5_core.Client.Defs.{Client, tcp_client}
use hev_socks5_core.Client.Handshake.{handshake as client_handshake}
use hev_socks5_core.Server.Defs.{Server}
use hev_socks5_core.Server.Handshake.{handshake as server_handshake}
use hev_socks5_core.Session.Accept.{Takes}
use hev_socks5_core.Session.Target.{Target, bytes_of, sockaddr_of, IsPlain}
use hev_socks5_core.Session.Serve.{Reaches}
use hev_socks5_core.Session.Request.{Answered}
use hev_socks5_core.Session.Agreed.{Agrees, accepted, offer, handshake-agrees}
use hev_socks5_core.Session.Asked.{Fresh, messages, answers, handshake-messages, handshake-answered}

module _ (ch sh : Host) (c : Client) (s : Server) (x : Target) (tc ts : Trace) where
  -- A TCP client that holds an IPv4 address, or an IPv6 address that is no mapped IPv4 address
  -- (::ffff:a.b.c.d), each of its size and with a port, runs the pipelined handshake, and a server
  -- runs the handshake on the other end of the connection: each reads what the other sends, from
  -- the beginning, and what is sent is taken. They agree on the credentials (no authenticator and
  -- no name, or the name and the password of a user of the authenticator, of 1 to 255 characters
  -- each), and the connection of the server to the address succeeds. Then both handshakes return 0;
  -- the server relays a TCP connection and holds the user; it has connected to that address, and
  -- after that the last it has done is to send the address in its reply. Each side has read all
  -- that the other has sent.
  pub handshakes-meet :
      (a : Agrees c.auth_user c.auth_pass s.obj)
      → IsPlain x
      → c.kind ≡ tcp
      → c.variant ≡ tcp_client (some (bytes_of x))
      → Takes ch c.fd
      → Takes sh s.fd
      → Reaches sh (sockaddr_of x)
      → Fresh c.fd tc
      → Fresh s.fd ts
      → Streams ch c.fd (outgoing s.fd (server_handshake sh s ts).2)
      → Streams sh s.fd (outgoing c.fd (client_handshake ch true c tc).2)
      → let (rc, c', tc') = client_handshake ch true c tc in
        let (rs, s', ts') = server_handshake sh s ts in
        (rc ≡ pos 0)
        × (rs ≡ pos 0)
        × (s'.kind ≡ tcp)
        × (s'.obj ≡ accepted a)
        × Answered s.fd x ts'
        × (drop (consumed c.fd tc') (outgoing s.fd ts') ≡ [])
        × (drop (consumed s.fd ts') (outgoing c.fd tc') ≡ [])
  handshakes-meet a plain k v takes_c takes_s reaches (c0, co) (s0, so) streams_c streams_s =
      let sent_c = (client_handshake ch true c tc).2 in
      let inbox = outgoing c.fd sent_c in
      let all : inbox ≡ messages c x = handshake-messages ch c takes_c x plain k v tc co in
      let unread =
        ap (λ n. drop n inbox) s0
        ∙ all
        ∙ ap (λ b. offer c ++ (5 ∷ 1 ∷ 0 ∷ b)) (sym (append_nil (bytes_of x))) in
      let (s', ts', run, (_, kind, obj, (left_s, out_s), answered)) =
        handshake-agrees sh inbox c x plain reaches s streams_s takes_s ts [] [] a (unread, so) in
      let replies = outgoing s.fd (server_handshake sh s ts).2 in
      let told : replies ≡ answers a x = ap (λ r. outgoing s.fd r.2) run ∙ out_s in
      let fresh = ap (λ n. drop n replies) c0 ∙ told in
      let (c', tc', run', left_c) =
        handshake-answered ch c takes_c x plain k v tc replies streams_c a (fresh, co) in
      (
        ap (λ r. r.0) run',
        ap (λ r. r.0) run,
        ap (λ r. r.1.kind) run ∙ kind,
        ap (λ r. r.1.obj) run ∙ obj,
        subst (Answered s.fd x) (ap (λ r. r.2) (sym run)) answered,
        ap (λ r. drop (consumed c.fd r.2) replies) run' ∙ left_c,
        ap (λ r. drop (consumed s.fd r.2) inbox) run ∙ left_s,
      )
