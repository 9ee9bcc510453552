-- ===== src/Session/Orders.antt =====
-- The two orders of the handshake of a client that is answered.
use hev_socks5_core.Base.{
  ◌≡◌, refl, ◌∙◌, ap, sym, subst, true, false, Bytes, [], ◌∷◌, ◌++◌, some, pos, drop, append_nil,
}
use hev_socks5_core.Host.{Host, Trace}
use hev_socks5_core.Wire.{consumed, outgoing, Streams}
use hev_socks5_core.Socks5.{tcp}
use hev_socks5_core.Client.Defs.{Client, tcp_client, set_timeout}
use hev_socks5_core.Client.Request.{spent}
use hev_socks5_core.Client.Messages.{write_auth_methods, write_auth_creds}
use hev_socks5_core.Client.Pipeline.{greeting, creds_of}
use hev_socks5_core.Client.Handshake.{
  standard_auth, standard_request, standard_answered, handshake_standard, settle, handshake,
}
use hev_socks5_core.Server.Defs.{Holder}
use hev_socks5_core.Session.Stream.{Stands}
use hev_socks5_core.Session.Accept.{Takes}
use hev_socks5_core.Session.Target.{Target, bytes_of, IsPlain, target-Shape}
use hev_socks5_core.Session.Agreed.{Agrees, without, by_password, offer}
use hev_socks5_core.Session.Offer.{send_all-Stands, send_creds-Stands, write_request-Stands}
use hev_socks5_core.Session.Answers.{
  read_auth_method-Stands, read_auth_creds-Stands, read_response-Stands,
}
use hev_socks5_core.Session.Asked.{
  messages, answers, handshake_runs, handshake_pipeline-answered, set_timeout_fd, set_timeout_kind,
}

module _ (host : Host) (inbox : Bytes) (c : Client) (takes : Takes host c.fd)
    (streams : Streams host c.fd inbox) (x : Target) (plain : IsPlain x) (k : c.kind ≡ tcp)
    (v : c.variant ≡ tcp_client (some (bytes_of x))) where
  standard_request-answered :
      (t : Trace) (out : Bytes)
      → Stands c.fd inbox t (5 ∷ 0 ∷ 0 ∷ bytes_of x) out
      → (t' : Trace) × (standard_request host c t ≡ (pos 0, spent c, t'))
        × Stands c.fd inbox t' [] (out ++ (5 ∷ 1 ∷ 0 ∷ bytes_of x))
  unfolding standard_request
  standard_request-answered t out h =
      let shape = target-Shape x plain in
      let reply : Bytes = 5 ∷ 0 ∷ 0 ∷ bytes_of x in
      let (t1, run1, (r1, o1)) =
        write_request-Stands host inbox c takes (bytes_of x) t reply out k v shape.written h in
      let body = shape.len ∷ shape.more in
      let same = ap (λ b. 5 ∷ 0 ∷ 0 ∷ b) (shape.form ∙ sym (append_nil (shape.ty ∷ body))) in
      let (t2, run2, h2) =
        read_response-Stands host inbox (spent c) streams t1 shape.ty body []
          (out ++ (5 ∷ 1 ∷ 0 ∷ bytes_of x)) refl shape.answered (r1 ∙ same, o1) in
      (t2, rw (run1, standard_request, run2), h2)

  handshake_standard-answered :
      (t : Trace) {obj : Holder} (a : Agrees c.auth_user c.auth_pass obj)
      → Stands c.fd inbox t (answers a x) []
      → (t' : Trace) × (handshake_standard host c t ≡ (pos 0, spent c, t'))
        × Stands c.fd inbox t' [] (messages c x)
  unfolding handshake_standard standard_answered standard_auth write_auth_methods write_auth_creds
  handshake_standard-answered t (without h e) stands =
      let reply : Bytes = 5 ∷ 0 ∷ 0 ∷ bytes_of x in
      let (t1, run1, h1) =
        send_all-Stands host inbox c takes t 5 (drop 1 (greeting c)) (5 ∷ 0 ∷ reply) [] stands in
      let (t2, run2, h2) =
        read_auth_method-Stands host inbox c streams t1 0 reply (greeting c) h1 in
      let (t3, run3, (r3, o3)) = standard_request-answered t2 (greeting c) h2 in
      let none_sent : offer c ≡ greeting c =
        ap (λ n. greeting c ++ creds_of n c.auth_pass) e ∙ append_nil (greeting c) in
      (
        t3,
        rw (run1, handshake_standard, run2, run3),
        (r3, o3 ∙ ap (λ b. b ++ (5 ∷ 1 ∷ 0 ∷ bytes_of x)) (sym none_sent)),
      )
  handshake_standard-answered t (by_password _ _ _ _ _ _ _ _ _) stands =
      let reply : Bytes = 5 ∷ 0 ∷ 0 ∷ bytes_of x in
      let (t1, run1, h1) =
        send_all-Stands host inbox c takes t 5 (drop 1 (greeting c)) (5 ∷ 2 ∷ 1 ∷ 0 ∷ reply) []
          stands in
      let (t2, run2, h2) =
        read_auth_method-Stands host inbox c streams t1 2 (1 ∷ 0 ∷ reply) (greeting c) h1 in
      let (t3, run3, h3) =
        send_creds-Stands host inbox c takes c.auth_user c.auth_pass t2 (1 ∷ 0 ∷ reply) (greeting c)
          h2 in
      let (t4, run4, h4) = read_auth_creds-Stands host inbox c streams t3 reply (offer c) h3 in
      let (t5, run5, h5) = standard_request-answered t4 (offer c) h4 in
      (t5, rw (run1, handshake_standard, run2, run3, run4, run5), h5)

standard_runs :
    (host : Host) (c : Client) (t : Trace) {t' : Trace}
    → c.kind ≡ tcp
    → let timed = (set_timeout host.config.tcp_timeout c t).1 in
      handshake_standard host timed t ≡ (pos 0, spent timed, t')
      → handshake host false c t ≡ (pos 0, spent timed, t')
unfolding handshake set_timeout settle
standard_runs host c t k run =
    let kind = set_timeout_kind host.config.tcp_timeout c t ∙ k in rw (run, kind)

module _ (host : Host) (inbox : Bytes) (c : Client) (x : Target) (t : Trace) where
  -- A TCP client holds an IPv4 address, or an IPv6 address that is no mapped IPv4 address
  -- (::ffff:a.b.c.d), each of its size and with a port; what it sends is taken, nothing was sent
  -- before, and what is unread is exactly what a server answers that it agrees with on the
  -- credentials (no authenticator and no name, or the name and the password of a user of the
  -- authenticator, of 1 to 255 characters each). Then both orders of the handshake return 0, leave
  -- the client alike, send the same bytes (the method, the credentials where there are any, and the
  -- request), and read all of the answers.
  pub handshake-orders :
      {obj : Holder} (a : Agrees c.auth_user c.auth_pass obj)
      → IsPlain x
      → c.kind ≡ tcp
      → c.variant ≡ tcp_client (some (bytes_of x))
      → Takes host c.fd
      → Streams host c.fd inbox
      → outgoing c.fd t ≡ []
      → drop (consumed c.fd t) inbox ≡ answers a x
      → let (r1, c1, t1) = handshake host true c t in
        let (r2, c2, t2) = handshake host false c t in
        (r1 ≡ pos 0)
        × (r2 ≡ pos 0)
        × (c1 ≡ c2)
        × (outgoing c.fd t1 ≡ messages c x)
        × (outgoing c.fd t2 ≡ messages c x)
        × (drop (consumed c.fd t1) inbox ≡ [])
        × (drop (consumed c.fd t2) inbox ≡ [])
  unfolding set_timeout
  handshake-orders a plain k v takes streams o r =
      let timed = (set_timeout host.config.tcp_timeout c t).1 in
      let same : timed.fd ≡ c.fd = set_timeout_fd host.config.tcp_timeout c t in
      let kind = set_timeout_kind host.config.tcp_timeout c t ∙ k in
      let takes' = subst (Takes host) (sym same) takes in
      let streams' = subst (λ fd. Streams host fd inbox) (sym same) streams in
      let start = subst (λ fd. Stands fd inbox t (answers a x) []) (sym same) (r, o) in
      let (t1, run1, h1) =
        handshake_pipeline-answered host timed takes' x plain kind v inbox streams' t a start in
      let (t2, run2, h2) =
        handshake_standard-answered host inbox timed takes' streams' x plain kind v t a start in
      let (left1, out1) = subst (λ fd. Stands fd inbox t1 [] (messages c x)) same h1 in
      let (left2, out2) = subst (λ fd. Stands fd inbox t2 [] (messages c x)) same h2 in
      let pipelined = handshake_runs host c takes x plain k v t run1 in
      rw (pipelined, standard_runs host c t k run2) (refl, refl, refl, out1, out2, left1, left2)
