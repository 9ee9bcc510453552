-- ===== src/Session/Request.antt =====
-- A server that reads a request for a literal address, connects to it and replies.
use hev_socks5_core.Base.{
  ℕ, ◌≡◌, refl, ◌∙◌, ap, sym, some, Bytes, [], ◌∷◌, ◌++◌, ℤ, pos, length, drop, subst,
}
use hev_socks5_core.Host.{◌>>=◌, Host, Trace, received, got, sent, connected}
use hev_socks5_core.Wire.{outgoing, Streams}
use hev_socks5_core.Misc.RoundTrip.{cleared}
use hev_socks5_core.Socks5.{tcp}
use hev_socks5_core.Server.Defs.{Server, Holder, set_addr_family}
use hev_socks5_core.Server.Request.{finish_request, read_request, Request}
use hev_socks5_core.Server.Decode.{read_request-request}
use hev_socks5_core.Server.Outcome.{write_response-run}
use hev_socks5_core.Server.Handshake.{
  set_kind, server_connect, serve, dispatch, reply, answer_request,
}
use hev_socks5_core.Session.Stream.{Stands, sent-Stands}
use hev_socks5_core.Session.Accept.{Takes}
use hev_socks5_core.Session.Target.{
  Target, bytes_of, sockaddr_of, IsPlain, target-Shape, addr_into_sockaddr6-target,
}
use hev_socks5_core.Session.Serve.{Reaches, server_connect-Reaches}

module _ (host : Host) (inbox : Bytes) (s : Server) (streams : Streams host s.fd inbox) where
  -- the request of a client for a literal address
  read_request-target :
      (t : Trace) (x : Target) (rest out : Bytes)
      → IsPlain x
      → Stands s.fd inbox t (5 ∷ 1 ∷ 0 ∷ (bytes_of x ++ rest)) out
      → (found : ℕ) × (t' : Trace) × (read_request host 0 cleared s t ≡ (
        record { res = pos 0; cmd = some 1; rep = 0; addr = sockaddr_of x },
        record s { base = record s.base { addr_family = found } },
        t',
      ))
        × Stands s.fd inbox t' rest out
  unfolding finish_request set_addr_family outgoing
  read_request-target t x rest out plain (e, o) =
      let shape = target-Shape x plain in
      let ty = shape.ty in
      let len = shape.len in
      let more = shape.more in
      let e' = e ∙ ap (λ b. 5 ∷ 1 ∷ 0 ∷ (b ++ rest)) shape.form in
      let (run, left) =
        read_request-request host inbox s streams t 1 0 ty len more rest cleared e' shape.counted in
      let t1 : Trace =
        received s.fd (length more) (got more)
        ∷ received s.fd 5 (got (5 ∷ 1 ∷ 0 ∷ ty ∷ len ∷ []))
        ∷ t in
      let (found, into) = addr_into_sockaddr6-target host s t1 x s.addr_family in
      let reads =
        run
        ∙ ap (λ b. finish_request host 1 0 b cleared s t1) (sym shape.form)
        ∙ rw (into, finish_request) refl in
      (found, t1, reads, (left, o))

-- The reply names the address, and the connection was made just before.
abbrev pub Answered : ℤ → Target → Trace → Type 0
Answered fd x t =
    (to r r' : ℤ) × (t' : Trace) × (t
      ≡ sent fd (5 ∷ 0 ∷ 0 ∷ bytes_of x) r' ∷ connected to (sockaddr_of x) r ∷ t')

-- The object serves a TCP connection on the descriptor, and holds what it has accepted; what is
-- unread, what was sent, and the last that was done.
abbrev pub Served : Bytes → Bytes → Bytes → Target → ℤ → Holder → Server → Trace → Type 0
Served inbox unread out x fd obj s' t' =
    (s'.fd ≡ fd)
    × (s'.kind ≡ tcp)
    × (s'.obj ≡ obj)
    × Stands fd inbox t' unread out
    × Answered fd x t'

module _ (host : Host) (x : Target) (plain : IsPlain x) (s : Server) where
  reply-target :
      (t : Trace)
      → Takes host s.fd
      → let bytes = 5 ∷ 0 ∷ 0 ∷ bytes_of x in
        reply host 0 (sockaddr_of x) s t
        ≡ (pos 0, s, sent s.fd bytes (host.on_send t s.fd bytes) ∷ t)
  unfolding reply
  reply-target t takes =
      let shape = target-Shape x plain in
      let run = write_response-run host s t 0 (sockaddr_of x) in
      rw (run, reply, shape.back, takes t 5 (0 ∷ 0 ∷ bytes_of x))

  dispatch-target :
      (t : Trace)
      → (server_connect host (sockaddr_of x) s t).0 ≡ pos 0
      → let r : Request = record { res = pos 0; cmd = some 1; rep = 0; addr = sockaddr_of x } in
        let (res, s1, t1) = server_connect host (sockaddr_of x) s t in
        dispatch host r s t
        ≡ ((0, sockaddr_of x), record s1 { base = record s1.base { kind = tcp } }, t1)
  unfolding dispatch serve set_kind
  dispatch-target t ok = rw ok

module _ (host : Host) (inbox : Bytes) (x : Target) (plain : IsPlain x) (s : Server)
    (takes : Takes host s.fd) (reaches : Reaches host (sockaddr_of x)) where
  -- the command, and the reply
  serve-target :
      (t : Trace) (unread out : Bytes)
      → Stands s.fd inbox t unread out
      → let r : Request = record { res = pos 0; cmd = some 1; rep = 0; addr = sockaddr_of x } in
        (s' : Server) × (t' : Trace) × ((dispatch host r >>= λ p. reply host p.0 p.1) s t
          ≡ (pos 0, s', t'))
        × Served inbox unread (out ++ (5 ∷ 0 ∷ 0 ∷ bytes_of x)) x s.fd s.obj s' t'
  serve-target t unread out (e, o) =
      let (res, s1, t1) = server_connect host (sockaddr_of x) s t in
      let (ok, fd, obj, (read, wrote), to, r, t2, last) =
        server_connect-Reaches host s.fd s t (sockaddr_of x) reaches in
      let s2 : Server = record s1 { base = record s1.base { kind = tcp } } in
      let r' = host.on_send t1 s1.fd (5 ∷ 0 ∷ 0 ∷ bytes_of x) in
      let runs = dispatch-target host x plain s t ok in
      let replies = reply-target host x plain s2 t1 (subst (Takes host) (sym fd) takes) in
      let st : Stands s.fd inbox t1 unread out = (ap (λ n. drop n inbox) read ∙ e, wrote ∙ o) in
      let t' : Trace = sent s.fd (5 ∷ 0 ∷ 0 ∷ bytes_of x) r' ∷ t1 in
      (
        s2,
        t',
        rw runs (replies ∙ ap (λ n. (pos 0, s2, sent n (5 ∷ 0 ∷ 0 ∷ bytes_of x) r' ∷ t1)) fd),
        (
          fd,
          refl,
          obj,
          sent-Stands s.fd inbox t1 (5 ∷ 0 ∷ 0 ∷ bytes_of x) unread out r' st,
          (to, r, r', t2, rw last refl),
        ),
      )

module _ (host : Host) (inbox : Bytes) (x : Target) (plain : IsPlain x) (s : Server)
    (streams : Streams host s.fd inbox) (takes : Takes host s.fd)
    (reaches : Reaches host (sockaddr_of x)) where
  -- the whole of what follows the authentication
  pub answer_request-target :
      (t : Trace) (rest out : Bytes)
      → Stands s.fd inbox t (5 ∷ 1 ∷ 0 ∷ (bytes_of x ++ rest)) out
      → (s' : Server) × (t' : Trace) × (answer_request host s t ≡ (pos 0, s', t'))
        × Served inbox rest (out ++ (5 ∷ 0 ∷ 0 ∷ bytes_of x)) x s.fd s.obj s' t'
  unfolding answer_request
  answer_request-target t rest out st =
      let (found, t1, run, st1) = read_request-target host inbox s streams t x rest out plain st in
      let s1 : Server = record s { base = record s.base { addr_family = found } } in
      let (s', t', run', facts) =
        serve-target host inbox x plain s1 takes reaches t1 rest out st1 in
      (s', t', rw run run', facts)
