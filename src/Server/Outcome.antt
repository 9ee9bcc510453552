-- ===== src/Server/Outcome.antt =====
-- What a handshake that succeeds leaves: a server that can relay, and the reply that says so.
use hev_socks5_core.Base.{
  ℕ, ◌≡◌, ◌⊎◌, refl, true, false, [], ◌∷◌, Bytes, ℤ, pos, minus_one, is_neg, is_nonpos, arith,
  if◌then◌else◌, Option-cases, Bool-cases, inl, inr, replicate, to_byte, ==_iff, ◌==◌,
}
use hev_socks5_core.Host.{Host, Trace, Sockaddr, sent, dgram, reuseaddr, option_set}
use hev_socks5_core.Misc.Socket.{socks5_socket}
use hev_socks5_core.Server.Descriptors.{socks5_socket_self, udp_bind_self}
use hev_socks5_core.Proto.Rep
use hev_socks5_core.Misc.Addr.{addr_from_sockaddr6}
use hev_socks5_core.Socks5.{tcp, udp_in_tcp, udp_in_udp}
use hev_socks5_core.Sockets.{sockets}
use hev_socks5_core.Server.Defs.{Server, set_timeout}
use hev_socks5_core.Server.Negotiate.{server_auth}
use hev_socks5_core.Server.Request.{Request, read_request, write_response}
use hev_socks5_core.Server.Quiet.{send_all-run}
use hev_socks5_core.Server.Untouched.{server_auth-Untouched}
use hev_socks5_core.Server.Handshake.{
  set_fds0, set_fds1, set_kind, server_connect, bind_second, bind_addr, bind_null, give_up, serve,
  dispatch, reply, answer_request, handshake,
}

-- The server has what the kind of its service needs.
abbrev pub Serving : Server → Type 0
Serving s =
    (is_neg s.fds0 ≡ false)
    × ((s.base.kind ≡ tcp)
        ⊎ ((s.base.kind ≡ udp_in_tcp) ⊎ ((s.base.kind ≡ udp_in_udp) × (is_neg s.fds1 ≡ false))))

module _ (host : Host) (s : Server) (t : Trace) where
  server_connect-fds :
      (addr : Sockaddr)
      → is_neg (server_connect host addr s t).0 ≡ false
      → is_neg (server_connect host addr s t).1.fds0 ≡ false
  unfolding server_connect set_fds0 give_up
  server_connect-fds addr e = ground arith

  bind_null-fds : is_neg (bind_null host s t).0 ≡ false → is_neg (bind_null host s t).1.fds0 ≡ false
  unfolding bind_null set_fds0
  bind_null-fds e = ground arith

  bind_second-fds :
      (addr : Sockaddr)
      → is_neg (bind_second host addr s t).0.0 ≡ false
      → (is_neg (bind_second host addr s t).1.fds1 ≡ false)
  unfolding bind_second set_fds1 give_up
  bind_second-fds addr e = ground arith

  bind_second-fds0 : (addr : Sockaddr) → (bind_second host addr s t).1.fds0 ≡ s.fds0
  unfolding bind_second set_fds1 give_up
  bind_second-fds0 addr =
      let (fd, s1, t1) = socks5_socket host dgram s t in
      let t2 : Trace = option_set fd reuseaddr (host.on_setsockopt t1 fd reuseaddr) ∷ t1 in
      ground (arith, socks5_socket_self host 0 s t dgram, udp_bind_self host 0 s1 t2 fd addr)

module _ (host : Host) (s : Server) (t : Trace) where
  bind_addr-fds :
      (addr : Sockaddr)
      → is_neg (bind_addr host addr s t).0.0 ≡ false
      → (is_neg (bind_addr host addr s t).1.fds0 ≡ false)
        × (is_neg (bind_addr host addr s t).1.fds1 ≡ false)
  unfolding bind_addr set_fds0
  bind_addr-fds addr e =
      let (fd, s1, t1) = socks5_socket host dgram s t in
      let s2 : Server = record s1 { fds0 = fd } in
      ground (arith, bind_second-fds host s2 t1 addr, bind_second-fds0 host s2 t1 addr)

  serve-Serving :
      (cmd : ℕ) (addr : Sockaddr)
      → (serve host cmd addr s t).0.0 ≡ Rep.succ
      → Serving (serve host cmd addr s t).1
  unfolding serve set_kind
  serve-Serving cmd addr e = elim (Bool-cases (cmd == 1)) [
    | inl c ↦ elim (Bool-cases (is_neg (server_connect host addr s t).0)) [
      | inl bad ↦ absurd (cc (rw (c, serve, bad) at e))
      | inr ok ↦ rw (c, serve) (server_connect-fds host s t addr ok, inl refl)
    ]
    | inr c ↦ elim (Bool-cases (cmd == 3)) [
      | inl d ↦ elim (Bool-cases (is_neg (bind_addr host addr s t).0.0)) [
        | inl bad ↦ absurd (cc (rw (c, d, serve, bad) at e))
        | inr ok ↦ let (f, g) = bind_addr-fds addr ok in rw (c, d, serve) (f, inr (inr (refl, g)))
      ]
      | inr d ↦ elim (Bool-cases (cmd == 5)) [
        | inl f ↦ elim (Bool-cases (is_neg (bind_null host s t).0)) [
          | inl bad ↦ absurd (cc (rw (c, d, f, serve, bad) at e))
          | inr ok ↦ rw (c, d, f, serve) (bind_null-fds host s t ok, inr (inl refl))
        ]
        | inr f ↦ absurd (cc (rw (c, d, f, serve) at e))
      ]
    ]
  ]

-- The last that the server has done is to send the reply `succeeded`, which was taken.
abbrev pub Replied : Server → Trace → Type 0
Replied s t =
    (a : Bytes) × (r : ℤ) × (t' : Trace) × (t ≡ sent s.fd (5 ∷ Rep.succ ∷ 0 ∷ a) r ∷ t')
    × (is_nonpos r ≡ false)

module _ (host : Host) (s : Server) (t : Trace) where
  dispatch-Serving :
      (r : Request) → (dispatch host r s t).0.0 ≡ Rep.succ → Serving (dispatch host r s t).1
  unfolding dispatch
  dispatch-Serving r e = elim (Bool-cases (r.rep == Rep.succ)) [
    | inl ok ↦ elim (Option-cases r.cmd) [
      | inl n ↦ absurd (cc (rw (ok, n, dispatch) at e))
      | inr (cmd, c) ↦
          rw (ok, c, dispatch) (serve-Serving host s t cmd r.addr (rw (ok, c, dispatch) at e))
    ]
    | inr bad ↦ absurd (ground arith)
  ]

  -- the reply is sent and the state stays
  pub write_response-run :
      (rep : ℕ) (sa : Sockaddr)
      → let bytes : Bytes = 5 ∷ to_byte (pos rep) ∷ 0 ∷ (addr_from_sockaddr6 sa).1 in
        let r = host.on_send t s.fd bytes in
        write_response host rep sa s t
        ≡ (if is_nonpos r then minus_one else pos 0, s, sent s.fd bytes r ∷ t)
  unfolding write_response
  write_response-run rep sa =
      send_all-run host s t (5 ∷ to_byte (pos rep) ∷ 0 ∷ (addr_from_sockaddr6 sa).1)

  write_response-Replied :
      (sa : Sockaddr)
      → is_neg (write_response host Rep.succ sa s t).0 ≡ false
      → ((write_response host Rep.succ sa s t).1 ≡ s)
        × Replied s (write_response host Rep.succ sa s t).2
  write_response-Replied sa e =
      let a = (addr_from_sockaddr6 sa).1 in
      elim (Bool-cases (is_nonpos (host.on_send t s.fd (5 ∷ 0 ∷ 0 ∷ a)))) [
        | inl bad ↦ absurd (cc (rw (write_response-run 0 sa, bad) at e))
        | inr good ↦
            rw (write_response-run 0 sa)
              (refl, (a, host.on_send t s.fd (5 ∷ 0 ∷ 0 ∷ a), t, refl, good))
      ]

  reply-succ :
      (sa : Sockaddr)
      → is_neg (reply host Rep.succ sa s t).0 ≡ false
      → ((reply host Rep.succ sa s t).1 ≡ s) × Replied s (reply host Rep.succ sa s t).2
  unfolding reply
  reply-succ sa e = elim (Bool-cases (is_neg (write_response host Rep.succ sa s t).0)) [
    | inl bad ↦ absurd (ground arith)
    | inr good ↦ rw (reply, good) (write_response-Replied sa good)
  ]

  reply-ok :
      (rep : ℕ) (sa : Sockaddr)
      → is_neg (reply host rep sa s t).0 ≡ false
      → (rep ≡ Rep.succ) × ((reply host rep sa s t).1 ≡ s) × Replied s (reply host rep sa s t).2
  unfolding reply
  reply-ok rep sa e = elim (Bool-cases (rep == Rep.succ)) [
    | inl k ↦
        let zero : rep ≡ 0 = (==_iff rep 0).0 k in
        let (kept, replied) = reply-succ sa (rw zero at e) in rw zero (refl, kept, replied)
    | inr k ↦ absurd (ground arith)
  ]

module _ (host : Host) (s : Server) (t : Trace) where
  answer_request-ok :
      is_neg (answer_request host s t).0 ≡ false
      → Serving (answer_request host s t).1
        × Replied (answer_request host s t).1 (answer_request host s t).2
  unfolding answer_request
  answer_request-ok e =
      let sa : Sockaddr = record { family = 0; port = 0 ∷ 0 ∷ []; addr = replicate 16 0 } in
      let (r, s1, t1) = read_request host 0 sa s t in
      let ((rep, addr), s2, t2) = dispatch host r s1 t1 in
      elim (Bool-cases (is_neg r.res)) [
        | inl bad ↦ absurd (ground arith)
        | inr good ↦
            let (zero, kept, replied) =
              reply-ok host s2 t2 rep addr (rw (good, answer_request) at e) in
            let serving = dispatch-Serving host s1 t1 r zero in
            rw (good, answer_request, kept) (serving, replied)
      ]

module _ (host : Host) (s : Server) (t : Trace) where
  -- If hev_socks5_server_handshake returns 0, the kind of service is set, the server holds the
  -- descriptors that this kind relays with (both of `fds` for a UDP association, `fds[0]` otherwise,
  -- none of them negative), and the last event is that a reply that starts with 5, 0, 0 was sent to
  -- the client with a positive result.
  pub handshake-success :
      is_neg (handshake host s t).0 ≡ false
      → Serving (handshake host s t).1 × Replied (handshake host s t).1 (handshake host s t).2
  unfolding handshake
  handshake-success e =
      let (_, s0, t0) = set_timeout host.config.tcp_timeout s t in
      let (res, s1, t1) = server_auth host s0 t0 in
      elim (Bool-cases (is_neg res)) [
        | inl bad ↦ absurd (ground arith)
        | inr good ↦ rw (handshake, good) (answer_request-ok host s1 t1 (rw (good, handshake) at e))
      ]

  -- If the authentication in hev_socks5_server_handshake fails, the handshake fails, and it has
  -- opened, closed, connected, bound and configured no descriptor and has not changed `fds`.
  pub handshake-gate :
      let s0 = (set_timeout host.config.tcp_timeout s t).1 in
      is_neg (server_auth host s0 t).0 ≡ true
      → ((handshake host s t).0 ≡ minus_one)
        × (sockets (handshake host s t).2 ≡ sockets t)
        × ((handshake host s t).1.fds0 ≡ s.fds0)
        × ((handshake host s t).1.fds1 ≡ s.fds1)
  unfolding handshake set_timeout
  handshake-gate e =
      let s0 : Server = (set_timeout host.config.tcp_timeout s t).1 in
      let (_, f, g, h) = server_auth-Untouched host s0 t in rw (handshake, e) (refl, h, f, g)
