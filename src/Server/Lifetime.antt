-- ===== src/Server/Lifetime.antt =====
-- The descriptors over the lifetime of a server: hev_socks5_server_handshake, and at the end
-- hev_socks5_server_destruct.
use hev_socks5_core.Base.{
  ℕ, ◌+◌, ◌≡◌, refl, ◌∙◌, ap, [], ◌∷◌, Bytes, ℤ, pos, negsuc, minus_one, arith, Option-cases,
  Bool-cases, inl, inr, get_or, drop, replicate, sym, ◌++◌, ◌==◌, to_byte,
}
use hev_socks5_core.Host.{Host, Trace, Sockaddr, received, exactly}
use hev_socks5_core.Sockets.{sockets, opens, closes, opens-sockets, closes-sockets}
use hev_socks5_core.Misc.Resolve.{addr_into_sockaddr6}
use hev_socks5_core.Misc.Addr.{Addr, addr_from_sockaddr6}
use hev_socks5_core.Server.Quiet.{send_all-run}
use hev_socks5_core.Server.Defs.{
  Server, Holder, nothing, auth, user, release, drop_open, destruct, set_timeout,
}
use hev_socks5_core.Server.Negotiate.{server_auth}
use hev_socks5_core.Server.Request.{
  Request, read_request, read_addr, finish_request, write_response, rest_len,
}
use hev_socks5_core.Server.Handshake.{dispatch, reply, answer_request, handshake}
use hev_socks5_core.Server.Untouched.{Untouched, server_auth-Untouched}
use hev_socks5_core.Server.Descriptors.{is_fd, held, Balanced, serve-Balanced}

module _ (host : Host) (s : Server) (t : Trace) where
  sockets-addr_into_sockaddr6 :
      (a : Addr) (sa : Sockaddr) (family : ℕ)
      → (sockets (addr_into_sockaddr6 host a sa family s t).2 ≡ sockets t)
        × ((addr_into_sockaddr6 host a sa family s t).1 ≡ s)
  unfolding addr_into_sockaddr6 sockets
  sockets-addr_into_sockaddr6 a sa family = ground arith

module _ (host : Host) (s : Server) (t : Trace) where
  finish_request-Untouched :
      (cmd rep : ℕ) (a : Bytes) (sa : Sockaddr)
      → let (_, s', t') = finish_request host cmd rep a sa s t in Untouched s t s' t'
  unfolding finish_request
  finish_request-Untouched cmd rep a sa =
      ground (arith, sockets-addr_into_sockaddr6 host s t a sa s.addr_family)

module _ (host : Host) (s : Server) (t : Trace) where
  read_addr-Untouched :
      (h : Bytes) (rep : ℕ) (sa : Sockaddr)
      → let (_, s', t') = read_addr host h rep sa s t in Untouched s t s' t'
  unfolding read_addr sockets
  read_addr-Untouched h rep sa = elim (Option-cases (rest_len (get_or h 3 0) (get_or h 4 0))) [
    | inl e ↦ rw (e, read_addr) (refl, refl, refl, refl)
    | inr (n, e) ↦
        let r = host.on_recv t s.fd n in
        elim (Option-cases (exactly n r)) [
          | inl x ↦ rw (e, read_addr, x) (refl, refl, refl, refl)
          | inr (b, x) ↦
              rw (e, read_addr, x)
                (finish_request-Untouched host s (received s.fd n r ∷ t) (get_or h 1 0) rep
                  (drop 3 h ++ b) sa)
        ]
  ]

module _ (host : Host) (s : Server) (t : Trace) where
  read_request-Untouched :
      (rep : ℕ) (sa : Sockaddr)
      → let (_, s', t') = read_request host rep sa s t in Untouched s t s' t'
  unfolding read_request sockets
  read_request-Untouched rep sa =
      let r = host.on_recv t s.fd 5 in
      elim (Option-cases (exactly 5 r)) [
        | inl x ↦ rw (x, read_request) (refl, refl, refl, refl)
        | inr (h, x) ↦ elim (Bool-cases (get_or h 0 0 == 5)) [
          | inl v ↦
              rw (x, read_request, v) (read_addr-Untouched host s (received s.fd 5 r ∷ t) h rep sa)
          | inr v ↦ rw (x, read_request, v) (refl, refl, refl, refl)
        ]
      ]

  write_response-Untouched :
      (rep : ℕ) (sa : Sockaddr)
      → let (_, s', t') = write_response host rep sa s t in Untouched s t s' t'
  unfolding write_response sockets
  write_response-Untouched rep sa =
      let b : Bytes = 5 ∷ to_byte (pos rep) ∷ 0 ∷ (addr_from_sockaddr6 sa).1 in
      rw (write_response, send_all-run host s t b, sockets) (refl, refl, refl, refl)

module _ (host : Host) (n : ℕ) (s : Server) (t : Trace) where
  dispatch-Balanced :
      (r : Request)
      → s.fds0 ≡ minus_one
      → s.fds1 ≡ minus_one
      → let (_, s', t') = dispatch host r s t in Balanced n s t s' t'
  unfolding dispatch
  dispatch-Balanced r h k = elim (Option-cases r.cmd) [
    | inl e ↦ rw (dispatch, e) (ground arith)
    | inr (cmd, e) ↦ rw (dispatch, e) (ground (arith, serve-Balanced host n s t cmd r.addr))
  ]

module _ (n : ℕ) (s : Server) (t : Trace) (s' : Server) (t' : Trace) where
  opens-Untouched : Untouched s t s' t' → opens (pos n) t' ≡ opens (pos n) t
  opens-Untouched (_, _, _, e) =
      sym (opens-sockets (pos n) t') ∙ ap (opens (pos n)) e ∙ opens-sockets (pos n) t

  closes-Untouched : Untouched s t s' t' → closes (pos n) t' ≡ closes (pos n) t
  closes-Untouched (_, _, _, e) =
      sym (closes-sockets (pos n) t') ∙ ap (closes (pos n)) e ∙ closes-sockets (pos n) t

  held-Untouched : Untouched s t s' t' → held n s' ≡ held n s
  held-Untouched (d, e, f, _) = rw (d, e, f) refl

  Untouched-Balanced : Untouched s t s' t' → Balanced n s t s' t'
  Untouched-Balanced u = rw (opens-Untouched u, closes-Untouched u, held-Untouched u) refl

-- One step after the other.
Balanced-trans :
    (n : ℕ) (s : Server) (t : Trace) (s1 : Server) (t1 : Trace) (s2 : Server) (t2 : Trace)
    → Balanced n s t s1 t1
    → Balanced n s1 t1 s2 t2
    → Balanced n s t s2 t2
Balanced-trans n s t s1 t1 s2 t2 h k = omega arith

module _ (host : Host) (n : ℕ) (s : Server) (t : Trace) where
  answer_request-Balanced :
      s.fds0 ≡ minus_one
      → s.fds1 ≡ minus_one
      → let (_, s', t') = answer_request host s t in Balanced n s t s' t'
  unfolding answer_request reply
  answer_request-Balanced h k =
      let sa : Sockaddr = record { family = 0; port = 0 ∷ 0 ∷ []; addr = replicate 16 0 } in
      let (r, s1, t1) = read_request host 0 sa s t in
      let (f0, f1, f2, f3) = read_request-Untouched host s t 0 sa in
      let ((rep, addr), s2, t2) = dispatch host r s1 t1 in
      let w = write_response-Untouched host s2 t2 rep addr in
      let (_, s3, t3) = write_response host rep addr s2 t2 in
      ground (
        arith,
        dispatch-Balanced host n s1 t1 r,
        Untouched-Balanced n s t s1 t1 (f0, f1, f2, f3),
        Untouched-Balanced n s2 t2 s3 t3 w,
        f1,
        f2,
      )

module _ (host : Host) (n : ℕ) (s : Server) (t : Trace) where
  pub handshake-Balanced :
      s.fds0 ≡ minus_one
      → s.fds1 ≡ minus_one
      → let (_, s', t') = handshake host s t in Balanced n s t s' t'
  unfolding handshake set_timeout
  handshake-Balanced h k =
      let s0 : Server = (set_timeout host.config.tcp_timeout s t).1 in
      let (_, s1, t1) = server_auth host s0 t in
      let (f0, f1, f2, f3) = server_auth-Untouched host s0 t in
      ground (
        arith,
        Untouched-Balanced n s0 t s1 t1 (f0, f1, f2, f3),
        answer_request-Balanced host n s1 t1,
        f1,
        f2,
      )

pub drop_open-counts :
    {S : Type 0} (n : ℕ) (fd : ℤ) (s : S) (t : Trace)
    → let (_, _, t') = drop_open fd s t in
      (opens (pos n) t' ≡ opens (pos n) t) × (closes (pos n) t' ≡ closes (pos n) t + is_fd n fd)
unfolding drop_open opens closes
drop_open-counts n (pos m) s t = ground arith
drop_open-counts n (negsuc m) s t = ground arith

release-counts :
    (n : ℕ) (h : Holder) (s : Server) (t : Trace)
    → let (_, _, t') = release h s t in
      (opens (pos n) t' ≡ opens (pos n) t) × (closes (pos n) t' ≡ closes (pos n) t)
unfolding release opens closes
release-counts n nothing s t = (refl, refl)
release-counts n (auth id tree) s t = (refl, refl)
release-counts n (user u) s t = (refl, refl)

pub destruct-counts :
    (n : ℕ) (s : Server) (t : Trace)
    → let (_, _, t') = destruct s t in
      (opens (pos n) t' ≡ opens (pos n) t) × (closes (pos n) t' ≡ closes (pos n) t + held n s)
unfolding destruct
destruct-counts n s t =
    let (_, s1, t1) = drop_open s.fds0 s t in
    let (_, s2, t2) = drop_open s.fds1 s1 t1 in
    let (_, s3, t3) = release s.obj s2 t2 in
    ground (
      arith,
      drop_open-counts n s.fds0 s t,
      drop_open-counts n s.fds1 s1 t1,
      release-counts n s.obj s2 t2,
      drop_open-counts n s.fd s3 t3,
    )

pub held-fresh :
    (n : ℕ) (s : Server) → s.fds0 ≡ minus_one → s.fds1 ≡ minus_one → held n s ≡ is_fd n s.fd
held-fresh n s h k = rw (h, k) (omega arith)

-- A server that holds no descriptor but its own is run through hev_socks5_server_handshake, whatever
-- the outside answers and whether the handshake succeeds or fails, and is then destroyed. The number
-- of times that a descriptor is closed from the start of the handshake is the number of times that it
-- is opened, and one more for the descriptor of the client.
pub handshake-destruct :
    (host : Host) (n : ℕ) (s : Server) (t : Trace)
    → s.fds0 ≡ minus_one
    → s.fds1 ≡ minus_one
    → let (_, s1, t1) = handshake host s t in
      let (_, _, t2) = destruct s1 t1 in
      closes (pos n) t2 + opens (pos n) t ≡ closes (pos n) t + opens (pos n) t2 + is_fd n s.fd
handshake-destruct host n s t h k =
    let (_, s1, t1) = handshake host s t in
    ground (arith, handshake-Balanced host n s t h k, destruct-counts n s1 t1, held-fresh n s h k)
