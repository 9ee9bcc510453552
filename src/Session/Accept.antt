-- ===== src/Session/Accept.antt =====
-- A server that reads what a client offers, and accepts it.
use hev_socks5_core.Base.{
  ℕ, ◌+◌, ◌≡◌, refl, ◌∙◌, false, some, Bytes, [], ◌∷◌, ◌++◌, ℤ, pos, is_nonpos, length, ==_refl,
}
use hev_socks5_core.Host.{Host, Trace, received, got, sent, referenced, unreferenced}
use hev_socks5_core.Wire.{consumed, outgoing, Streams, recv_front}
use hev_socks5_core.User.{User}
use hev_socks5_core.User.Check.{check_iff}
use hev_socks5_core.Authenticator
use hev_socks5_core.Authenticator.{Tree}
use hev_socks5_core.Client.Messages.{creds_bytes}
use hev_socks5_core.Server.Defs.{Server, nothing, auth, user}
use hev_socks5_core.Server.Quiet
use hev_socks5_core.Server.DecodeCreds.{IsShort, block, read_auth_user-creds}
use hev_socks5_core.Server.Negotiate.{
  required_method, select_method, find_user, accept, check_user, send_all, read_auth_method,
  write_auth_method, write_auth_user, auth_user, server_auth,
}
use hev_socks5_core.Session.Stream.{Stands, received-Stands, sent-Stands}

-- every message of at least one byte is taken
abbrev pub Takes : Host → ℤ → Type 0
Takes host fd = (t : Trace) (b : ℕ) (bs : Bytes) → is_nonpos (host.on_send t fd (b ∷ bs)) ≡ false

module _ (host : Host) (inbox : Bytes) (s : Server) (takes : Takes host s.fd) where
  pub send_all-Stands :
      (t : Trace) (b : ℕ) (bs unread out : Bytes)
      → Stands s.fd inbox t unread out
      → (t' : Trace) × (send_all host (b ∷ bs) s t ≡ (pos 0, s, t'))
        × Stands s.fd inbox t' unread (out ++ (b ∷ bs))
  send_all-Stands t b bs unread out h =
      let bytes = b ∷ bs in
      let r = host.on_send t s.fd bytes in
      (
        sent s.fd bytes r ∷ t,
        rw (Quiet.send_all-run host s t bytes, takes t b bs),
        sent-Stands s.fd inbox t bytes unread out r h,
      )

module _ (host : Host) (inbox : Bytes) (s : Server) (streams : Streams host s.fd inbox)
    (takes : Takes host s.fd) where
  -- one method is offered, and it is the one that is asked for
  read_auth_method-Stands :
      (t : Trace) (m : ℕ) (rest out : Bytes)
      → required_method s.obj ≡ m
      → Stands s.fd inbox t (5 ∷ 1 ∷ m ∷ rest) out
      → (t' : Trace) × (read_auth_method host s t ≡ (pos m, s, t')) × Stands s.fd inbox t' rest out
  unfolding read_auth_method select_method
  read_auth_method-Stands t m rest out r h =
      let t1 : Trace = received s.fd 2 (got (5 ∷ 1 ∷ [])) ∷ t in
      let h1 = received-Stands host s.fd inbox streams t 2 (5 ∷ 1 ∷ []) (m ∷ rest) out h in
      let e = recv_front host s.fd inbox streams t (5 ∷ 1 ∷ []) (m ∷ rest) h.0 in
      let e1 = recv_front host s.fd inbox streams t1 (m ∷ []) rest h1.0 in
      (
        received s.fd 1 (got (m ∷ [])) ∷ t1,
        rw (e, read_auth_method, e1, r, ==_refl m),
        received-Stands host s.fd inbox streams t1 1 (m ∷ []) rest out h1,
      )

  module _ (id : ℕ) (tree : Tree) (u : User) (h : s.obj ≡ auth id tree)
      (found : Authenticator.get tree u.name ≡ some u) where
    check_user-found :
        (t : Trace)
        → check_user host u.name u.pass s t
          ≡ (pos 0, record s { obj = user u }, unreferenced id ∷ referenced u.id ∷ t)
    unfolding check_user find_user accept
    check_user-found t =
        let good = (check_iff u u.pass).1 refl in rw (h, check_user, found, good, h)

    auth_user-Stands :
        (t : Trace) (rest out : Bytes)
        → IsShort u.name
        → IsShort u.pass
        → Stands s.fd inbox t (creds_bytes u.name u.pass ++ rest) out
        → (t' : Trace) × (auth_user host s t ≡ (pos 0, record s { obj = user u }, t'))
          × Stands s.fd inbox t' rest (out ++ (1 ∷ 0 ∷ []))
    unfolding auth_user consumed outgoing
    auth_user-Stands t rest out n p (e, o) =
        let (run, left) = read_auth_user-creds host inbox s streams u.name u.pass t rest n p e in
        let s' : Server = record s { obj = user u } in
        let seen =
          received s.fd (length u.pass) (got u.pass)
          ∷ received s.fd (length u.name + 1) (got (block u.name u.pass))
          ∷ received s.fd 2 (got (1 ∷ length u.name ∷ []))
          ∷ t in
        let t1 : Trace = unreferenced id ∷ referenced u.id ∷ seen in
        let (t2, sends, h2) =
          send_all-Stands host inbox s' takes t1 1 (0 ∷ []) rest out (left, o) in
        (t2, rw (run ∙ check_user-found seen, auth_user, write_auth_user, sends), h2)

    -- What a client sends for a name and a password of 1 to 255 characters, those of a user of the
    -- authenticator, is accepted, whatever follows it.
    pub server_auth-user :
        (t : Trace) (rest out : Bytes)
        → IsShort u.name
        → IsShort u.pass
        → Stands s.fd inbox t (5 ∷ 1 ∷ 2 ∷ (creds_bytes u.name u.pass ++ rest)) out
        → (t' : Trace) × (server_auth host s t ≡ (pos 0, record s { obj = user u }, t'))
          × Stands s.fd inbox t' rest ((out ++ (5 ∷ 2 ∷ [])) ++ (1 ∷ 0 ∷ []))
    unfolding server_auth
    server_auth-user t rest out n p st =
        let more = creds_bytes u.name u.pass ++ rest in
        let asks : required_method s.obj ≡ 2 = rw (h, required_method) refl in
        let (t1, run1, st1) = read_auth_method-Stands t 2 more out asks st in
        let (t2, run2, st2) = send_all-Stands host inbox s takes t1 5 (2 ∷ []) more out st1 in
        let (t3, run3, st3) = auth_user-Stands t2 rest (out ++ (5 ∷ 2 ∷ [])) n p st2 in
        (t3, rw (run1, server_auth, write_auth_method, run2, run3), st3)

  -- Without an authenticator, a client that offers no authentication is accepted.
  pub server_auth-open :
      (t : Trace) (rest out : Bytes)
      → s.obj ≡ nothing
      → Stands s.fd inbox t (5 ∷ 1 ∷ 0 ∷ rest) out
      → (t' : Trace) × (server_auth host s t ≡ (pos 0, s, t'))
        × Stands s.fd inbox t' rest (out ++ (5 ∷ 0 ∷ []))
  unfolding server_auth
  server_auth-open t rest out h st =
      let asks : required_method s.obj ≡ 0 = rw (h, required_method) refl in
      let (t1, run1, st1) = read_auth_method-Stands t 0 rest out asks st in
      let (t2, run2, st2) = send_all-Stands host inbox s takes t1 5 (0 ∷ []) rest out st1 in
      (t2, rw (run1, server_auth, write_auth_method, run2), st2)
