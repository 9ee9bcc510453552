-- ===== src/Session/Agreed.antt =====
-- A server on whose connection a client offers what the server asks for.
use hev_socks5_core.Base.{
  ℕ, ◌≡◌, ◌∙◌, ap, sym, subst, Option, none, some, Bytes, [], ◌∷◌, ◌++◌, ℤ, pos, arith,
  append_assoc,
}
use hev_socks5_core.Host.{Host, Trace}
use hev_socks5_core.Wire.{Streams}
use hev_socks5_core.User.{User}
use hev_socks5_core.Authenticator
use hev_socks5_core.Authenticator.{Tree}
use hev_socks5_core.Client.Defs.{Client}
use hev_socks5_core.Client.Messages.{offered_method, creds_bytes}
use hev_socks5_core.Client.Pipeline.{greeting, creds_of}
use hev_socks5_core.Server.Defs.{Server, Holder, nothing, auth, user, set_timeout}
use hev_socks5_core.Server.DecodeCreds.{IsShort}
use hev_socks5_core.Server.Negotiate.{server_auth}
use hev_socks5_core.Server.Handshake.{handshake, answer_request}
use hev_socks5_core.Session.Stream.{Stands}
use hev_socks5_core.Session.Accept.{Takes, server_auth-user, server_auth-open}
use hev_socks5_core.Session.Target.{Target, bytes_of, sockaddr_of, IsPlain}
use hev_socks5_core.Session.Serve.{Reaches}
use hev_socks5_core.Session.Request.{Served, answer_request-target}

-- Client and server fit together: neither has credentials, or the client has the name and the
-- password, of 1 to 255 characters each, of a user of the authenticator.
pub data Agrees (name pass : Option Bytes) (obj : Holder) : Type 0 where
  without : obj ≡ nothing → name ≡ none → Agrees name pass obj
  by_password :
      (id : ℕ) (tree : Tree) (u : User)
      → obj ≡ auth id tree
      → Authenticator.get tree u.name ≡ some u
      → IsShort u.name
      → IsShort u.pass
      → name ≡ some u.name
      → pass ≡ some u.pass
      → Agrees name pass obj

-- what the server then holds, and what it has sent
abbrev pub accepted : {name pass : Option Bytes} {obj : Holder} → Agrees name pass obj → Holder
accepted (without _ _) = nothing
accepted (by_password _ _ u _ _ _ _ _ _) = user u

abbrev pub welcome : {name pass : Option Bytes} {obj : Holder} → Agrees name pass obj → Bytes
welcome (without _ _) = 5 ∷ 0 ∷ []
welcome (by_password _ _ _ _ _ _ _ _ _) = 5 ∷ 2 ∷ 1 ∷ 0 ∷ []

-- what the client sends before its request
abbrev pub offer : Client → Bytes
offer c = greeting c ++ creds_of c.auth_user c.auth_pass

module _ (host : Host) (inbox : Bytes) (s : Server) (streams : Streams host s.fd inbox)
    (takes : Takes host s.fd) (c : Client) where
  server_auth-agrees :
      (t : Trace) (rest out : Bytes) (a : Agrees c.auth_user c.auth_pass s.obj)
      → Stands s.fd inbox t (offer c ++ rest) out
      → (t' : Trace) × (server_auth host s t ≡ (pos 0, record s { obj = accepted a }, t'))
        × Stands s.fd inbox t' rest (out ++ welcome a)
  unfolding offered_method
  server_auth-agrees t rest out (without h e) (r, o) =
      let sends : offer c ≡ 5 ∷ 1 ∷ 0 ∷ [] =
        λ i. (5 ∷ 1 ∷ offered_method (e i) c.auth_pass ∷ []) ++ creds_of (e i) c.auth_pass in
      let (t', run, st) =
        server_auth-open host inbox s streams takes t rest out h
          (r ∙ ap (λ b. b ++ rest) sends, o) in
      (t', run ∙ (λ i. (pos 0, record s { obj = h i }, t')), st)
  server_auth-agrees t rest out (by_password id tree u h g n p e k) (r, o) =
      let sends : offer c ≡ 5 ∷ 1 ∷ 2 ∷ creds_bytes u.name u.pass =
        λ i. (5 ∷ 1 ∷ offered_method (e i) (k i) ∷ []) ++ creds_of (e i) (k i) in
      let (t', run, (r', o')) =
        server_auth-user host inbox s streams takes id tree u h g t rest out n p
          (r ∙ ap (λ b. b ++ rest) sends, o) in
      (t', run, (r', o' ∙ append_assoc out (5 ∷ 2 ∷ []) (1 ∷ 0 ∷ [])))

-- hev_socks5_set_timeout leaves the descriptor
set_timeout_fd : (n : ℤ) (s : Server) (t : Trace) → (set_timeout n s t).1.fd ≡ s.fd
unfolding set_timeout
set_timeout_fd n s t = ground arith

module _ (host : Host) (inbox : Bytes) (c : Client) (x : Target) (plain : IsPlain x)
    (reaches : Reaches host (sockaddr_of x)) where
  handshake-from :
      (s0 : Server) (streams : Streams host s0.fd inbox) (takes : Takes host s0.fd) (t : Trace)
      (rest out : Bytes) (a : Agrees c.auth_user c.auth_pass s0.obj)
      → Stands s0.fd inbox t (offer c ++ (5 ∷ 1 ∷ 0 ∷ (bytes_of x ++ rest))) out
      → (s1 s' : Server) × (t1 t' : Trace) × (server_auth host s0 t ≡ (pos 0, s1, t1))
        × (answer_request host s1 t1 ≡ (pos 0, s', t'))
        × Served inbox rest
            ((out ++ welcome a) ++ (5 ∷ 0 ∷ 0 ∷ bytes_of x))
            x
            s0.fd
            (accepted a)
            s'
            t'
  handshake-from s0 streams takes t rest out a st =
      let request = 5 ∷ 1 ∷ 0 ∷ (bytes_of x ++ rest) in
      let (t1, run, st1) = server_auth-agrees host inbox s0 streams takes c t request out a st in
      let s1 : Server = record s0 { obj = accepted a } in
      let (s', t', run', served) =
        answer_request-target host inbox x plain s1 streams takes reaches t1 rest (out ++ welcome a)
          st1 in
      (s1, s', t1, t', run, run', served)

  pub handshake-agrees :
      (s : Server) (streams : Streams host s.fd inbox) (takes : Takes host s.fd) (t : Trace)
      (rest out : Bytes) (a : Agrees c.auth_user c.auth_pass s.obj)
      → Stands s.fd inbox t (offer c ++ (5 ∷ 1 ∷ 0 ∷ (bytes_of x ++ rest))) out
      → (s' : Server) × (t' : Trace) × (handshake host s t ≡ (pos 0, s', t'))
        × Served inbox rest
            ((out ++ welcome a) ++ (5 ∷ 0 ∷ 0 ∷ bytes_of x))
            x
            s.fd
            (accepted a)
            s'
            t'
  unfolding handshake set_timeout
  handshake-agrees s streams takes t rest out a st =
      let n = host.config.tcp_timeout in
      let s0 : Server = (set_timeout n s t).1 in
      let same : s0.fd ≡ s.fd = set_timeout_fd n s t in
      let request = offer c ++ (5 ∷ 1 ∷ 0 ∷ (bytes_of x ++ rest)) in
      let a0 : Agrees c.auth_user c.auth_pass s0.obj = a in
      let (s1, s', t1, t', run, run', served) =
        handshake-from s0 (subst (λ fd. Streams host fd inbox) (sym same) streams)
          (subst (Takes host) (sym same) takes) t rest out a0
          (subst (λ fd. Stands fd inbox t request out) (sym same) st) in
      let all = (out ++ welcome a) ++ (5 ∷ 0 ∷ 0 ∷ bytes_of x) in
      (s', t', rw run run', subst (λ fd. Served inbox rest all x fd (accepted a) s' t') same served)
