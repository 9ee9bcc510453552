-- ===== src/Server/Transcript.antt =====
-- The transcript of a successful authentication.
use hev_socks5_core.Base.{
  ℕ, ◌≡◌, ◌⊎◌, refl, ◌∙◌, false, some, Bytes, [], ◌∷◌, ℤ, pos, negsuc, minus_one, is_neg, is_nonpos,
  or_ℤ, arith, length, take, get_or, ◌==◌, Bool-cases, Option-cases, inl, inr,
}
use hev_socks5_core.Host.{Host, Trace, received, got, exactly, sent, referenced, unreferenced}
use hev_socks5_core.User.{User}
use hev_socks5_core.Authenticator
use hev_socks5_core.Authenticator.{Tree}
use hev_socks5_core.Server.Defs.{Server, auth, user}
use hev_socks5_core.Server.Quiet.{read_auth_method_self, send_all-run}
use hev_socks5_core.Server.Gate.{read_auth_user_inv, read_pass-accepts}
use hev_socks5_core.Server.Negotiate.{
  select_method, required_method, read_auth_method, read_auth_user, write_auth_user, auth_user,
  server_auth,
}

-- What the server has seen of a client that it accepts as `u`, and done for it: the head of the
-- message, the block with the name, the password, and the two references.
abbrev pub checked : ℤ → ℕ → User → Bytes → Bytes → Trace → Trace
checked fd id u head b t =
    unreferenced id
    ∷ referenced u.id
    ∷ received fd (length u.pass) (got u.pass)
    ∷ received fd (length b) (got b)
    ∷ received fd 2 (got head)
    ∷ t

or_nonneg : (a b : ℤ) → is_neg (or_ℤ a b) ≡ false → is_neg a ≡ false
unfolding or_ℤ
or_nonneg (pos a) b h = refl
or_nonneg (negsuc a) (pos b) h = h
or_nonneg (negsuc a) (negsuc b) h = h

-- a loop over the offered methods ends with the method that is asked for, or with -1
pub select_method-cases :
    (m : ℕ) (ms : Bytes) → (select_method m ms ≡ pos m) ⊎ (select_method m ms ≡ minus_one)
unfolding select_method
select_method-cases m [] = inr refl
select_method-cases m (x ∷ ms) = ground (arith, select_method-cases m ms)

module _ (host : Host) (s : Server) where
  auth_user-ok :
      (t : Trace)
      → is_neg (auth_user host s t).0 ≡ false
      → is_neg (read_auth_user host s t).0 ≡ false
  unfolding auth_user
  auth_user-ok t e =
      let (res, s1, t1) = read_auth_user host s t in
      or_nonneg res (write_auth_user host res s1 t1).0 (ground arith)

  read_auth_method_inv :
      (t : Trace)
      → ((ms : Bytes) × ((read_auth_method host s t).0 ≡ select_method (required_method s.obj) ms))
        ⊎ ((read_auth_method host s t).0 ≡ minus_one)
  unfolding read_auth_method
  read_auth_method_inv t = elim (Option-cases (exactly 2 (host.on_recv t s.fd 2))) [
    | inl x ↦ inr (rw (x, read_auth_method))
    | inr (head, x) ↦
        let next =
          host.on_recv (received s.fd 2 (host.on_recv t s.fd 2) ∷ t) s.fd (get_or head 1 0) in
        elim (Bool-cases (get_or head 0 0 == 5)) [
          | inl v ↦ elim (Option-cases (exactly (get_or head 1 0) next)) [
            | inl y ↦ inr (rw (x, read_auth_method, v, y))
            | inr (ms, y) ↦ inl (ms, rw (x, read_auth_method, v, y))
          ]
          | inr v ↦ inr (rw (x, read_auth_method, v))
        ]
  ]

  server_auth-user :
      (t t1 : Trace)
      → read_auth_method host s t ≡ (pos 2, s, t1)
      → is_neg (server_auth host s t).0 ≡ false
      → (r : ℤ) × (server_auth host s t ≡ auth_user host s (sent s.fd (5 ∷ 2 ∷ []) r ∷ t1))
  unfolding server_auth
  server_auth-user t t1 run e =
      let r = host.on_send t1 s.fd (5 ∷ 2 ∷ []) in
      elim (Bool-cases (is_nonpos r)) [
        | inl bad ↦
            absurd (cc (rw (run, server_auth, send_all-run host s t1 (5 ∷ 2 ∷ []), bad) at e))
        | inr good ↦ (r, rw (run, server_auth, send_all-run host s t1 (5 ∷ 2 ∷ []), good))
      ]

  server_auth-denied :
      (t t1 : Trace)
      → read_auth_method host s t ≡ (minus_one, s, t1)
      → is_neg (server_auth host s t).0 ≡ false
      → ⊥
  unfolding server_auth
  server_auth-denied t t1 run e =
      let r = host.on_send t1 s.fd (5 ∷ 255 ∷ []) in
      elim (Bool-cases (is_nonpos r)) [
        | inl bad ↦ cc (rw (run, server_auth, send_all-run host s t1 (5 ∷ 255 ∷ []), bad) at e)
        | inr good ↦ cc (rw (run, server_auth, send_all-run host s t1 (5 ∷ 255 ∷ []), good) at e)
      ]

  module _ (id : ℕ) (tree : Tree) (h : s.obj ≡ auth id tree) where
    read_auth_user-accepts :
        (t : Trace)
        → is_neg (read_auth_user host s t).0 ≡ false
        → (u : User) × (head b : Bytes) × (Authenticator.get tree (take (get_or head 1 0) b)
            ≡ some u)
          × (read_auth_user host s t
              ≡ (pos 0, record s { obj = user u }, checked s.fd id u head b t))
    read_auth_user-accepts t e =
        let (head, b, run) = read_auth_user_inv host s t e in
        let t' : Trace = received s.fd (length b) (got b) ∷ received s.fd 2 (got head) ∷ t in
        let (u, g, run') =
          read_pass-accepts host s id tree h (get_or head 1 0) b t' (rw run at e) in
        (u, head, b, g, run ∙ run')

    pub auth_user-accepts :
        (t : Trace)
        → is_neg (auth_user host s t).0 ≡ false
        → (u : User) × (head b : Bytes) × (r : ℤ) × (Authenticator.get tree
              (take (get_or head 1 0) b)
            ≡ some u)
          × ((auth_user host s t).1 ≡ record s { obj = user u })
          × ((auth_user host s t).2 ≡ sent s.fd (1 ∷ 0 ∷ []) r ∷ checked s.fd id u head b t)
    unfolding auth_user
    auth_user-accepts t e =
        let (u, head, b, g, run) = read_auth_user-accepts t (auth_user-ok t e) in
        let t' : Trace = checked s.fd id u head b t in
        (
          u,
          head,
          b,
          host.on_send t' s.fd (1 ∷ 0 ∷ []),
          g,
          rw (run, auth_user) (ground arith),
          rw (run, auth_user) (ground arith),
        )

    read_auth_method-user :
        (t : Trace)
        → ((read_auth_method host s t).0 ≡ pos 2) ⊎ ((read_auth_method host s t).0 ≡ minus_one)
    unfolding required_method
    read_auth_method-user t = elim (read_auth_method_inv t) [
      | inl (ms, e) ↦ rw (e, h) (select_method-cases 2 ms)
      | inr e ↦ inr e
    ]

    -- If an authenticator is set, hev_socks5_server_auth returns 0 only where the client has sent the
    -- name of a user of the authenticator and then exactly that user's password. The server then
    -- holds that user, and the last it has sent is the status 0.
    pub server_auth-accepts :
        (t : Trace)
        → is_neg (server_auth host s t).0 ≡ false
        → (u : User) × (head b : Bytes) × (r : ℤ) × (t' : Trace) × (Authenticator.get tree
              (take (get_or head 1 0) b)
            ≡ some u)
          × ((server_auth host s t).1 ≡ record s { obj = user u })
          × ((server_auth host s t).2 ≡ sent s.fd (1 ∷ 0 ∷ []) r ∷ checked s.fd id u head b t')
    unfolding server_auth
    server_auth-accepts t e =
        let t1 = (read_auth_method host s t).2 in
        let stays = read_auth_method_self host s t in
        elim (read_auth_method-user t) [
          | inl m ↦
              let run : read_auth_method host s t ≡ (pos 2, s, t1) = λ i. (m i, stays i, t1) in
              let (r, eq) = server_auth-user t t1 run e in
              let t2 : Trace = sent s.fd (5 ∷ 2 ∷ []) r ∷ t1 in
              let (u, head, b, r', g, self', trace) = auth_user-accepts t2 (rw eq at e) in
              (u, head, b, r', t2, g, rw eq self', rw eq trace)
          | inr m ↦ absurd (server_auth-denied t t1 (λ i. (m i, stays i, t1)) e)
        ]
