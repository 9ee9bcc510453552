-- ===== src/Server/Untouched.antt =====
-- Authentication changes no descriptor and nothing of the object but its union.
use hev_socks5_core.Base.{
  ◌+◌, get_or, take, ◌==◌, ℕ, ◌≡◌, refl, Option-cases, inl, inr, Bool-cases, [], ◌∷◌, Bytes,
  to_byte, arith,
}
use hev_socks5_core.Host.{Host, Trace, exactly, received}
use hev_socks5_core.Sockets.{sockets}
use hev_socks5_core.Server.Defs.{Server, Holder, nothing, auth, user}
use hev_socks5_core.User.{User}
use hev_socks5_core.Server.Negotiate.{
  find_user, read_auth_method, write_auth_method, send_all, accept, check_user, read_pass,
  read_auth_user, write_auth_user, auth_user, server_auth,
}

-- nothing of the descriptors changes from (s, t) to (s', t')
abbrev pub Untouched : Server → Trace → Server → Trace → Type 0
Untouched s t s' t' =
    (s'.fd ≡ s.fd) × (s'.fds0 ≡ s.fds0) × (s'.fds1 ≡ s.fds1) × (sockets t' ≡ sockets t)

module _ (host : Host) (s : Server) (t : Trace) where
  pub read_auth_method-Untouched :
      let (_, s', t') = read_auth_method host s t in Untouched s t s' t'
  unfolding read_auth_method sockets
  read_auth_method-Untouched = ground arith

  pub send_all-Untouched :
      (b : Bytes) → let (_, s', t') = send_all host b s t in Untouched s t s' t'
  unfolding send_all sockets
  send_all-Untouched b = ground arith

  accept-Untouched :
      (h : Holder) (u : User) → let (_, s', t') = accept h u s t in Untouched s t s' t'
  unfolding accept sockets
  accept-Untouched nothing u = (refl, refl, refl, refl)
  accept-Untouched (auth id tree) u = (refl, refl, refl, refl)
  accept-Untouched (user v) u = (refl, refl, refl, refl)

  find_user-Untouched :
      (h : Holder) (name : Bytes)
      → let (_, s', t') = find_user h name s t in (s' ≡ s) × (sockets t' ≡ sockets t)
  unfolding find_user sockets
  find_user-Untouched nothing name = (refl, refl)
  find_user-Untouched (auth id tree) name = (refl, refl)
  find_user-Untouched (user u) name = (refl, refl)

module _ (host : Host) (s : Server) (t : Trace) where
  check_user-Untouched :
      (name pass : Bytes) → let (_, s', t') = check_user host name pass s t in Untouched s t s' t'
  unfolding check_user find_user sockets
  check_user-Untouched name pass =
      let (found, s1, t1) = find_user s.obj name s t in
      let f = find_user-Untouched host s t s.obj name in
      elim (Option-cases found) [
        | inl e ↦ rw (check_user, e) (ground (arith, f))
        | inr (u, e) ↦ rw (check_user, e) (ground (arith, f, accept-Untouched host s1 t1 s.obj u))
      ]

module _ (host : Host) (s : Server) (t : Trace) where
  read_pass-Untouched :
      (n : ℕ) (b : Bytes) → let (_, s', t') = read_pass host n b s t in Untouched s t s' t'
  unfolding read_pass sockets
  read_pass-Untouched n b =
      let r = host.on_recv t s.fd (get_or b n 0) in
      let t1 : Trace = received s.fd (get_or b n 0) r ∷ t in
      elim (Bool-cases (get_or b n 0 == 0)) [
        | inl empty ↦ rw (empty, read_pass) (refl, refl, refl, refl)
        | inr filled ↦ elim (Option-cases (exactly (get_or b n 0) r)) [
          | inl x ↦ rw (filled, read_pass, x) (refl, refl, refl, refl)
          | inr (p, x) ↦ rw (filled, read_pass, x) (check_user-Untouched host s t1 (take n b) p)
        ]
      ]

module _ (host : Host) (s : Server) (t : Trace) where
  read_auth_user-Untouched : let (_, s', t') = read_auth_user host s t in Untouched s t s' t'
  unfolding read_auth_user sockets
  read_auth_user-Untouched =
      let r = host.on_recv t s.fd 2 in
      let t1 : Trace = received s.fd 2 r ∷ t in
      elim (Option-cases (exactly 2 r)) [
        | inl x ↦ rw (read_auth_user, x) (refl, refl, refl, refl)
        | inr (h, x) ↦
            let n = get_or h 1 0 in
            let r' = host.on_recv t1 s.fd (n + 1) in
            let t2 : Trace = received s.fd (n + 1) r' ∷ t1 in
            elim (Bool-cases (get_or h 0 0 == 1)) [
              | inl v ↦ elim (Bool-cases (n == 0)) [
                | inl empty ↦ rw (x, read_auth_user, v, empty) (refl, refl, refl, refl)
                | inr named ↦ elim (Option-cases (exactly (n + 1) r')) [
                  | inl y ↦ rw (x, read_auth_user, v, named, y) (refl, refl, refl, refl)
                  | inr (b, y) ↦
                      rw (x, read_auth_user, v, named, y) (read_pass-Untouched host s t2 n b)
                ]
              ]
              | inr v ↦ rw (x, read_auth_user, v) (refl, refl, refl, refl)
            ]
      ]

module _ (host : Host) (s : Server) (t : Trace) where
  auth_user-Untouched : let (_, s', t') = auth_user host s t in Untouched s t s' t'
  unfolding auth_user write_auth_user
  auth_user-Untouched =
      let (res, s1, t1) = read_auth_user host s t in
      ground (
        arith,
        read_auth_user-Untouched host s t,
        send_all-Untouched host s1 t1 (1 ∷ to_byte res ∷ []),
      )

module _ (host : Host) (s : Server) (t : Trace) where
  pub server_auth-Untouched : let (_, s', t') = server_auth host s t in Untouched s t s' t'
  unfolding server_auth write_auth_method
  server_auth-Untouched =
      let (method, s1, t1) = read_auth_method host s t in
      let message : Bytes = 5 ∷ to_byte method ∷ [] in
      let (_, s2, t2) = send_all host message s1 t1 in
      ground (
        arith,
        read_auth_method-Untouched host s t,
        send_all-Untouched host s1 t1 message,
        auth_user-Untouched host s2 t2,
      )
