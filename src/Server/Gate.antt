-- ===== src/Server/Gate.antt =====
-- What a successful check of the credentials has read and done.
use hev_socks5_core.Base.{
  ℕ, ◌+◌, ◌≡◌, ◌∙◌, ap, sym, refl, false, some, Bytes, ◌∷◌, pos, is_neg, arith, length, take,
  get_or, ◌==◌, Option-cases, Bool-cases, inl, inr,
}
use hev_socks5_core.Host.{
  Host, Trace, Received, received, got, failed, exactly, referenced, unreferenced,
}
use hev_socks5_core.User
use hev_socks5_core.User.{User}
use hev_socks5_core.User.Check.{check_iff}
use hev_socks5_core.Authenticator
use hev_socks5_core.Authenticator.{Tree}
use hev_socks5_core.Server.Defs.{Server, auth, user}
use hev_socks5_core.Server.Negotiate.{find_user, accept, check_user, read_pass, read_auth_user}

exactly_inv :
    (n : ℕ) (r : Received) (bytes : Bytes)
    → exactly n r ≡ some bytes
    → (r ≡ got bytes) × (length bytes ≡ n)
exactly_inv n (got b) bytes e = ground arith
exactly_inv n (failed k) bytes e = cc

-- Where each read has led, if what follows it has succeeded.
module _ (host : Host) (s : Server) where
  pub read_pass_inv :
      (n : ℕ) (b : Bytes) (t : Trace)
      → is_neg (read_pass host n b s t).0 ≡ false
      → (p : Bytes) × (read_pass host n b s t
          ≡ check_user host (take n b) p s (received s.fd (length p) (got p) ∷ t))
  unfolding read_pass
  read_pass_inv n b t e = elim (Bool-cases (get_or b n 0 == 0)) [
    | inl empty ↦ absurd (ground arith)
    | inr filled ↦
        elim (Option-cases (exactly (get_or b n 0) (host.on_recv t s.fd (get_or b n 0)))) [
          | inl x ↦ absurd (ground arith)
          | inr (p, x) ↦
              let (r, l) = exactly_inv (get_or b n 0) (host.on_recv t s.fd (get_or b n 0)) p x in
              (p, rw (filled, read_pass, x, r, l))
        ]
  ]

  pub read_auth_user_inv :
      (t : Trace)
      → is_neg (read_auth_user host s t).0 ≡ false
      → (h b : Bytes) × (read_auth_user host s t
          ≡ read_pass host
              (get_or h 1 0)
              b
              s
              (received s.fd (length b) (got b) ∷ received s.fd 2 (got h) ∷ t))
  unfolding read_auth_user
  read_auth_user_inv t e = elim (Option-cases (exactly 2 (host.on_recv t s.fd 2))) [
    | inl x ↦ absurd (ground arith)
    | inr (h, x) ↦
        let (r, l) = exactly_inv 2 (host.on_recv t s.fd 2) h x in
        let t1 : Trace = received s.fd 2 (got h) ∷ t in
        let next = host.on_recv t1 s.fd (get_or h 1 0 + 1) in
        elim (Bool-cases (get_or h 0 0 == 1)) [
          | inl v ↦ elim (Bool-cases (get_or h 1 0 == 0)) [
            | inl empty ↦ absurd (ground arith)
            | inr named ↦ elim (Option-cases (exactly (get_or h 1 0 + 1) next)) [
              | inl y ↦ absurd (ground arith)
              | inr (b, y) ↦
                  let (r', l') = exactly_inv (get_or h 1 0 + 1) next b y in
                  (h, b, rw (x, r, read_auth_user, v, named, y, r', l'))
            ]
          ]
          | inr v ↦ absurd (ground arith)
        ]
  ]

module _ (host : Host) (s : Server) (id : ℕ) (tree : Tree) (h : s.obj ≡ auth id tree) where
  find_user-run :
      (name : Bytes) (t : Trace) → find_user s.obj name s t ≡ (Authenticator.get tree name, s, t)
  unfolding find_user
  find_user-run name t = rw h refl

  -- the search and the check of the password
  check_user-accepts :
      (name pass : Bytes) (t : Trace)
      → is_neg (check_user host name pass s t).0 ≡ false
      → (u : User) × (Authenticator.get tree name ≡ some u)
        × (u.pass ≡ pass)
        × (check_user host name pass s t
            ≡ (pos 0, record s { obj = user u }, unreferenced id ∷ referenced u.id ∷ t))
  unfolding check_user accept
  check_user-accepts name pass t e =
      let run = find_user-run name t in
      elim (Option-cases (Authenticator.get tree name)) [
        | inl g ↦ absurd (ground (arith, run))
        | inr (u, g) ↦ elim (Bool-cases (is_neg (User.check u pass))) [
          | inl bad ↦ absurd (ground (arith, run))
          | inr good ↦ (u, g, (check_iff u pass).0 good, ground (arith, run))
        ]
      ]

  -- the same behind the two reads of the name and the password
  pub read_pass-accepts :
      (n : ℕ) (b : Bytes) (t : Trace)
      → is_neg (read_pass host n b s t).0 ≡ false
      → (u : User) × (Authenticator.get tree (take n b) ≡ some u)
        × (read_pass host n b s t ≡ (
          pos 0,
          record s { obj = user u },
          unreferenced id ∷ referenced u.id ∷ received s.fd (length u.pass) (got u.pass) ∷ t,
        ))
  read_pass-accepts n b t e =
      let (p, eq_p) = read_pass_inv host s n b t e in
      let t' : Trace = received s.fd (length p) (got p) ∷ t in
      let (u, g, same, run) = check_user-accepts (take n b) p t' (rw eq_p at e) in
      let seen =
        λ (q : Bytes). unreferenced id ∷ referenced u.id ∷ received s.fd (length q) (got q) ∷ t in
      (u, g, eq_p ∙ run ∙ ap (λ q. (pos 0, record s { obj = user u }, seen q)) (sym same))
