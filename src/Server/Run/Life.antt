-- ===== src/Server/Run/Life.antt =====
-- A server from hev_socks5_server_new to hev_socks5_server_destruct.
use hev_socks5_core.Base.{
  ℕ, ◌+◌, ◌≡◌, refl, ap, sym, ◌∙◌, ℤ, pos, minus_one, arith, false, is_neg, some, Bool-cases, inl,
  inr,
}
use hev_socks5_core.Host.{Host, Trace}
use hev_socks5_core.Sockets.{opens, closes}
use hev_socks5_core.Socks5
use hev_socks5_core.Server.Defs.{Server, construct, destruct}
use hev_socks5_core.Server.Descriptors.{is_fd}
use hev_socks5_core.Server.Run.{zero_server, server_new, run}
use hev_socks5_core.Server.Run.Balance.{run-destruct}

construct-fds :
    (base_res fd : ℤ) (s : Server)
    → let (res, s') = construct base_res fd s in
      is_neg res ≡ false → (s'.fds0 ≡ minus_one) × (s'.fds1 ≡ minus_one) × (s'.fd ≡ fd)
unfolding construct Socks5.construct
construct-fds base_res fd s e = ground arith

server_new-some :
    (host : Host) (size n : ℕ) (base_res fd : ℤ) (t : Trace) (s : Server)
    → let (made, t') = server_new host size base_res fd t in
      made ≡ some s
      → (s.fds0 ≡ minus_one)
        × (s.fds1 ≡ minus_one)
        × (s.fd ≡ fd)
        × (opens (pos n) t' ≡ opens (pos n) t)
        × (closes (pos n) t' ≡ closes (pos n) t)
unfolding server_new opens closes
server_new-some host size n base_res fd t s e =
    let (res, made) = construct base_res fd zero_server in
    elim (Bool-cases (host.on_malloc t size)) [
      | inl g ↦ elim (Bool-cases (is_neg res)) [
        | inl b ↦ absurd (cc (rw (server_new, g, b) at e))
        | inr b ↦
            let (f0, f1, f2) = construct-fds base_res fd zero_server b in
            let q : made ≡ s = cc (rw (server_new, g, b) at e) in
            rw (server_new, g, b)
              (
                ap (λ (x : Server). x.fds0) (sym q) ∙ f0,
                ap (λ (x : Server). x.fds1) (sym q) ∙ f1,
                ap (λ (x : Server). x.fd) (sym q) ∙ f2,
                refl,
                refl,
              )
      ]
      | inr g ↦ absurd (cc (rw (server_new, g) at e))
    ]

-- A server that hev_socks5_server_new has made for a descriptor is run, with a relay of any number of
-- rounds, and destroyed, whatever the outside answers. From before the server was made to the end,
-- each descriptor is closed as often as it is opened, and the given one once more.
pub server_new-run-destruct :
    (host : Host) (size n fuel : ℕ) (base_res fd : ℤ) (t : Trace) (s : Server)
    → let (made, t0) = server_new host size base_res fd t in
      made ≡ some s
      → let (_, s1, t1) = run host fuel s t0 in
        let (_, _, t2) = destruct s1 t1 in
        closes (pos n) t2 + opens (pos n) t ≡ closes (pos n) t + opens (pos n) t2 + is_fd n fd
server_new-run-destruct host size n fuel base_res fd t s e =
    let (_, t0) = server_new host size base_res fd t in
    let (f0, f1, f2, o, c) = server_new-some host size n base_res fd t s e in
    let balance = run-destruct host n fuel s t0 f0 f1 in
    omega (arith, balance, o, c, ap (is_fd n) f2)
