-- ===== src/Client/Steady.antt =====
-- The steps of a client's handshake that change no descriptor.
use hev_socks5_core.Base.{
  ℕ, ◌≡◌, refl, [], ◌∷◌, Bytes, Option, none, some, pos, arith, Option-cases, inl, inr, take,
}
use hev_socks5_core.Host.{Host, Trace}
use hev_socks5_core.Sockets.{opens, closes}
use hev_socks5_core.Misc.Addr.{Addr}
use hev_socks5_core.Client.Descriptors.{variant_fd}
use hev_socks5_core.Client.Defs.{Client, Variant, tcp_client, udp_client}
use hev_socks5_core.Client.Upstream.{zero_addr, set_variant, upstream_of, get_upstream_addr}
use hev_socks5_core.Client.Messages.{
  offered_method, creds_bytes, command_of, sent_len, send_all, write_auth_methods, send_creds,
  write_auth_creds, send_request, write_request, read_auth_method, read_auth_creds,
}

-- nothing of the descriptor n changes from (c, t) to (c', t')
abbrev pub Steady : ℕ → Client → Trace → Client → Trace → Type 0
Steady n c t c' t' =
    (c'.fd ≡ c.fd)
    × (variant_fd c'.variant ≡ variant_fd c.variant)
    × (opens (pos n) t' ≡ opens (pos n) t)
    × (closes (pos n) t' ≡ closes (pos n) t)

module _ (host : Host) (n : ℕ) (c : Client) (t : Trace) where
  send_all-Steady : (b : Bytes) → let (_, c', t') = send_all host b c t in Steady n c t c' t'
  unfolding send_all opens closes
  send_all-Steady b = ground arith

  pub read_auth_method-Steady : let (_, c', t') = read_auth_method host c t in Steady n c t c' t'
  unfolding read_auth_method opens closes
  read_auth_method-Steady = ground arith

  pub read_auth_creds-Steady : let (_, c', t') = read_auth_creds host c t in Steady n c t c' t'
  unfolding read_auth_creds opens closes
  read_auth_creds-Steady = ground arith

  upstream_of-Steady :
      (v : Variant) (family : ℕ)
      → c.variant ≡ v
      → let (_, c', t') = upstream_of host v family c t in Steady n c t c' t'
  unfolding upstream_of zero_addr set_variant opens closes
  upstream_of-Steady (tcp_client a) family e = (refl, rw e refl, refl, refl)
  upstream_of-Steady (udp_client fd) family e = ground arith

module _ (host : Host) (n : ℕ) (c : Client) (t : Trace) where
  pub write_auth_methods-Steady :
      let (_, c', t') = write_auth_methods host c t in Steady n c t c' t'
  unfolding write_auth_methods
  write_auth_methods-Steady =
      send_all-Steady host n c t (5 ∷ 1 ∷ offered_method c.auth_user c.auth_pass ∷ [])

  send_creds-Steady :
      (name pass : Option Bytes)
      → let (_, c', t') = send_creds host name pass c t in Steady n c t c' t'
  unfolding send_creds
  send_creds-Steady (some name) (some pass) = send_all-Steady host n c t (creds_bytes name pass)
  send_creds-Steady (some name) none = (refl, refl, refl, refl)
  send_creds-Steady none pass = (refl, refl, refl, refl)

  send_request-Steady :
      (cmd : ℕ) (a : Option Addr)
      → let (_, c', t') = send_request host cmd a c t in Steady n c t c' t'
  unfolding send_request opens closes
  send_request-Steady cmd none = (refl, refl, refl, refl)
  send_request-Steady cmd (some a) = elim (Option-cases (sent_len a)) [
    | inl e ↦ rw (e, send_request) (refl, refl, refl, refl)
    | inr (k, e) ↦
        let s = send_all-Steady host n c t (5 ∷ cmd ∷ 0 ∷ take k a) in
        rw (e, send_request) (ground (arith, s))
  ]

module _ (host : Host) (n : ℕ) (c : Client) (t : Trace) where
  pub write_auth_creds-Steady : let (_, c', t') = write_auth_creds host c t in Steady n c t c' t'
  unfolding write_auth_creds
  write_auth_creds-Steady = send_creds-Steady host n c t c.auth_user c.auth_pass

  pub write_request-Steady : let (_, c', t') = write_request host c t in Steady n c t c' t'
  unfolding write_request get_upstream_addr command_of opens closes
  write_request-Steady = elim (Option-cases (command_of c.kind)) [
    | inl e ↦ rw (e, write_request) (refl, refl, refl, refl)
    | inr (cmd, e) ↦
        let (a, c1, t1) = upstream_of host c.variant c.addr_family c t in
        rw (e, write_request)
          (ground (
            arith,
            upstream_of-Steady host n c t c.variant c.addr_family refl,
            send_request-Steady host n c1 t1 cmd a,
          ))
  ]
