-- ===== src/Client/Standard.antt =====
-- The bytes that a handshake sends that waits for each answer.
use mathlib.Core.List.{append-nil}
use hev_socks5_core.Base.{
  ℕ, ◌≡◌, refl, ◌∙◌, ap, sym, false, [], ◌++◌, Bytes, some, ℤ, pos, is_neg, is_pos, arith,
  if◌then◌else◌, Bool-cases, inl, inr,
}
use hev_socks5_core.Host.{Host, Trace}
use hev_socks5_core.Wire.{outgoing}
use hev_socks5_core.Misc.Addr.{Addr}
use hev_socks5_core.Socks5.{tcp}
use hev_socks5_core.Client.Defs.{Client, tcp_client}
use hev_socks5_core.Client.Messages.{
  sent_len, write_auth_methods, write_auth_creds, write_request, read_auth_method, read_auth_creds,
  read_response,
}
use hev_socks5_core.Client.Request.{request_message, spent}
use hev_socks5_core.Client.Pipeline.{
  greeting, creds_of, Sends, then_try_inv, write_auth_methods-Sends, write_auth_creds-Sends,
  write_request-Sends, read_auth_method-out, read_response-out,
}
use hev_socks5_core.Client.Handshake.{
  ◌then_try◌, standard_auth, standard_request, standard_answered, handshake_standard,
}

-- the credentials, if the method asks for them
abbrev pub asked : ℤ → Bytes → Bytes
asked method creds = if is_pos method 2 then creds else []

module _ (host : Host) (c : Client) (t : Trace) where
  read_auth_creds-out :
      let (_, c', t') = read_auth_creds host c t in (c' ≡ c) × (outgoing c.fd t' ≡ outgoing c.fd t)
  unfolding read_auth_creds outgoing
  read_auth_creds-out = ground arith

module _ (host : Host) (c : Client) (t : Trace) where
  standard_auth-Sends :
      (method : ℤ)
      → is_neg (standard_auth host method c t).0 ≡ false
      → let (_, c', t') = standard_auth host method c t in
        Sends c t c' t' (asked method (creds_of c.auth_user c.auth_pass))
  unfolding standard_auth
  standard_auth-Sends method e = elim (Bool-cases (is_pos method 2)) [
    | inl u ↦
        let (_, c1, t1) = write_auth_creds host c t in
        let (same, out) = write_auth_creds-Sends host c t in
        let (_, run) =
          then_try_inv (write_auth_creds host) (read_auth_creds host) c t
            (rw (standard_auth, u) at e) in
        let (same', out') = read_auth_creds-out host c t1 in
        let to : standard_auth host method c t ≡ read_auth_creds host c t1 =
          rw (standard_auth, u) (run ∙ ap (λ x. read_auth_creds host x t1) same) in
        rw (to, u) (same', out' ∙ out)
    | inr u ↦ elim (Bool-cases (is_pos method 0)) [
      | inl n ↦ rw (standard_auth, u, n) (refl, sym (append-nil _))
      | inr n ↦ absurd (ground arith)
    ]
  ]

module _ (host : Host) (c : Client) (t : Trace) (a : Addr) (n : ℕ) (k : c.kind ≡ tcp)
    (v : c.variant ≡ tcp_client (some a)) (l : sent_len a ≡ some n) where
  standard_request-out :
      is_neg (standard_request host c t).0 ≡ false
      → outgoing c.fd (standard_request host c t).2 ≡ outgoing c.fd t ++ request_message 1 n a
  unfolding standard_request
  standard_request-out e =
      let after = read_response host then_try (λ d u. (pos 0, d, u)) in
      let (_, c1, t1) = write_request host c t in
      let (_, run) = then_try_inv (write_request host) after c t e in
      let (same, out) = write_request-Sends host c t a n k v l in
      let to : standard_request host c t ≡ after (spent c) t1 = run ∙ ap (λ x. after x t1) same in
      let (_, last) =
        then_try_inv (read_response host) (λ d u. (pos 0, d, u)) (spent c) t1 (rw to at e) in
      rw (to ∙ last) (read_response-out host (spent c) refl t1 ∙ out)

module _ (host : Host) (c : Client) (t : Trace) (a : Addr) (n : ℕ) (k : c.kind ≡ tcp)
    (v : c.variant ≡ tcp_client (some a)) (l : sent_len a ≡ some n) where
  standard_answered-out :
      is_neg (standard_answered host c t).0 ≡ false
      → let method = (read_auth_method host c t).0 in
        outgoing c.fd (standard_answered host c t).2
        ≡ (outgoing c.fd t ++ asked method (creds_of c.auth_user c.auth_pass))
          ++ request_message 1 n a
  unfolding standard_answered
  standard_answered-out e =
      let (method, c1, t1) = read_auth_method host c t in
      let (same, out) = read_auth_method-out host c t in
      elim (Bool-cases (is_neg method)) [
        | inl bad ↦ absurd (ground arith)
        | inr good ↦
            let after = standard_auth host method then_try standard_request host in
            let to : standard_answered host c t ≡ after c t1 =
              rw (standard_answered, good) (ap (λ x. after x t1) same) in
            let (_, c2, t2) = standard_auth host method c t1 in
            let (fine, run) =
              then_try_inv (standard_auth host method) (standard_request host) c t1 (rw to at e) in
            let (same', out') = standard_auth-Sends host c t1 method fine in
            let to' : standard_answered host c t ≡ standard_request host c t2 =
              to ∙ run ∙ ap (λ x. standard_request host x t2) same' in
            rw to' (
              standard_request-out host c t2 a n k v l (rw to' at e)
              ∙ ap (λ b. b ++ request_message 1 n a)
                  (out' ∙ ap (λ b. b ++ asked method (creds_of c.auth_user c.auth_pass)) out))
      ]

module _ (host : Host) (c : Client) (t : Trace) where
  -- For a TCP client that holds an address of a known type, of n bytes: if the handshake that waits
  -- for each answer returns 0, the bytes sent to the server are the message with the method, what
  -- hev_socks5_client_write_auth_creds makes of the name and the password if the server has chosen
  -- the method 2, and the request with the command CONNECT and the address, in this order.
  pub handshake_standard-out :
      (a : Addr) (n : ℕ)
      → c.kind ≡ tcp
      → c.variant ≡ tcp_client (some a)
      → sent_len a ≡ some n
      → is_neg (handshake_standard host c t).0 ≡ false
      → let method = (read_auth_method host c (write_auth_methods host c t).2).0 in
        outgoing c.fd (handshake_standard host c t).2
        ≡ ((outgoing c.fd t ++ greeting c) ++ asked method (creds_of c.auth_user c.auth_pass))
          ++ request_message 1 n a
  unfolding handshake_standard
  handshake_standard-out a n k v l e =
      let (_, c1, t1) = write_auth_methods host c t in
      let (_, run) = then_try_inv (write_auth_methods host) (standard_answered host) c t e in
      let (same, out) = write_auth_methods-Sends host c t in
      let to : handshake_standard host c t ≡ standard_answered host c t1 =
        run ∙ ap (λ x. standard_answered host x t1) same in
      let method = (read_auth_method host c t1).0 in
      rw to (
        standard_answered-out host c t1 a n k v l (rw to at e)
        ∙ ap (λ b. (b ++ asked method (creds_of c.auth_user c.auth_pass)) ++ request_message 1 n a)
            out)
