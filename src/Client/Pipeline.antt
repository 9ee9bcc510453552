-- ===== src/Client/Pipeline.antt =====
-- The bytes that a pipelined handshake sends.
use mathlib.Core.List.{append-nil}
use hev_socks5_core.Base.{
  ℕ, ◌≡◌, refl, ◌∙◌, ap, sym, false, [], ◌∷◌, ◌++◌, Bytes, Option, none, some, ℤ, pos, is_neg,
  is_nonpos, arith, Option-cases, Bool-cases, inl, inr, get_or,
}
use hev_socks5_core.Host.{Host, Trace, M, exactly, received}
use hev_socks5_core.Wire.{eq_ℤ_refl, outgoing}
use hev_socks5_core.Misc.Addr.{Addr}
use hev_socks5_core.Socks5.{tcp}
use hev_socks5_core.Client.Defs.{Client, tcp_client}
use hev_socks5_core.Client.Upstream.{set_upstream_of, set_upstream_addr}
use hev_socks5_core.Client.Messages.{
  offered_method, creds_bytes, sent_len, response_len, send_all, write_auth_methods, send_creds,
  write_auth_creds, write_request, read_auth_method, read_auth_creds, read_bound_addr,
  read_response,
}
use hev_socks5_core.Client.Request.{request_message, spent, send_all-run, write_request-tcp}
use hev_socks5_core.Client.Handshake.{
  ◌then_try◌, pipeline_auth, pipeline_answers, handshake_pipeline,
}

-- the message with the method, and the one with the credentials if there are both
abbrev pub greeting : Client → Bytes
greeting c = 5 ∷ 1 ∷ offered_method c.auth_user c.auth_pass ∷ []

abbrev pub creds_of : Option Bytes → Option Bytes → Bytes
creds_of (some name) (some pass) = creds_bytes name pass
creds_of _ _ = []

-- from (c, t) to (c', t') these bytes are sent, and the object stays
abbrev pub Sends : Client → Trace → Client → Trace → Bytes → Type 0
Sends c t c' t' bytes = (c' ≡ c) × (outgoing c.fd t' ≡ outgoing c.fd t ++ bytes)

module _ (m : M Client ℤ) (rest : M Client ℤ) (c : Client) (t : Trace) where
  pub then_try_inv :
      is_neg ((m then_try rest) c t).0 ≡ false
      → (is_neg (m c t).0 ≡ false) × ((m then_try rest) c t ≡ rest (m c t).1 (m c t).2)
  then_try_inv e = elim (Bool-cases (is_neg (m c t).0)) [
    | inl bad ↦ absurd (ground arith)
    | inr good ↦ (good, rw good refl)
  ]

module _ (host : Host) (c : Client) (t : Trace) where
  send_all-Sends : (b : Bytes) → let (_, c', t') = send_all host b c t in Sends c t c' t' b
  unfolding outgoing
  send_all-Sends b = rw (send_all-run host c t b, eq_ℤ_refl c.fd) (refl, refl)

  send_creds-Sends :
      (name pass : Option Bytes)
      → let (_, c', t') = send_creds host name pass c t in Sends c t c' t' (creds_of name pass)
  unfolding send_creds
  send_creds-Sends (some name) (some pass) = send_all-Sends (creds_bytes name pass)
  send_creds-Sends (some name) none = (refl, sym (append-nil _))
  send_creds-Sends none pass = (refl, sym (append-nil _))

  pub write_auth_methods-Sends :
      let (_, c', t') = write_auth_methods host c t in Sends c t c' t' (greeting c)
  unfolding write_auth_methods
  write_auth_methods-Sends = send_all-Sends (greeting c)

  pub write_auth_creds-Sends :
      let (_, c', t') = write_auth_creds host c t in
      Sends c t c' t' (creds_of c.auth_user c.auth_pass)
  unfolding write_auth_creds
  write_auth_creds-Sends = send_creds-Sends c.auth_user c.auth_pass

  pub write_request-Sends :
      (a : Addr) (n : ℕ)
      → c.kind ≡ tcp
      → c.variant ≡ tcp_client (some a)
      → sent_len a ≡ some n
      → let (_, c', t') = write_request host c t in
        (c' ≡ spent c) × (outgoing c.fd t' ≡ outgoing c.fd t ++ request_message 1 n a)
  unfolding outgoing
  write_request-Sends a n k v l =
      elim (Bool-cases (is_nonpos (host.on_send t c.fd (request_message 1 n a)))) [
        | inl bad ↦ rw (write_request-tcp host c t a n k v l, bad, eq_ℤ_refl c.fd) (refl, refl)
        | inr good ↦ rw (write_request-tcp host c t a n k v l, good, eq_ℤ_refl c.fd) (refl, refl)
      ]

  pub read_auth_method-out :
      let (_, c', t') = read_auth_method host c t in (c' ≡ c) × (outgoing c.fd t' ≡ outgoing c.fd t)
  unfolding read_auth_method outgoing
  read_auth_method-out = ground arith

  pipeline_auth-out :
      (method : ℤ)
      → let (_, c', t') = pipeline_auth host method c t in
        (c' ≡ c) × (outgoing c.fd t' ≡ outgoing c.fd t)
  unfolding pipeline_auth read_auth_creds outgoing
  pipeline_auth-out method = ground arith

  pub set_upstream_addr-run :
      (a : Addr) → c.variant ≡ tcp_client none → set_upstream_addr host a c t ≡ (pos 0, c, t)
  unfolding set_upstream_addr set_upstream_of
  set_upstream_addr-run a v = rw v refl

-- the response of a client whose address was taken
module _ (host : Host) (c : Client) (v : c.variant ≡ tcp_client none) (t : Trace) where
  read_bound_addr-out : (h : Bytes) → outgoing c.fd (read_bound_addr host h c t).2 ≡ outgoing c.fd t
  unfolding read_bound_addr outgoing
  read_bound_addr-out h = elim (Option-cases (response_len (get_or h 3 0))) [
    | inl e ↦ rw (e, read_bound_addr) refl
    | inr (k, e) ↦
        let r = host.on_recv t c.fd k in
        elim (Option-cases (exactly k r)) [
          | inl x ↦ rw (e, read_bound_addr, x) (ground arith)
          | inr (b, x) ↦
              rw
                (
                  e,
                  read_bound_addr,
                  x,
                  set_upstream_addr-run host c (received c.fd k r ∷ t) (get_or h 3 0 ∷ b) v,
                )
                (ground arith)
        ]
  ]

module _ (host : Host) (c : Client) (v : c.variant ≡ tcp_client none) (t : Trace) where
  pub read_response-out : outgoing c.fd (read_response host c t).2 ≡ outgoing c.fd t
  unfolding read_response outgoing
  read_response-out =
      let r = host.on_recv t c.fd 4 in
      elim (Option-cases (exactly 4 r)) [
        | inl x ↦ rw (x, read_response) (ground arith)
        | inr (h, x) ↦
            rw (x, read_response)
              (ground (arith, read_bound_addr-out host c v (received c.fd 4 r ∷ t) h))
      ]

module _ (host : Host) (c : Client) (v : c.variant ≡ tcp_client none) (t : Trace) where
  pub pipeline_answers-out : outgoing c.fd (pipeline_answers host c t).2 ≡ outgoing c.fd t
  unfolding pipeline_answers
  pipeline_answers-out =
      let (method, c1, t1) = read_auth_method host c t in
      let (_, c2, t2) = pipeline_auth host method c1 t1 in
      let same1 = read_auth_method-out host c t in
      let same2 = pipeline_auth-out host c t1 method in
      ground (arith, same1, same2, read_response-out host c v t2)

module _ (host : Host) (c : Client) (t : Trace) where
  -- For a TCP client that holds an address of a known type, of n bytes: if the pipelined handshake
  -- returns 0, the bytes sent to the server are the message with the method, what
  -- hev_socks5_client_write_auth_creds makes of the name and the password, and the request with the
  -- command CONNECT and the address, in this order.
  pub handshake_pipeline-out :
      (a : Addr) (n : ℕ)
      → c.kind ≡ tcp
      → c.variant ≡ tcp_client (some a)
      → sent_len a ≡ some n
      → is_neg (handshake_pipeline host c t).0 ≡ false
      → outgoing c.fd (handshake_pipeline host c t).2
        ≡ ((outgoing c.fd t ++ greeting c) ++ creds_of c.auth_user c.auth_pass)
          ++ request_message 1 n a
  unfolding handshake_pipeline
  handshake_pipeline-out a n k v l e =
      let after2 = write_request host then_try pipeline_answers host in
      let after1 = write_auth_creds host then_try after2 in
      let (_, c1, t1) = write_auth_methods host c t in
      let (_, run1) = then_try_inv (write_auth_methods host) after1 c t e in
      let (same1, out1) = write_auth_methods-Sends host c t in
      let to1 : handshake_pipeline host c t ≡ after1 c t1 = run1 ∙ ap (λ x. after1 x t1) same1 in
      let (_, c2, t2) = write_auth_creds host c t1 in
      let (_, run2) = then_try_inv (write_auth_creds host) after2 c t1 (rw to1 at e) in
      let (same2, out2) = write_auth_creds-Sends host c t1 in
      let to2 : handshake_pipeline host c t ≡ after2 c t2 =
        to1 ∙ run2 ∙ ap (λ x. after2 x t2) same2 in
      let (_, c3, t3) = write_request host c t2 in
      let (_, run3) =
        then_try_inv (write_request host) (pipeline_answers host) c t2 (rw to2 at e) in
      let (same3, out3) = write_request-Sends host c t2 a n k v l in
      let to3 : handshake_pipeline host c t ≡ pipeline_answers host (spent c) t3 =
        to2 ∙ run3 ∙ ap (λ x. pipeline_answers host x t3) same3 in
      rw to3 (
        pipeline_answers-out host (spent c) refl t3
        ∙ out3
        ∙ ap (λ b. b ++ request_message 1 n a)
            (out2 ∙ ap (λ b. b ++ creds_of c.auth_user c.auth_pass) out1))
