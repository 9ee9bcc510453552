-- ===== src/Client/Lifetime.antt =====
-- The descriptors over the lifetime of a client: hev_socks5_client_connect,
-- hev_socks5_client_handshake, and at the end the destructors.
use hev_socks5_core.Base.{
  ℕ, ◌+◌, ◌≡◌, refl, true, false, ◌∷◌, Bytes, none, some, ℤ, pos, minus_one, arith, Option-cases,
  inl, inr, get_or, Bool,
}
use hev_socks5_core.Host.{Host, Sockaddr, Trace, exactly, received}
use hev_socks5_core.Sockets.{opens, closes}
use hev_socks5_core.Misc.Addr.{Addr}
use hev_socks5_core.Misc.Resolve.{name_into_sockaddr6}
use hev_socks5_core.Socks5.{Kind, no_type, tcp, udp_in_tcp, udp_in_udp}
use hev_socks5_core.Server.Descriptors.{is_fd}
use hev_socks5_core.Server.Lifetime.{drop_open-counts}
use hev_socks5_core.Client.Descriptors.{
  resolver-counts, client_stream_self, variant_fd, client_held, ClientBalanced,
  udp_connect-Balanced, client_connect-Balanced,
}
use hev_socks5_core.Client.Steady.{
  Steady, write_auth_methods-Steady, write_auth_creds-Steady, write_request-Steady,
  read_auth_method-Steady, read_auth_creds-Steady,
}
use hev_socks5_core.Client.Defs.{
  Client, Variant, tcp_client, udp_client, destruct_variant, destruct, set_timeout, set_addr_family,
}
use hev_socks5_core.Client.Upstream.{give_up, udp_set_upstream, set_upstream_of, set_upstream_addr}
use hev_socks5_core.Misc.Addr.{zero_sockaddr}
use hev_socks5_core.Client.Messages.{
  response_len, write_auth_methods, write_auth_creds, write_request, read_auth_method,
  read_bound_addr, read_response,
}
use hev_socks5_core.Client.Handshake.{
  set_fd, connect_to, client_connect, standard_auth, handshake_standard, standard_answered,
  standard_request, pipeline_auth, handshake_pipeline, pipeline_answers, settle, handshake,
}

module _ (host : Host) (n : ℕ) (c : Client) (t : Trace) where
  udp_set_upstream-Balanced :
      (kind : Kind) (a : Addr)
      → variant_fd c.variant ≡ minus_one
      → let (_, c', t') = udp_set_upstream host kind a c t in ClientBalanced n c t c' t'
  unfolding udp_set_upstream
  udp_set_upstream-Balanced no_type a h = refl
  udp_set_upstream-Balanced tcp a h = refl
  udp_set_upstream-Balanced udp_in_tcp a h = refl
  udp_set_upstream-Balanced udp_in_udp a h = udp_connect-Balanced host n c t a h

  set_upstream_of-Balanced :
      (v : Variant) (kind : Kind) (a : Addr)
      → variant_fd c.variant ≡ minus_one
      → let (_, c', t') = set_upstream_of host v kind a c t in ClientBalanced n c t c' t'
  unfolding set_upstream_of
  set_upstream_of-Balanced (tcp_client b) kind a h = refl
  set_upstream_of-Balanced (udp_client fd) kind a h = udp_set_upstream-Balanced kind a h

module _ (host : Host) (n : ℕ) (c : Client) (t : Trace) where
  read_bound_addr-Balanced :
      (head : Bytes)
      → variant_fd c.variant ≡ minus_one
      → let (_, c', t') = read_bound_addr host head c t in ClientBalanced n c t c' t'
  unfolding read_bound_addr set_upstream_addr opens closes
  read_bound_addr-Balanced head h = elim (Option-cases (response_len (get_or head 3 0))) [
    | inl e ↦ rw (e, read_bound_addr) refl
    | inr (k, e) ↦
        let r = host.on_recv t c.fd k in
        elim (Option-cases (exactly k r)) [
          | inl x ↦ rw (e, read_bound_addr, x) (ground arith)
          | inr (b, x) ↦
              rw (e, read_bound_addr, x)
                (ground (
                  arith,
                  set_upstream_of-Balanced host n c (received c.fd k r ∷ t) c.variant c.kind
                      (get_or head 3 0 ∷ b) h,
                ))
        ]
  ]

module _ (host : Host) (n : ℕ) (c : Client) (t : Trace) where
  read_response-Balanced :
      variant_fd c.variant ≡ minus_one
      → let (_, c', t') = read_response host c t in ClientBalanced n c t c' t'
  unfolding read_response opens closes
  read_response-Balanced h =
      let r = host.on_recv t c.fd 4 in
      elim (Option-cases (exactly 4 r)) [
        | inl x ↦ rw (x, read_response) (ground arith)
        | inr (head, x) ↦
            rw (x, read_response)
              (ground (arith, read_bound_addr-Balanced host n c (received c.fd 4 r ∷ t) head h))
      ]

-- the steps of either order up to the response
module _ (host : Host) (n : ℕ) (c : Client) (t : Trace) where
  standard_auth-Steady :
      (method : ℤ) → let (_, c', t') = standard_auth host method c t in Steady n c t c' t'
  unfolding standard_auth
  standard_auth-Steady method =
      let (_, c1, t1) = write_auth_creds host c t in
      ground (arith, write_auth_creds-Steady host n c t, read_auth_creds-Steady host n c1 t1)

  pipeline_auth-Steady :
      (method : ℤ) → let (_, c', t') = pipeline_auth host method c t in Steady n c t c' t'
  unfolding pipeline_auth
  pipeline_auth-Steady method = ground (arith, read_auth_creds-Steady host n c t)

module _ (host : Host) (n : ℕ) (c : Client) (t : Trace)
    (fresh : variant_fd c.variant ≡ minus_one) where
  handshake_standard-Balanced :
      let (_, c', t') = handshake_standard host c t in ClientBalanced n c t c' t'
  unfolding handshake_standard standard_answered standard_request
  handshake_standard-Balanced =
      let (_, c1, t1) = write_auth_methods host c t in
      let (method, c2, t2) = read_auth_method host c1 t1 in
      let (_, c3, t3) = standard_auth host method c2 t2 in
      let (_, c4, t4) = write_request host c3 t3 in
      ground (
        arith,
        write_auth_methods-Steady host n c t,
        read_auth_method-Steady host n c1 t1,
        standard_auth-Steady host n c2 t2 method,
        write_request-Steady host n c3 t3,
        read_response-Balanced host n c4 t4,
      )

  handshake_pipeline-Balanced :
      let (_, c', t') = handshake_pipeline host c t in ClientBalanced n c t c' t'
  unfolding handshake_pipeline pipeline_answers
  handshake_pipeline-Balanced =
      let (_, c1, t1) = write_auth_methods host c t in
      let (_, c2, t2) = write_auth_creds host c1 t1 in
      let (_, c3, t3) = write_request host c2 t2 in
      let (method, c4, t4) = read_auth_method host c3 t3 in
      let (_, c5, t5) = pipeline_auth host method c4 t4 in
      ground (
        arith,
        write_auth_methods-Steady host n c t,
        write_auth_creds-Steady host n c1 t1,
        write_request-Steady host n c2 t2,
        read_auth_method-Steady host n c3 t3,
        pipeline_auth-Steady host n c4 t4 method,
        read_response-Balanced host n c5 t5,
      )

module _ (host : Host) (n : ℕ) (c : Client) (t : Trace) where
  settle-kept :
      (kind : Kind)
      → let (_, c', t') = settle host kind c t in
        (c'.fd ≡ c.fd) × (c'.variant ≡ c.variant) × (t' ≡ t)
  unfolding settle set_timeout
  settle-kept no_type = (refl, refl, refl)
  settle-kept tcp = (refl, refl, refl)
  settle-kept udp_in_tcp = ground arith
  settle-kept udp_in_udp = ground arith

  destruct_variant-counts :
      (v : Variant)
      → let (_, _, t') = destruct_variant v c t in
        (opens (pos n) t' ≡ opens (pos n) t)
        × (closes (pos n) t' ≡ closes (pos n) t + is_fd n (variant_fd v))
  unfolding destruct_variant opens closes
  destruct_variant-counts (tcp_client none) = (refl, omega arith)
  destruct_variant-counts (tcp_client (some a)) = (refl, omega arith)
  destruct_variant-counts (udp_client fd) = drop_open-counts n fd c t

module _ (host : Host) (n : ℕ) (c : Client) (t : Trace) where
  handshake-Balanced :
      (pipeline : Bool)
      → variant_fd c.variant ≡ minus_one
      → let (_, c', t') = handshake host pipeline c t in ClientBalanced n c t c' t'
  unfolding handshake set_timeout
  handshake-Balanced true h =
      let (_, c0, _) = set_timeout host.config.tcp_timeout c t in
      let (_, c1, t1) = handshake_pipeline host c0 t in
      ground (arith, handshake_pipeline-Balanced host n c0 t h, settle-kept host n c1 t1 c1.kind)
  handshake-Balanced false h =
      let (_, c0, _) = set_timeout host.config.tcp_timeout c t in
      let (_, c1, t1) = handshake_standard host c0 t in
      ground (arith, handshake_standard-Balanced host n c0 t h, settle-kept host n c1 t1 c1.kind)

  destruct-counts :
      let (_, _, t') = destruct c t in
      (opens (pos n) t' ≡ opens (pos n) t)
      × (closes (pos n) t' ≡ closes (pos n) t + client_held n c)
  unfolding destruct
  destruct-counts =
      let (_, c1, t1) = destruct_variant c.variant c t in
      ground (arith, destruct_variant-counts host n c t c.variant, drop_open-counts n c.fd c1 t1)

  connect_to-variant :
      (sa : Sockaddr) (family : ℕ) → (connect_to host sa family c t).1.variant ≡ c.variant
  unfolding connect_to set_fd set_addr_family give_up
  connect_to-variant sa family = ground (arith, client_stream_self host n c t)

module _ (host : Host) (n : ℕ) (c : Client) (t : Trace) where
  client_connect-variant :
      (addr : Bytes) (port : ℕ) → (client_connect host addr port c t).1.variant ≡ c.variant
  unfolding client_connect set_timeout
  client_connect-variant addr port =
      let (_, c0, _) = set_timeout host.config.connect_timeout c t in
      let answer = name_into_sockaddr6 host addr port zero_sockaddr c0.addr_family c0 t in
      let ((res, sa, family), c1, t1) = answer in
      ground (
        arith,
        resolver-counts host n c0 t addr port zero_sockaddr c0.addr_family,
        connect_to-variant host n c1 t1 sa family,
      )

-- A client that holds no descriptor is run through hev_socks5_client_connect and, whatever that
-- returns, through hev_socks5_client_handshake in either order, whatever the outside answers. If it
-- is destroyed after the first or after the second of these calls, every descriptor has been closed
-- as often as it has been opened since the start.
pub connect-handshake-destruct :
    (host : Host) (n : ℕ) (c : Client) (t : Trace) (addr : Bytes) (port : ℕ) (pipeline : Bool)
    → c.fd ≡ minus_one
    → variant_fd c.variant ≡ minus_one
    → let (_, c1, t1) = client_connect host addr port c t in
      let (_, c2, t2) = handshake host pipeline c1 t1 in
      let (_, _, u1) = destruct c1 t1 in
      let (_, _, u2) = destruct c2 t2 in
      (closes (pos n) u1 + opens (pos n) t ≡ closes (pos n) t + opens (pos n) u1)
      × (closes (pos n) u2 + opens (pos n) t ≡ closes (pos n) t + opens (pos n) u2)
connect-handshake-destruct host n c t addr port pipeline h k =
    let (_, c1, t1) = client_connect host addr port c t in
    let (_, c2, t2) = handshake host pipeline c1 t1 in
    let none_held : client_held n c ≡ 0 = rw (h, k) (omega arith) in
    let connecting = client_connect-Balanced host n c t addr port h in
    let same = client_connect-variant host n c t addr port in
    let shaking = handshake-Balanced host n c1 t1 pipeline (rw same k) in
    let end1 = destruct-counts host n c1 t1 in
    let end2 = destruct-counts host n c2 t2 in
    ground (arith, none_held, connecting, shaking, end1, end2)
