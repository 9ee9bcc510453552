-- ===== src/Session/Answers.antt =====
-- A client that reads what a server answers.
use hev_socks5_core.Base.{ℕ, ◌≡◌, refl, none, some, Bytes, [], ◌∷◌, ◌++◌, pos, length}
use hev_socks5_core.Host.{Host, Trace, received, got}
use hev_socks5_core.Wire.{Streams, recv_front}
use hev_socks5_core.Client.Defs.{Client, tcp_client}
use hev_socks5_core.Client.Pipeline.{set_upstream_addr-run}
use hev_socks5_core.Client.Messages.{
  response_len, read_auth_method, read_auth_creds, read_bound_addr, read_response,
}
use hev_socks5_core.Client.Handshake.{pipeline_answers, pipeline_auth}
use hev_socks5_core.Server.Decode.{exactly-length}
use hev_socks5_core.Session.Stream.{Stands, received-Stands}

module _ (host : Host) (inbox : Bytes) (c : Client) (streams : Streams host c.fd inbox) where
  pub read_auth_method-Stands :
      (t : Trace) (m : ℕ) (rest out : Bytes)
      → Stands c.fd inbox t (5 ∷ m ∷ rest) out
      → (t' : Trace) × (read_auth_method host c t ≡ (pos m, c, t')) × Stands c.fd inbox t' rest out
  unfolding read_auth_method
  read_auth_method-Stands t m rest out h =
      let e = recv_front host c.fd inbox streams t (5 ∷ m ∷ []) rest h.0 in
      (
        received c.fd 2 (got (5 ∷ m ∷ [])) ∷ t,
        rw (e, read_auth_method),
        received-Stands host c.fd inbox streams t 2 (5 ∷ m ∷ []) rest out h,
      )

  pub read_auth_creds-Stands :
      (t : Trace) (rest out : Bytes)
      → Stands c.fd inbox t (1 ∷ 0 ∷ rest) out
      → (t' : Trace) × (read_auth_creds host c t ≡ (pos 0, c, t')) × Stands c.fd inbox t' rest out
  unfolding read_auth_creds
  read_auth_creds-Stands t rest out h =
      let e = recv_front host c.fd inbox streams t (1 ∷ 0 ∷ []) rest h.0 in
      (
        received c.fd 2 (got (1 ∷ 0 ∷ [])) ∷ t,
        rw (e, read_auth_creds),
        received-Stands host c.fd inbox streams t 2 (1 ∷ 0 ∷ []) rest out h,
      )

  pub read_response-Stands :
      (t : Trace) (ty : ℕ) (more rest out : Bytes)
      → c.variant ≡ tcp_client none
      → response_len ty ≡ some (length more)
      → Stands c.fd inbox t (5 ∷ 0 ∷ 0 ∷ ty ∷ (more ++ rest)) out
      → (t' : Trace) × (read_response host c t ≡ (pos 0, c, t')) × Stands c.fd inbox t' rest out
  unfolding read_response read_bound_addr
  read_response-Stands t ty more rest out v l h =
      let e = recv_front host c.fd inbox streams t (5 ∷ 0 ∷ 0 ∷ ty ∷ []) (more ++ rest) h.0 in
      let t1 : Trace = received c.fd 4 (got (5 ∷ 0 ∷ 0 ∷ ty ∷ [])) ∷ t in
      let h1 =
        received-Stands host c.fd inbox streams t 4 (5 ∷ 0 ∷ 0 ∷ ty ∷ []) (more ++ rest) out h in
      let e1 = recv_front host c.fd inbox streams t1 more rest h1.0 in
      let t2 : Trace = received c.fd (length more) (got more) ∷ t1 in
      let sets = set_upstream_addr-run host c t2 (ty ∷ more) v in
      let bound : read_bound_addr host (5 ∷ 0 ∷ 0 ∷ ty ∷ []) c t1 ≡ (pos 0, c, t2) =
        rw (l, read_bound_addr, e1, exactly-length more, sets) refl in
      (t2, rw e bound, received-Stands host c.fd inbox streams t1 (length more) more rest out h1)

  -- the method 0, or the method 2 with a check that has succeeded, and the reply
  pub pipeline_answers-open :
      (t : Trace) (ty : ℕ) (more rest out : Bytes)
      → c.variant ≡ tcp_client none
      → response_len ty ≡ some (length more)
      → Stands c.fd inbox t (5 ∷ 0 ∷ 5 ∷ 0 ∷ 0 ∷ ty ∷ (more ++ rest)) out
      → (t' : Trace) × (pipeline_answers host c t ≡ (pos 0, c, t')) × Stands c.fd inbox t' rest out
  unfolding pipeline_answers pipeline_auth
  pipeline_answers-open t ty more rest out v l h =
      let reply = 5 ∷ 0 ∷ 0 ∷ ty ∷ (more ++ rest) in
      let (t1, run1, h1) = read_auth_method-Stands t 0 reply out h in
      let (t2, run2, h2) = read_response-Stands t1 ty more rest out v l h1 in
      (t2, rw (run1, pipeline_answers, run2), h2)

  pub pipeline_answers-user :
      (t : Trace) (ty : ℕ) (more rest out : Bytes)
      → c.variant ≡ tcp_client none
      → response_len ty ≡ some (length more)
      → Stands c.fd inbox t (5 ∷ 2 ∷ 1 ∷ 0 ∷ 5 ∷ 0 ∷ 0 ∷ ty ∷ (more ++ rest)) out
      → (t' : Trace) × (pipeline_answers host c t ≡ (pos 0, c, t')) × Stands c.fd inbox t' rest out
  unfolding pipeline_answers pipeline_auth
  pipeline_answers-user t ty more rest out v l h =
      let reply = 5 ∷ 0 ∷ 0 ∷ ty ∷ (more ++ rest) in
      let (t1, run1, h1) = read_auth_method-Stands t 2 (1 ∷ 0 ∷ reply) out h in
      let (t2, run2, h2) = read_auth_creds-Stands t1 reply out h1 in
      let (t3, run3, h3) = read_response-Stands t2 ty more rest out v l h2 in
      (t3, rw (run1, pipeline_answers, run2, run3), h3)
