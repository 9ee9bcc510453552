-- ===== src/Session/Asked.antt =====
-- A client whose messages are taken, and that is answered.
use hev_socks5_core.Base.{
  ◌≡◌, refl, ◌∙◌, ap, sym, subst, true, Option, some, Bytes, [], ◌∷◌, ◌++◌, ℤ, pos, arith, drop,
  append_nil,
}
use hev_socks5_core.Host.{Host, Trace}
use hev_socks5_core.Wire.{consumed, outgoing, Streams}
use hev_socks5_core.Socks5.{Kind, no_type, tcp, udp_in_tcp, udp_in_udp}
use hev_socks5_core.Client.Defs.{Client, tcp_client, set_timeout}
use hev_socks5_core.Client.Request.{spent}
use hev_socks5_core.Client.Pipeline.{pipeline_answers-out}
use hev_socks5_core.Client.Handshake.{pipeline_answers, handshake_pipeline, settle, handshake}
use hev_socks5_core.Server.Defs.{Holder}
use hev_socks5_core.Session.Stream.{Stands}
use hev_socks5_core.Session.Accept.{Takes}
use hev_socks5_core.Session.Target.{Target, bytes_of, IsPlain, target-Shape}
use hev_socks5_core.Session.Agreed.{Agrees, without, by_password, welcome, offer}
use hev_socks5_core.Session.Offer.{handshake_pipeline-offers}
use hev_socks5_core.Session.Answers.{pipeline_answers-open, pipeline_answers-user}

-- nothing was read from the descriptor, and nothing was sent
abbrev pub Fresh : ℤ → Trace → Type 0
Fresh fd t = (consumed fd t ≡ 0) × (outgoing fd t ≡ [])

-- all that a client sends
abbrev pub messages : Client → Target → Bytes
messages c x = offer c ++ (5 ∷ 1 ∷ 0 ∷ bytes_of x)

-- all that a server answers
abbrev pub answers :
    {name pass : Option Bytes} {obj : Holder} → Agrees name pass obj → Target → Bytes
answers a x = welcome a ++ (5 ∷ 0 ∷ 0 ∷ bytes_of x)

module _ (host : Host) (c : Client) (takes : Takes host c.fd) (x : Target) (plain : IsPlain x)
    (k : c.kind ≡ tcp) (v : c.variant ≡ tcp_client (some (bytes_of x))) where
  handshake_pipeline-messages :
      (t : Trace)
      → outgoing c.fd t ≡ []
      → outgoing c.fd (handshake_pipeline host c t).2 ≡ messages c x
  handshake_pipeline-messages t o =
      let shape = target-Shape x plain in
      let (t1, run, (_, o1)) =
        handshake_pipeline-offers host [] c takes (bytes_of x) t _ [] k v shape.written (refl, o) in
      rw run (pipeline_answers-out host (spent c) refl t1 ∙ o1)

  pipeline_answers-agrees :
      (inbox : Bytes) (streams : Streams host c.fd inbox) (t : Trace) (out : Bytes) {obj : Holder}
      (a : Agrees c.auth_user c.auth_pass obj)
      → Stands c.fd inbox t (answers a x) out
      → (t' : Trace) × (pipeline_answers host (spent c) t ≡ (pos 0, spent c, t'))
        × Stands c.fd inbox t' [] out
  pipeline_answers-agrees inbox streams t out (without h e) (r, o) =
      let shape = target-Shape x plain in
      let body = shape.len ∷ shape.more in
      let same =
        ap (λ b. 5 ∷ 0 ∷ 5 ∷ 0 ∷ 0 ∷ b) (shape.form ∙ sym (append_nil (shape.ty ∷ body))) in
      pipeline_answers-open host inbox (spent c) streams t shape.ty body [] out refl shape.answered
        (r ∙ same, o)
  pipeline_answers-agrees inbox streams t out (by_password _ _ _ _ _ _ _ _ _) (r, o) =
      let shape = target-Shape x plain in
      let body = shape.len ∷ shape.more in
      let same =
        ap (λ b. 5 ∷ 2 ∷ 1 ∷ 0 ∷ 5 ∷ 0 ∷ 0 ∷ b) (shape.form ∙ sym (append_nil (shape.ty ∷ body))) in
      pipeline_answers-user host inbox (spent c) streams t shape.ty body [] out refl shape.answered
        (r ∙ same, o)

  pub handshake_pipeline-answered :
      (inbox : Bytes) (streams : Streams host c.fd inbox) (t : Trace) {obj : Holder}
      (a : Agrees c.auth_user c.auth_pass obj)
      → Stands c.fd inbox t (answers a x) []
      → (t' : Trace) × (handshake_pipeline host c t ≡ (pos 0, spent c, t'))
        × Stands c.fd inbox t' [] (messages c x)
  handshake_pipeline-answered inbox streams t a h =
      let shape = target-Shape x plain in
      let (t1, run, h1) =
        handshake_pipeline-offers host inbox c takes (bytes_of x) t (answers a x) [] k v
          shape.written h in
      let (t2, run', h2) = pipeline_answers-agrees inbox streams t1 (messages c x) a h1 in
      (t2, run ∙ run', h2)

settle_trace : (host : Host) (k : Kind) (c : Client) (t : Trace) → (settle host k c t).2 ≡ t
unfolding settle set_timeout
settle_trace host no_type c t = refl
settle_trace host tcp c t = refl
settle_trace host udp_in_tcp c t = refl
settle_trace host udp_in_udp c t = refl

pub set_timeout_fd : (n : ℤ) (c : Client) (t : Trace) → (set_timeout n c t).1.fd ≡ c.fd
unfolding set_timeout
set_timeout_fd n c t = ground arith

pub set_timeout_kind : (n : ℤ) (c : Client) (t : Trace) → (set_timeout n c t).1.kind ≡ c.kind
unfolding set_timeout
set_timeout_kind n c t = ground arith

module _ (host : Host) (c : Client) (takes : Takes host c.fd) (x : Target) (plain : IsPlain x)
    (k : c.kind ≡ tcp) (v : c.variant ≡ tcp_client (some (bytes_of x))) (t : Trace) where
  abbrev pub timed : Client
  timed = (set_timeout host.config.tcp_timeout c t).1

  handshake_trace : (handshake host true c t).2 ≡ (handshake_pipeline host timed t).2
  unfolding handshake set_timeout
  handshake_trace =
      let (res, c1, t1) = handshake_pipeline host timed t in settle_trace host c1.kind c1 t1

  pub handshake-messages :
      outgoing c.fd t ≡ [] → outgoing c.fd (handshake host true c t).2 ≡ messages c x
  unfolding set_timeout
  handshake-messages o =
      let same : timed.fd ≡ c.fd = set_timeout_fd host.config.tcp_timeout c t in
      let sends =
        handshake_pipeline-messages host timed (subst (Takes host) (sym same) takes) x plain
          (set_timeout_kind host.config.tcp_timeout c t ∙ k) v t
          (subst (λ fd. outgoing fd t ≡ []) (sym same) o) in
      rw handshake_trace
        (subst (λ fd. outgoing fd (handshake_pipeline host timed t).2 ≡ messages c x) same sends)

  pub handshake_runs :
      {t' : Trace}
      → handshake_pipeline host timed t ≡ (pos 0, spent timed, t')
      → handshake host true c t ≡ (pos 0, spent timed, t')
  unfolding handshake set_timeout settle
  handshake_runs {t'} run =
      let kind : timed.kind ≡ tcp = set_timeout_kind host.config.tcp_timeout c t ∙ k in
      rw (run, kind)

  pub handshake-answered :
      (inbox : Bytes) (streams : Streams host c.fd inbox) {obj : Holder}
      (a : Agrees c.auth_user c.auth_pass obj)
      → Stands c.fd inbox t (answers a x) []
      → (c' : Client) × (t' : Trace) × (handshake host true c t ≡ (pos 0, c', t'))
        × (drop (consumed c.fd t') inbox ≡ [])
  unfolding set_timeout
  handshake-answered inbox streams a h =
      let same : timed.fd ≡ c.fd = set_timeout_fd host.config.tcp_timeout c t in
      let (t', run, (left, _)) =
        handshake_pipeline-answered host timed (subst (Takes host) (sym same) takes) x plain
          (set_timeout_kind host.config.tcp_timeout c t ∙ k) v inbox
          (subst (λ fd. Streams host fd inbox) (sym same) streams) t a
          (subst (λ fd. Stands fd inbox t (answers a x) []) (sym same) h) in
      (
        spent timed,
        t',
        handshake_runs run,
        subst (λ fd. drop (consumed fd t') inbox ≡ []) same left,
      )
