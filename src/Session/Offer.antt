-- ===== src/Session/Offer.antt =====
-- A client whose messages are taken.
use hev_socks5_core.Base.{
  ℕ, ◌≡◌, refl, ◌∙◌, sym, none, some, Bytes, Option, ◌∷◌, ◌++◌, pos, length, drop, append_nil,
  take_all, arith,
}
use hev_socks5_core.Host.{Host, Trace, sent, freed}
use hev_socks5_core.Wire.{consumed, outgoing}
use hev_socks5_core.Misc.Addr.{Addr}
use hev_socks5_core.Socks5.{tcp}
use hev_socks5_core.Client.Defs.{Client, tcp_client}
use hev_socks5_core.Client.Messages.{
  sent_len, send_all, write_auth_methods, send_creds, write_auth_creds, write_request, creds_bytes,
}
use hev_socks5_core.Client.Request.{spent, send_all-run, write_request-tcp}
use hev_socks5_core.Client.Pipeline.{greeting, creds_of}
use hev_socks5_core.Client.Handshake.{pipeline_answers, handshake_pipeline}
use hev_socks5_core.Session.Stream.{Stands, sent-Stands}
use hev_socks5_core.Session.Accept.{Takes}

module _ (host : Host) (inbox : Bytes) (c : Client) (takes : Takes host c.fd) where
  pub send_all-Stands :
      (t : Trace) (b : ℕ) (bs unread out : Bytes)
      → Stands c.fd inbox t unread out
      → (t' : Trace) × (send_all host (b ∷ bs) c t ≡ (pos 0, c, t'))
        × Stands c.fd inbox t' unread (out ++ (b ∷ bs))
  send_all-Stands t b bs unread out h =
      let bytes = b ∷ bs in
      let r = host.on_send t c.fd bytes in
      (
        sent c.fd bytes r ∷ t,
        rw (send_all-run host c t bytes, takes t b bs),
        sent-Stands c.fd inbox t bytes unread out r h,
      )

  pub send_creds-Stands :
      (name pass : Option Bytes) (t : Trace) (unread out : Bytes)
      → Stands c.fd inbox t unread out
      → (t' : Trace) × (send_creds host name pass c t ≡ (pos 0, c, t'))
        × Stands c.fd inbox t' unread (out ++ creds_of name pass)
  unfolding send_creds creds_bytes
  send_creds-Stands (some name) (some pass) t unread out h =
      send_all-Stands t 1 (drop 1 (creds_bytes name pass)) unread out h
  send_creds-Stands (some name) none t unread out (e, o) = (t, refl, (e, o ∙ sym (append_nil out)))
  send_creds-Stands none pass t unread out (e, o) = (t, refl, (e, o ∙ sym (append_nil out)))

  pub write_request-Stands :
      (a : Addr) (t : Trace) (unread out : Bytes)
      → c.kind ≡ tcp
      → c.variant ≡ tcp_client (some a)
      → sent_len a ≡ some (length a)
      → Stands c.fd inbox t unread out
      → (t' : Trace) × (write_request host c t ≡ (pos 0, spent c, t'))
        × Stands c.fd inbox t' unread (out ++ (5 ∷ 1 ∷ 0 ∷ a))
  unfolding consumed outgoing
  write_request-Stands a t unread out k v l h =
      let whole = take_all a (length a) (omega arith) in
      let run = write_request-tcp host c t a (length a) k v l in
      let r = host.on_send t c.fd (5 ∷ 1 ∷ 0 ∷ a) in
      (
        freed ∷ sent c.fd (5 ∷ 1 ∷ 0 ∷ a) r ∷ t,
        rw (run, whole, takes t 5 (1 ∷ 0 ∷ a)),
        sent-Stands c.fd inbox t (5 ∷ 1 ∷ 0 ∷ a) unread out r h,
      )

  -- The three messages of a pipelined handshake are sent, and then the answers are read.
  pub handshake_pipeline-offers :
      (a : Addr) (t : Trace) (unread out : Bytes)
      → c.kind ≡ tcp
      → c.variant ≡ tcp_client (some a)
      → sent_len a ≡ some (length a)
      → Stands c.fd inbox t unread out
      → (t' : Trace) × (handshake_pipeline host c t ≡ pipeline_answers host (spent c) t')
        × Stands c.fd inbox t' unread
            (((out ++ greeting c) ++ creds_of c.auth_user c.auth_pass) ++ (5 ∷ 1 ∷ 0 ∷ a))
  unfolding handshake_pipeline write_auth_methods write_auth_creds
  handshake_pipeline-offers a t unread out k v l h =
      let (t1, run1, h1) = send_all-Stands t 5 (drop 1 (greeting c)) unread out h in
      let (t2, run2, h2) =
        send_creds-Stands c.auth_user c.auth_pass t1 unread (out ++ greeting c) h1 in
      let (t3, run3, h3) =
        write_request-Stands a t2 unread ((out ++ greeting c) ++ creds_of c.auth_user c.auth_pass) k
          v l h2 in
      (t3, rw (run1, handshake_pipeline, run2, run3), h3)
