-- ===== src/Session/Stream.antt =====
-- Where one side of a connection stands: what it has not yet read, and what it has sent.
use hev_socks5_core.Base.{ℕ, ◌≡◌, ap, ◌∷◌, ◌++◌, Bytes, ℤ, drop}
use hev_socks5_core.Host.{Trace, Host, received, got, sent}
use hev_socks5_core.Wire.{eq_ℤ_refl, consumed, outgoing, Streams, unread_after}

abbrev pub Stands : ℤ → Bytes → Trace → Bytes → Bytes → Type 0
Stands fd inbox t unread out = (drop (consumed fd t) inbox ≡ unread) × (outgoing fd t ≡ out)

module _ (host : Host) (fd : ℤ) (inbox : Bytes) (streams : Streams host fd inbox) where
  pub received-Stands :
      (t : Trace) (n : ℕ) (front rest out : Bytes)
      → Stands fd inbox t (front ++ rest) out
      → Stands fd inbox (received fd n (got front) ∷ t) rest out
  unfolding outgoing
  received-Stands t n front rest out (e, o) =
      (unread_after host fd inbox streams t n front rest e, o)

pub sent-Stands :
    (fd : ℤ) (inbox : Bytes) (t : Trace) (bytes unread out : Bytes) (r : ℤ)
    → Stands fd inbox t unread out
    → Stands fd inbox (sent fd bytes r ∷ t) unread (out ++ bytes)
unfolding outgoing consumed
sent-Stands fd inbox t bytes unread out r (e, o) = (e, rw (eq_ℤ_refl fd) (ap (λ b. b ++ bytes) o))
