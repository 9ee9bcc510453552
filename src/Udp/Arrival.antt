-- ===== src/Udp/Arrival.antt =====
-- The header of a datagram is read off a connection whole, however the stream is cut into pieces.
use hev_socks5_core.Base.{
  ℕ, ◌+◌, ◌-◌, ◌≤◌, ◌<◌, ◌≡◌, refl, sym, ap, ◌∙◌, Bool, true, false, [], ◌∷◌, ◌++◌, Bytes, ℤ, pos,
  arith, length, take, drop, take-drop-append, length-drop, length-take, append_assoc, append_nil,
  take-front, length-append, inl, inr, ◌⊎◌, ltb, ◌&&◌,
}
use hev_socks5_core.Host.{Host, Trace, got, failed, received}
use hev_socks5_core.Wire.{Streams, consumed, recv_front, unread_after}
use hev_socks5_core.Socks5.{Socks5}
use hev_socks5_core.Udp.Defs.{waits}
use hev_socks5_core.Udp.Waiting.{waits-Waited}
use hev_socks5_core.Udp.Recv.{joined, read_rest, read_head}

-- A read that does not wait for all of its bytes returns some of the next ones, at least one of them
-- where there are any. Where there are none, it returns none (the peer has closed), or it fails (with
-- EAGAIN where it does not block, or else as the connection or the yielder does).
abbrev pub Arrives : Host → Bool → ℤ → Bytes → Type 0
Arrives host nonblock fd inbox =
    (t : Trace) (n : ℕ)
    → 0 < n
    → ((k : ℕ) × (0 < k)
        × (k ≤ n)
        × (host.on_recv_some t nonblock fd n ≡ got (take k (drop (consumed fd t) inbox))))
      ⊎ ((drop (consumed fd t) inbox ≡ [])
          × (m : ℕ) × (host.on_recv_some t nonblock fd n ≡ failed m))

module _ (host : Host) (fd : ℤ) (inbox : Bytes) (streams : Streams host fd inbox) where
  pub unread_waits :
      (o : Socks5) (t : Trace) (b : Bytes)
      → drop (consumed fd t) inbox ≡ b
      → drop (consumed fd (waits host o t).2) inbox ≡ b
  unread_waits o t b e = ap (λ k. drop k inbox) ((waits-Waited host fd o t).4) ∙ e

  read_rest-front :
      (o : Socks5) (t : Trace) (head more rest : Bytes)
      → 0 < length head
      → length head + length more ≡ 5
      → drop (consumed fd t) inbox ≡ more ++ rest
      → let (r, _, t') = read_rest host fd head o t in
        (r ≡ (pos 5, head ++ more)) × (drop (consumed fd t') inbox ≡ rest)
  unfolding read_rest joined
  read_rest-front o t head [] rest p l e =
      let n : length head ≡ 5 = omega arith in
      let b : ltb 0 (length head) && ltb (length head) 5 ≡ false = ground arith in
      rw (b, n, append_nil head) (refl, e)
  read_rest-front o t head (x ∷ more) rest p l e =
      let (_, o1, t1) = waits host o t in
      let e1 = unread_waits o t ((x ∷ more) ++ rest) e in
      let n : 5 - length head ≡ length (x ∷ more) = omega arith in
      let r = recv_front host fd inbox streams t1 (x ∷ more) rest e1 in
      let u = unread_after host fd inbox streams t1 (length (x ∷ more)) (x ∷ more) rest e1 in
      let b : ltb 0 (length head) && ltb (length head) 5 ≡ true = ground arith in
      rw (b, n, r) (ap (λ k. (pos k, head ++ (x ∷ more))) l, u)

  -- The next 5 bytes are read, in one or in two pieces.
  pub read_head-front :
      (nonblock : Bool)
      → Arrives host nonblock fd inbox
      → (o : Socks5) (t : Trace) (head rest : Bytes) → length head ≡ 5
      → drop (consumed fd t) inbox ≡ head ++ rest
      → let (r, _, t') = read_head host nonblock fd o t in
        (r ≡ (pos 5, head)) × (drop (consumed fd t') inbox ≡ rest)
  unfolding read_head
  read_head-front nonblock arrives o t head rest l e =
      let (_, o1, t1) = waits host o t in
      let e1 = unread_waits o t (head ++ rest) e in
      elim (arrives t1 5 (omega arith)) [
        | inr (empty, m, f) ↦
            absurd (omega (arith, ap length (sym e1 ∙ empty), length-append head rest))
        | inl (k, p, q, a) ↦
            let front : take k (drop (consumed fd t1) inbox) ≡ take k head =
              ap (take k) e1 ∙ take-front k head rest (omega arith) in
            let cut : drop (consumed fd t1) inbox ≡ take k head ++ (drop k head ++ rest) =
              e1
              ∙ ap (λ h. h ++ rest) (sym (take-drop-append k head))
              ∙ append_assoc (take k head) (drop k head) rest in
            let u =
              unread_after host fd inbox streams t1 5 (take k head) (drop k head ++ rest) cut in
            let lt : length (take k head) ≡ k = length-take k head (omega arith) in
            let ld = length-drop k head (omega arith) in
            let (r, v) =
              read_rest-front o1 (received fd 5 (got (take k head)) ∷ t1) (take k head)
                (drop k head) rest (omega arith) (omega arith) u in
            rw (a, front) (r ∙ ap (λ h. (pos 5, h)) (take-drop-append k head), v)
      ]
