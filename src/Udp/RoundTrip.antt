-- ===== src/Udp/RoundTrip.antt =====
-- Datagrams that were written to a connection are read off it again.
use hev_socks5_core.Base.{
  ℕ, suc, ◌+◌, ◌-◌, ◌<◌, ◌≡◌, refl, ap, ◌∙◌, Bool, none, some, List, [], ◌∷◌, ◌++◌, Bytes, ℤ, pos,
  arith, length, take, drop, length-append, inl, inr, ◌⊎◌, negsuc, Option-cases, ==_refl, ltb, true,
  take_nil,
}
use hev_socks5_core.Host.{Host, Trace, got}
use hev_socks5_core.Wire.{Streams, consumed, recv_front, unread_after}
use hev_socks5_core.Socks5.{Socks5, udp_in_tcp}
use hev_socks5_core.Misc.Bytes16.{htons_bytes}
use hev_socks5_core.Udp.Defs.{UdpIface, Msg, Datagram, waits}
use hev_socks5_core.Udp.Recv.{read_head}
use hev_socks5_core.Udp.Send.{frame_tcp, stream_of}
use hev_socks5_core.Udp.Recv.{
  result, fill, complete, read_rest, read_body, recv_one, recv_loop, recvmmsg_tcp,
}
use hev_socks5_core.Udp.RecvUdp.{recv_as, udp_recvmmsg}
use hev_socks5_core.Udp.Arrival.{Arrives, unread_waits, read_head-front}
use hev_socks5_core.Udp.Framing.{
  Fits, Carries, addr_len_min, addr-cut, frame_tcp-cut, sizes_of-cut, complete-Carries,
}

module _ (host : Host) (fd : ℤ) (inbox : Bytes) (streams : Streams host fd inbox) where
  read_body-front :
      (o : Socks5) (t : Trace) (head : Bytes) (m : Msg) (addrlen datlen : ℕ) (body rest : Bytes)
      → length body ≡ addrlen - 2 + datlen
      → drop (consumed fd t) inbox ≡ body ++ rest
      → let (r, _, t') = read_body host fd head m addrlen datlen o t in
        (r ≡ (none, complete (fill m (got body)) head addrlen datlen))
        × (drop (consumed fd t') inbox ≡ rest)
  unfolding read_body result
  read_body-front o t head m addrlen datlen body rest l e =
      let (_, o1, t1) = waits host o t in
      let e1 = unread_waits host fd inbox streams o t (body ++ rest) e in
      let r = recv_front host fd inbox streams t1 body rest e1 in
      let u = unread_after host fd inbox streams t1 (length body) body rest e1 in
      rw (← l, r, ==_refl (length body)) (refl, u)

  recv_one-frame :
      (nonblock : Bool)
      → Arrives host nonblock fd inbox
      → (o : Socks5) (t : Trace) (rlen : ℕ) (m : Msg) (d : Datagram) (f rest : Bytes) → Fits m d
      → frame_tcp d ≡ some f
      → drop (consumed fd t) inbox ≡ f ++ rest
      → let ((done, m'), _, t') = recv_one host nonblock fd rlen m o t in
        (done ≡ none) × Carries m' d × (drop (consumed fd t') inbox ≡ rest)
  unfolding recv_one
  recv_one-frame nonblock arrives o t rlen m d f rest (n, en, ln, small, short, room, block, w) ef
        e =
      let (a0, a1, more, c, lm) = addr-cut d.addr n en ln in
      let head : Bytes = htons_bytes (length d.payload) ++ ((3 + n) ∷ a0 ∷ a1 ∷ []) in
      let whole = frame_tcp-cut d n a0 a1 more en small c in
      let is : f ≡ head ++ (more ++ d.payload) = cc in
      let cut : drop (consumed fd t) inbox ≡ head ++ ((more ++ d.payload) ++ rest) =
        e ∙ ap (λ b. b ++ rest) is in
      let (_, o1, t1) = read_head host nonblock fd o t in
      let (r, u) =
        read_head-front host fd inbox streams nonblock arrives o t head
          ((more ++ d.payload) ++ rest) refl cut in
      let s =
        sizes_of-cut m.len n (length d.payload) a0 a1 (addr_len_min d.addr n en) short room w in
      let lb = length-append more d.payload in
      let (rb, ub) =
        read_body-front o1 t1 head m n (length d.payload) (more ++ d.payload) rest (omega arith)
          u in
      rw (recv_one, r, s, r, rb)
        (refl, complete-Carries m d _ _ _ a0 a1 n more en c lm (omega arith), ub)

-- each datagram fits the message at its place, and each is carried by it
abbrev pub AllFit : List Msg → List Datagram → Type 0
AllFit ms [] = Unit {0}
AllFit [] (d ∷ ds) = ⊥
AllFit (m ∷ ms) (d ∷ ds) = Fits m d × AllFit ms ds

abbrev pub AllCarry : List Msg → List Datagram → Type 0
AllCarry ms [] = Unit {0}
AllCarry [] (d ∷ ds) = ⊥
AllCarry (m ∷ ms) (d ∷ ds) = Carries m d × AllCarry ms ds

module _ (host : Host) (fd : ℤ) (inbox : Bytes) (streams : Streams host fd inbox) where
  read_head-end :
      (nonblock : Bool)
      → Arrives host nonblock fd inbox
      → (o : Socks5) (t : Trace) → drop (consumed fd t) inbox ≡ []
      → let r = (read_head host nonblock fd o t).0 in
        (r ≡ (pos 0, [])) ⊎ ((m : ℕ) × (r ≡ (negsuc m, [])))
  unfolding read_head read_rest
  read_head-end nonblock arrives o t e =
      let (_, o1, t1) = waits host o t in
      let e1 = unread_waits host fd inbox streams o t [] e in
      elim (arrives t1 5 (omega arith)) [
        | inl (k, p, q, a) ↦
            let n : take k (drop (consumed fd t1) inbox) ≡ [] = ap (take k) e1 ∙ take_nil k in
            rw (a, n) (inl refl)
        | inr (empty, m, f) ↦ rw f (inr (m, refl))
      ]

  recv_one-end :
      (nonblock : Bool)
      → Arrives host nonblock fd inbox
      → (o : Socks5) (t : Trace) (rlen : ℕ) (m : Msg) → drop (consumed fd t) inbox ≡ []
      → 0 < rlen
      → (recv_one host nonblock fd rlen m o t).0 ≡ (some (pos rlen), m)
  unfolding recv_one
  recv_one-end nonblock arrives o t rlen m e p =
      let b : ltb 0 rlen ≡ true = ground arith in
      elim (read_head-end nonblock arrives o t e) [
        | inl r ↦ rw (recv_one, r, b) refl
        | inr (k, r) ↦ rw (recv_one, r, b) refl
      ]

stream_of-cons :
    (d : Datagram) (ds : List Datagram) (bytes : Bytes)
    → stream_of (d ∷ ds) ≡ some bytes
    → (f : Bytes) × (fs : Bytes) × (frame_tcp d ≡ some f)
      × (stream_of ds ≡ some fs)
      × (bytes ≡ f ++ fs)
unfolding stream_of
stream_of-cons d ds bytes e = elim (Option-cases (frame_tcp d)) [
  | inl n ↦ absurd (cc (rw (stream_of, n) at e))
  | inr (f, ef) ↦ elim (Option-cases (stream_of ds)) [
    | inl n ↦ absurd (cc (rw (stream_of, ef, n) at e))
    | inr (fs, efs) ↦ (f, fs, ef, efs, cc (rw (stream_of, ef, efs) at e))
  ]
]

module _ (host : Host) (fd : ℤ) (inbox : Bytes) (streams : Streams host fd inbox) where
  recv_loop-stream :
      (nonblock : Bool)
      → Arrives host nonblock fd inbox
      → (ds : List Datagram) (ms : List Msg) (bytes : Bytes) (o : Socks5) (t : Trace) (rlen : ℕ)
      → stream_of ds ≡ some bytes
      → drop (consumed fd t) inbox ≡ bytes
      → AllFit ms ds
      → 0 < rlen + length ds
      → let ((res, ms'), _, _) = recv_loop host nonblock fd rlen ms o t in
        (res ≡ pos (rlen + length ds)) × AllCarry ms' ds
  unfolding recv_loop stream_of recv_one read_head
  recv_loop-stream nonblock arrives [] [] bytes o t rlen e u fit p = (ap pos (omega arith), tt)
  recv_loop-stream nonblock arrives [] (m ∷ ms) bytes o t rlen e u fit p =
      let none_left : bytes ≡ [] = cc in
      let r =
        recv_one-end host fd inbox streams nonblock arrives o t rlen m (u ∙ none_left)
          (omega arith) in
      rw (recv_loop, ap (λ x. x.0) r) (ap pos (omega arith), tt)
  recv_loop-stream nonblock arrives (d ∷ ds) [] bytes o t rlen e u fit p = absurd fit
  recv_loop-stream nonblock arrives (d ∷ ds) (m ∷ ms) bytes o t rlen e u fit p =
      let (f, fs, ef, efs, eb) = stream_of-cons d ds bytes e in
      let ((done, m'), o1, t1) = recv_one host nonblock fd rlen m o t in
      let (done_eq, carries, u1) =
        recv_one-frame host fd inbox streams nonblock arrives o t rlen m d f fs fit.0 ef (u ∙ eb) in
      let (r, all) =
        recv_loop-stream nonblock arrives ds ms fs o1 t1 (suc rlen) efs u1 fit.1 (omega arith) in
      rw (recv_loop, done_eq) (r ∙ ap pos (omega arith), (carries, all))

-- On a connection that carries datagrams, the unread bytes are exactly the frames that
-- hev_socks5_udp_sendmmsg_tcp makes of at least one datagram; a read may be cut at any place, and
-- one that finds nothing left may fail. Each datagram fits the message at its place. Then
-- hev_socks5_udp_recvmmsg returns the number of the datagrams, and the messages have their
-- addresses and payloads, in order.
pub udp_recvmmsg-stream :
    (host : Host) (iface : UdpIface) (o : Socks5) (t : Trace) (inbox : Bytes) (nonblock : Bool)
    → Streams host (iface.get_fd o) inbox
    → Arrives host nonblock (iface.get_fd o) inbox
    → o.kind ≡ udp_in_tcp
    → (ds : List Datagram) (ms : List Msg) (bytes : Bytes) → stream_of ds ≡ some bytes
    → drop (consumed (iface.get_fd o) t) inbox ≡ bytes
    → AllFit ms ds
    → 0 < length ds
    → let ((res, ms'), _, _) = udp_recvmmsg host iface ms nonblock o t in
      (res ≡ pos (length ds)) × AllCarry ms' ds
unfolding udp_recvmmsg recv_as recvmmsg_tcp
udp_recvmmsg-stream host iface o t inbox nonblock streams arrives k ds ms bytes e u fit p =
    let (r, all) =
      recv_loop-stream host (iface.get_fd o) inbox streams nonblock arrives ds ms bytes o t 0 e u
        fit (omega arith) in
    simp k (r ∙ ap pos (omega arith), all)
