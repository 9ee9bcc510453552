-- ===== src/Udp/Desync.antt =====
-- A datagram with a long name on a connection: what the header that hev_socks5_udp_sendmmsg_tcp makes
-- of it leads to in hev_socks5_udp_fwd_f.
use hev_socks5_core.Base.{
  ℕ, suc, ◌+◌, ◌%◌, ltb, ◌≤◌, ◌<◌, ◌≡◌, refl, ap, ◌∙◌, sym, Bool, true, ℤ, pos, minus_one, arith,
  none, some, List, [], ◌∷◌, ◌++◌, Bytes, length, take, map, drop, append_assoc,
}
use hev_socks5_core.Host.{Host, Trace}
use hev_socks5_core.Wire.{Streams, consumed}
use hev_socks5_core.Misc.Bytes16.{htons_bytes}
use hev_socks5_core.Misc.Addr.{addr_len}
use hev_socks5_core.Socks5.{Socks5, udp_in_tcp}
use hev_socks5_core.Udp.Send.{positive, frame_tcp}
use hev_socks5_core.Udp.Defs.{UdpIface, Msg}
use hev_socks5_core.Udp.Recv.{sizes_of, read_head, recv_one, recv_loop, recvmmsg_tcp}
use hev_socks5_core.Udp.RecvUdp.{recv_as, udp_recvmmsg}
use hev_socks5_core.Udp.Forward.{slot, settle_result, relay_out, fwd_f}
use hev_socks5_core.Udp.Arrival.{Arrives, read_head-front}

-- the header of a frame, and what follows it
abbrev pub long_head : ℕ → ℕ → ℕ → ℕ → Bytes
long_head n datlen a0 a1 = htons_bytes datlen ++ (((3 + n) % 256) ∷ a0 ∷ a1 ∷ [])

frame_tcp-split :
    (a0 a1 k : ℕ) (more payload f : Bytes)
    → addr_len (a0 ∷ a1 ∷ more) ≡ pos (suc (suc k))
    → frame_tcp (record { addr = a0 ∷ a1 ∷ more; payload = payload }) ≡ some f
    → f ≡ long_head (suc (suc k)) (length payload) a0 a1 ++ (take k more ++ payload)
unfolding frame_tcp positive
frame_tcp-split a0 a1 k more payload f e framed =
    let p : positive (pos (suc (suc k))) ≡ some (suc (suc k)) = ground arith in
    let head = long_head (suc (suc k)) (length payload) a0 a1 in
    let whole : frame_tcp (record { addr = a0 ∷ a1 ∷ more; payload = payload })
        ≡ some (head ++ (take k more ++ payload)) =
      rw (frame_tcp, e, p) refl in
    cc

-- such a header is refused
long_head-refused :
    (n datlen a0 a1 len : ℕ) → 253 ≤ n → n < 258 → sizes_of (long_head n datlen a0 a1) len ≡ none
unfolding sizes_of
long_head-refused n datlen a0 a1 len low high =
    let small : ltb ((3 + n) % 256) 5 ≡ true = ground arith in rw small refl

module _ (host : Host) (fd : ℤ) (inbox : Bytes) (streams : Streams host fd inbox) where
  recv_one-refused :
      (nonblock : Bool)
      → Arrives host nonblock fd inbox
      → (o : Socks5) (t : Trace) (m : Msg) (head rest : Bytes) → length head ≡ 5
      → sizes_of head m.len ≡ none
      → drop (consumed fd t) inbox ≡ head ++ rest
      → let (r, _, t') = recv_one host nonblock fd 0 m o t in
        (r ≡ (some minus_one, m)) × (drop (consumed fd t') inbox ≡ rest)
  unfolding recv_one
  recv_one-refused nonblock arrives o t m head rest l s e =
      let (r, u) = read_head-front host fd inbox streams nonblock arrives o t head rest l e in
      rw (r, s) (refl, u)

  recv_loop-refused :
      (nonblock : Bool)
      → Arrives host nonblock fd inbox
      → (o : Socks5) (t : Trace) (m : Msg) (ms : List Msg) (head rest : Bytes) → length head ≡ 5
      → sizes_of head m.len ≡ none
      → drop (consumed fd t) inbox ≡ head ++ rest
      → let (r, _, t') = recv_loop host nonblock fd 0 (m ∷ ms) o t in
        (r ≡ (minus_one, m ∷ ms)) × (drop (consumed fd t') inbox ≡ rest)
  unfolding recv_loop recv_one consumed read_head
  recv_loop-refused nonblock arrives o t m ms head rest l s e =
      let (r, u) = recv_one-refused nonblock arrives o t m head rest l s e in
      rw (recv_loop, ap (λ x. x.0) r) (ap (λ x. (minus_one, x.1 ∷ ms)) r, u)

slots_kept : (blocks : List Bytes) → map (λ (m : Msg). m.mem) (map slot blocks) ≡ blocks
unfolding slot
slots_kept [] = refl
slots_kept (b ∷ bs) = ap (λ r. b ∷ r) (slots_kept bs)

module _ (host : Host) where
  -- A datagram to a name of 249 to 253 characters has been sent on a connection and is next to be
  -- read, in whatever pieces it arrives; errno is EAGAIN, as an earlier call has left it. Then
  -- hev_socks5_udp_fwd_f returns 0, as where nothing has arrived, and leaves the buffers as they were.
  -- It has read the five bytes of the header: what is unread begins in the middle of the frame.
  pub fwd_f-desync :
      (iface : UdpIface) (o : Socks5) (t : Trace) (inbox : Bytes)
      → Streams host (iface.get_fd o) inbox
      → Arrives host true (iface.get_fd o) inbox
      → o.kind ≡ udp_in_tcp
      → ((t' : Trace) → host.is_again t' ≡ true)
      → (fd : ℤ) (block : Bytes) (blocks : List Bytes) (bound : Bool)
      → (a0 a1 k : ℕ) (more payload f rest : Bytes) → addr_len (a0 ∷ a1 ∷ more) ≡ pos (suc (suc k))
      → 251 ≤ k
      → k < 256
      → frame_tcp (record { addr = a0 ∷ a1 ∷ more; payload = payload }) ≡ some f
      → drop (consumed (iface.get_fd o) t) inbox ≡ f ++ rest
      → let ((res, bound', blocks'), _, t') = fwd_f host iface fd (block ∷ blocks) bound o t in
        (res ≡ pos 0)
        × (bound' ≡ bound)
        × (blocks' ≡ block ∷ blocks)
        × (drop (consumed (iface.get_fd o) t') inbox ≡ drop 5 f ++ rest)
  unfolding fwd_f udp_recvmmsg recv_as recvmmsg_tcp relay_out settle_result
  fwd_f-desync iface o t inbox streams arrives kind again fd block blocks bound a0 a1 k more payload
        f rest l low high framed e =
      let own = iface.get_fd o in
      let head = long_head (suc (suc k)) (length payload) a0 a1 in
      let tail = take k more ++ payload in
      let split = frame_tcp-split a0 a1 k more payload f l framed in
      let unread = e ∙ ap (λ b. b ++ rest) split ∙ append_assoc head tail rest in
      let m = slot block in
      let ms = map slot blocks in
      let refused =
        long_head-refused (suc (suc k)) (length payload) a0 a1 m.len (omega arith) (omega arith) in
      let (r, u) =
        recv_loop-refused host own inbox streams true arrives o t m ms head (tail ++ rest) refl
          refused unread in
      let (_, o1, t1) = recv_loop host true own 0 (m ∷ ms) o t in
      simp (kind, r, again t1)
        (refl, refl, slots_kept (block ∷ blocks), u ∙ ap (λ b. drop 5 b ++ rest) (sym split))
