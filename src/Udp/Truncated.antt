-- ===== src/Udp/Truncated.antt =====
-- What the relay makes of a connection that ends within a datagram, of a buffer that is shorter than
-- the address, and of a name that is too long for the header.
use hev_socks5_core.Base.{
  ℕ, suc, ◌+◌, ◌-◌, ◌%◌, ltb, ◌≤◌, ◌<◌, ◌≡◌, refl, ap, ◌∙◌, Bool, true, false, ℤ, pos, arith, none,
  some, List, [], ◌∷◌, ◌++◌, Bytes, length, take, map, drop, take_all, ◌==◌,
}
use hev_socks5_core.Host.{Host, Trace, got, faulted}
use hev_socks5_core.Wire.{Streams, consumed}
use hev_socks5_core.Misc.Bytes16.{htons_bytes, ntohs_bytes, ntohs-htons}
use hev_socks5_core.Socks5.{Socks5, udp_in_tcp}
use hev_socks5_core.Misc.Addr.{addr_len}
use hev_socks5_core.Udp.Send.{positive, frame_tcp}
use hev_socks5_core.Udp.Defs.{Datagram, UdpIface, Msg, wild, udp_buf_size, waits}
use hev_socks5_core.Udp.Recv.{
  result, size_sub, sizes_of, fill, read_head, read_body, recv_one, recv_loop, recvmmsg_tcp,
}
use hev_socks5_core.Udp.RecvUdp.{recv_as, udp_recvmmsg}
use hev_socks5_core.Udp.Forward.{
  slot, resolve_at, destination, add_entry, gather, send_found, relay_out, fwd_f,
}
use hev_socks5_core.Udp.Arrival.{Arrives, unread_waits, read_head-front}
use hev_socks5_core.Udp.Framing.{sizes_of-cut}

-- A buffer that is shorter than the address passes the test of the sizes in
-- hev_socks5_udp_recvmmsg_tcp with every payload, since the difference of the two is a `size_t`.
sizes_of-short :
    (len n datlen a0 a1 : ℕ)
    → 2 ≤ n
    → n < 253
    → datlen < 65536
    → len < n
    → sizes_of (htons_bytes datlen ++ ((3 + n) ∷ a0 ∷ a1 ∷ [])) len ≡ some (n, datlen)
unfolding sizes_of size_sub
sizes_of-short len n datlen a0 a1 two h k l =
    let t : ntohs_bytes (htons_bytes datlen) ≡ datlen = ntohs-htons datlen k in ground arith

-- A datagram to a name of 249 to 253 characters is framed with a header that
-- hev_socks5_udp_recvmmsg_tcp refuses, whatever the buffer, since the length of the header is stored
-- in a byte.
frame_tcp-long :
    (d : Datagram) (n len : ℕ) (f : Bytes)
    → addr_len d.addr ≡ pos n
    → 253 ≤ n
    → n < 258
    → frame_tcp d ≡ some f
    → sizes_of f len ≡ none
unfolding frame_tcp positive sizes_of
frame_tcp-long d n len f e low high framed =
    let p : positive (pos n) ≡ some n = ground arith in
    let whole : frame_tcp d
        ≡ some
            (htons_bytes (length d.payload) ++ (((3 + n) % 256) ∷ (take n d.addr ++ d.payload))) =
      rw (frame_tcp, e, p) refl in
    let is : f
        ≡ htons_bytes (length d.payload) ++ (((3 + n) % 256) ∷ (take n d.addr ++ d.payload)) =
      cc in
    let small : ltb ((3 + n) % 256) 5 ≡ true = ground arith in rw (is, small) refl

module _ (host : Host) (fd : ℤ) (inbox : Bytes) (streams : Streams host fd inbox) where
  read_body-part :
      (o : Socks5) (t : Trace) (head : Bytes) (m : Msg) (addrlen datlen : ℕ) (part : Bytes)
      → length part < addrlen - 2 + datlen
      → drop (consumed fd t) inbox ≡ part
      → (read_body host fd head m addrlen datlen o t).0
        ≡ (some (pos (length part)), fill m (got part))
  unfolding read_body result
  read_body-part o t head m addrlen datlen part l e =
      let (_, o1, t1) = waits host o t in
      let n = addrlen - 2 + datlen in
      let r : host.on_recv t1 fd n ≡ got part =
        streams t1 n
        ∙ ap got (
            ap (take n) (unread_waits host fd inbox streams o t part e)
            ∙ take_all part n (omega arith)) in
      let b : (length part == n) ≡ false = ground arith in rw (r, b) refl

  recv_one-part :
      (nonblock : Bool)
      → Arrives host nonblock fd inbox
      → (o : Socks5) (t : Trace) (m : Msg) (n datlen a0 a1 : ℕ) (part : Bytes) → 4 ≤ n
      → datlen < 65536
      → n + datlen ≤ m.len
      → m.len < 18446744073709551616
      → length part < n - 2 + datlen
      → drop (consumed fd t) inbox ≡ htons_bytes datlen ++ ((3 + n) ∷ a0 ∷ a1 ∷ part)
      → (recv_one host nonblock fd 0 m o t).0 ≡ (some (pos (length part)), fill m (got part))
  unfolding recv_one
  recv_one-part nonblock arrives o t m n datlen a0 a1 part four k room w l e =
      let head : Bytes = htons_bytes datlen ++ ((3 + n) ∷ a0 ∷ a1 ∷ []) in
      let (_, o1, t1) = read_head host nonblock fd o t in
      let (r, u) = read_head-front host fd inbox streams nonblock arrives o t head part refl e in
      let s = sizes_of-cut m.len n datlen a0 a1 four k room w in
      rw (recv_one, r, s, r) (read_body-part o1 t1 head m n datlen part l u)

recv_loop-part :
    (host : Host) (fd : ℤ) (nonblock : Bool) (o : Socks5) (t : Trace) (m : Msg) (ms : List Msg)
    (res : ℤ) (m' : Msg)
    → (recv_one host nonblock fd 0 m o t).0 ≡ (some res, m')
    → (recv_loop host nonblock fd 0 (m ∷ ms) o t).0 ≡ (res, m' ∷ ms)
unfolding recv_loop recv_one read_head
recv_loop-part host fd nonblock o t m ms res m' e =
    rw (recv_loop, ap (λ x. x.0) e) (ap (λ x. (res, x.1 ∷ ms)) e)

fill_same : (m : Msg) (b : Bytes) → let m' = fill m (got b) in (m'.addr ≡ m.addr) × (m'.len ≡ m.len)
unfolding fill
fill_same m b = (refl, refl)

slot_same : (b : Bytes) → ((slot b).addr ≡ wild) × ((slot b).len ≡ udp_buf_size)
unfolding slot
slot_same b = (refl, refl)

module _ (host : Host) where
  -- the message that was not completed
  gather-wild :
      (k : ℕ) (m : Msg) (ms : List Msg) (o : Socks5) (t : Trace)
      → m.addr ≡ wild
      → m.len ≡ udp_buf_size
      → gather host (suc k) (m ∷ ms) o t ≡ (none, o, faulted ∷ t)
  unfolding gather destination resolve_at add_entry
  gather-wild k m ms o t a l = simp (a, l) refl

  -- On a connection that carries datagrams, the stream ends within the first datagram, behind its
  -- header and at least one byte of its body. Then hev_socks5_udp_recvmmsg returns the number of
  -- bytes that it has read of the body as the number of messages, and the first of these has an
  -- address that was never written; hev_socks5_udp_fwd_f goes on to read through that pointer.
  pub fwd_f-truncated :
      (iface : UdpIface) (o : Socks5) (t : Trace) (inbox : Bytes)
      → Streams host (iface.get_fd o) inbox
      → Arrives host true (iface.get_fd o) inbox
      → o.kind ≡ udp_in_tcp
      → (fd : ℤ) (block : Bytes) (blocks : List Bytes) (bound : Bool)
      → (n datlen a0 a1 p : ℕ) (part : Bytes) → 4 ≤ n
      → n + datlen ≤ udp_buf_size
      → length (p ∷ part) < n - 2 + datlen
      → drop (consumed (iface.get_fd o) t) inbox
        ≡ htons_bytes datlen ++ ((3 + n) ∷ a0 ∷ a1 ∷ p ∷ part)
      → let ((count, ms), _, _) = udp_recvmmsg host iface (map slot (block ∷ blocks)) true o t in
        let (_, _, t') = fwd_f host iface fd (block ∷ blocks) bound o t in
        (count ≡ pos (length (p ∷ part)))
        × (map (λ (m : Msg). m.addr) (take 1 ms) ≡ wild ∷ [])
        × (t1 : Trace) × (t' ≡ faulted ∷ t1)
  unfolding fwd_f udp_recvmmsg recv_as recvmmsg_tcp relay_out send_found
  fwd_f-truncated iface o t inbox streams arrives k fd block blocks bound n datlen a0 a1 p part four
        room l e =
      let m = slot block in
      let ms = map slot blocks in
      let (sa, sl) = slot_same block in
      let own = iface.get_fd o in
      let one =
        recv_one-part host own inbox streams true arrives o t m n datlen a0 a1 (p ∷ part) four
          (omega arith) (omega arith) (omega arith) l e in
      let (_, o1, t1) = recv_loop host true own 0 (m ∷ ms) o t in
      let m' = fill m (got (p ∷ part)) in
      let all = recv_loop-part host own true o t m ms (pos (suc (length part))) m' one in
      let (fa, fl) = fill_same m (p ∷ part) in
      let g = gather-wild (length part) m' ms o1 t1 (fa ∙ sa) (fl ∙ sl) in
      simp (k, all, g, send_found) (refl, ap (λ a. a ∷ []) (fa ∙ sa), t1, refl)
