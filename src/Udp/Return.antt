-- ===== src/Udp/Return.antt =====
-- What arrives for the client is framed with the address of its sender and sent to the client.
use hev_socks5_core.Base.{
  ℕ, suc, ◌+◌, take-append, drop, write_at, ◌/◌, ◌%◌, ◌<◌, ◌≤◌, ap, false, take_all, length-append,
  append_assoc, ◌≡◌, ◌⊎◌, refl, ◌∙◌, true, false, ℤ, pos, arith, Bool-cases, inl, inr, some,
  is_nonpos, List, [], ◌∷◌, ◌++◌, Bytes, length, replicate,
}
use hev_socks5_core.Host.{Host, Trace, Sockaddr, sent, got_batch, batch_received}
use hev_socks5_core.Misc.Addr.{addr_len, is_v4mapped, addr_from_sockaddr6}
use hev_socks5_core.Misc.Answer.{mapped}
use hev_socks5_core.Misc.Bytes16.{htons_bytes}
use hev_socks5_core.Socks5.{Socks5, udp_in_tcp}
use hev_socks5_core.Udp.Defs.{UdpIface, Datagram, udp_buf_size, waits}
use hev_socks5_core.Udp.Send.{positive, frame_tcp, stream_of, sendmmsg_tcp, send_as, udp_sendmmsg}
use hev_socks5_core.Udp.Forward.{
  outgoing_datagram, outgoing_all, store_all, stored, relay_back, fwd_b,
}
use hev_socks5_core.Udp.Kept.{waits-Kept}
use hev_socks5_core.Udp.Delivery.{settle_result-sent}

-- Who has sent a datagram: an IPv4 address and a port, or an IPv6 address and a port.
pub data Sender : Type 0 where
  sender4 : (a b c d p q : ℕ) → Sender
  sender6 : (v port : Bytes) → Sender

-- as the address of a socket
abbrev pub socket_of : Sender → Sockaddr
socket_of (sender4 a b c d p q) = record {
  family = 10;
  port = p ∷ q ∷ [];
  addr = mapped (a ∷ b ∷ c ∷ d ∷ []);
}
socket_of (sender6 v port) = record { family = 10; port = port; addr = v }

-- the sizes of an IPv6 address, which is no mapped one, and of its port
abbrev pub IsSender : Sender → Type 0
IsSender (sender4 a b c d p q) = Unit {0}
IsSender (sender6 v port) = (length v ≡ 16) × (length port ≡ 2) × (is_v4mapped v ≡ false)

-- a frame: the length of the payload, that of the header, the type, the address, the port and the
-- payload
abbrev pub framed : Bytes × Sender → Bytes
framed (bytes, sender4 a b c d p q) =
    (length bytes / 256) ∷ (length bytes % 256) ∷ 10 ∷ 1 ∷ a ∷ b ∷ c ∷ d ∷ p ∷ q ∷ bytes
framed (bytes, sender6 v port) =
    (length bytes / 256) ∷ (length bytes % 256) ∷ 22 ∷ 4 ∷ (v ++ (port ++ bytes))

abbrev pub all_framed : List (Bytes × Sender) → Bytes
all_framed [] = []
all_framed (d ∷ ds) = framed d ++ all_framed ds

-- what arrives, and that it has the sizes of a datagram in a block of the buffer
abbrev pub incoming : List (Bytes × Sender) → List (Bytes × Sockaddr)
incoming [] = []
incoming ((bytes, from) ∷ ds) = (bytes, socket_of from) ∷ incoming ds

abbrev pub AllSent : List (Bytes × Sender) → Type 0
AllSent [] = Unit {0}
AllSent ((bytes, from) ∷ ds) = (length bytes ≤ udp_buf_size) × IsSender from × AllSent ds

sized_bytes : (n : ℕ) → n ≤ udp_buf_size → htons_bytes n ≡ (n / 256) ∷ (n % 256) ∷ []
sized_bytes n h = let e : n / 256 % 256 ≡ n / 256 = omega arith in ap (λ k. k ∷ (n % 256) ∷ []) e

frame_tcp-framed :
    (bytes : Bytes) (from : Sender)
    → length bytes ≤ udp_buf_size
    → IsSender from
    → frame_tcp (record { addr = (addr_from_sockaddr6 (socket_of from)).1; payload = bytes })
      ≡ some (framed (bytes, from))
unfolding frame_tcp positive addr_from_sockaddr6 is_v4mapped addr_len
frame_tcp-framed bytes (sender4 a b c d p q) h s =
    ap (λ l. some (l ++ (10 ∷ 1 ∷ a ∷ b ∷ c ∷ d ∷ p ∷ q ∷ bytes))) (sized_bytes (length bytes) h)
frame_tcp-framed bytes (sender6 v port) h (l, m, plain) =
    let from : Sockaddr = socket_of (sender6 v port) in
    let all = take_all v 16 (omega arith) in
    let known : (addr_from_sockaddr6 from).1 ≡ 4 ∷ (v ++ port) =
      rw (addr_from_sockaddr6, plain) (ap (λ b. 4 ∷ (b ++ port)) all) in
    let d : Datagram = record { addr = 4 ∷ (v ++ port); payload = bytes } in
    let whole = take_all (v ++ port) 18 (omega (arith, length-append v port)) in
    let body = ap (λ b. b ++ bytes) whole ∙ append_assoc v port bytes in
    let cut : frame_tcp d ≡ some (framed (bytes, sender6 v port)) =
      ap (λ b. some (htons_bytes (length bytes) ++ (22 ∷ 4 ∷ b))) body
      ∙ ap (λ l. some (l ++ (22 ∷ 4 ∷ (v ++ (port ++ bytes))))) (sized_bytes (length bytes) h) in
    ap (λ a. frame_tcp (record { addr = a; payload = bytes })) known ∙ cut

-- what stands in a block that a datagram was written into
outgoing_datagram-stored :
    (block bytes : Bytes) (from : Sockaddr)
    → outgoing_datagram (write_at block 0 bytes) (bytes, from)
      ≡ record { addr = (addr_from_sockaddr6 from).1; payload = bytes }
unfolding outgoing_datagram
outgoing_datagram-stored block bytes from =
    let d : Bytes → Datagram = λ b. record { addr = (addr_from_sockaddr6 from).1; payload = b } in
    ap d (take-append bytes (drop (0 + length bytes) block))

stream_of-framed :
    (blocks : List Bytes) (ds : List (Bytes × Sender))
    → length ds ≤ length blocks
    → AllSent ds
    → stream_of (outgoing_all (store_all blocks (incoming ds)) (incoming ds)) ≡ some (all_framed ds)
unfolding stream_of outgoing_all store_all
stream_of-framed [] [] room h = refl
stream_of-framed (b ∷ bs) [] room h = refl
stream_of-framed [] (d ∷ ds) room h = absurd (omega arith)
stream_of-framed (b ∷ bs) ((bytes, from) ∷ ds) room (h, s, all) =
    let same = outgoing_datagram-stored b bytes (socket_of from) in
    let f = ap frame_tcp same ∙ frame_tcp-framed bytes from h s in
    let fs = stream_of-framed bs ds (omega arith) all in rw (stream_of, f, fs) refl

-- as many datagrams are sent as were received
length-outgoing_all :
    (blocks : List Bytes) (ds : List (Bytes × Sender))
    → length ds ≤ length blocks
    → length (outgoing_all (store_all blocks (incoming ds)) (incoming ds)) ≡ length ds
unfolding outgoing_all store_all
length-outgoing_all [] [] room = refl
length-outgoing_all (b ∷ bs) [] room = refl
length-outgoing_all [] (d ∷ ds) room = absurd (omega arith)
length-outgoing_all (b ∷ bs) ((bytes, from) ∷ ds) room =
    ap suc (length-outgoing_all bs ds (omega arith))

module _ (host : Host) (iface : UdpIface) where
  sendmmsg_tcp-sends :
      (ds : List Datagram) (bytes : Bytes) (o : Socks5) (t : Trace)
      → stream_of ds ≡ some bytes
      → 0 < length ds
      → let (res, _, t') = sendmmsg_tcp host iface ds o t in
        let fd = iface.get_fd o in
        (t1 : Trace) × (t' ≡ sent fd bytes (host.on_send t1 fd bytes) ∷ t1)
        × ((is_nonpos (host.on_send t1 fd bytes) ≡ true) ⊎ (is_nonpos res ≡ false))
  unfolding sendmmsg_tcp
  sendmmsg_tcp-sends ds bytes o t e p =
      let (_, o1, t1) = waits host o t in
      elim (Bool-cases (is_nonpos (host.on_send t1 (iface.get_fd o) bytes))) [
        | inl b ↦ rw (sendmmsg_tcp, e, b) (t1, refl, inl b)
        | inr b ↦ rw (sendmmsg_tcp, e, b) (t1, refl, inr (ground arith))
      ]

  relay_back-sends :
      (blocks : List Bytes) (d : Bytes × Sockaddr) (ds : List (Bytes × Sockaddr)) (bytes : Bytes)
      (o : Socks5) (t : Trace)
      → o.kind ≡ udp_in_tcp
      → stream_of (outgoing_all blocks (d ∷ ds)) ≡ some bytes
      → 0 < length (outgoing_all blocks (d ∷ ds))
      → let (res, _, t') = relay_back host iface blocks (got_batch (d ∷ ds)) o t in
        let fd = iface.get_fd o in
        (t1 : Trace) × (t' ≡ sent fd bytes (host.on_send t1 fd bytes) ∷ t1)
        × ((is_nonpos (host.on_send t1 fd bytes) ≡ true) ⊎ (res ≡ pos 1))
  unfolding relay_back udp_sendmmsg send_as
  relay_back-sends blocks d ds bytes o t k e p =
      let xs = outgoing_all blocks (d ∷ ds) in
      let (res, o1, t1) = sendmmsg_tcp host iface xs o t in
      let (t2, trace, answer) = sendmmsg_tcp-sends xs bytes o t e p in
      let (settled, same) = settle_result-sent host res o1 t1 in
      simp k (t2, same ∙ trace, ground arith)

-- The descriptor of the relay depends on that of the object and on its kind only. At least one
-- datagram, and no more than there are blocks, has arrived for a connection that carries datagrams,
-- each of at most 1500 bytes and from an IPv4 address (mapped into the address of a socket) or
-- another IPv6 address. Then hev_socks5_udp_fwd_b sends to the client, in one call, which is the
-- last one that it makes, one frame for each datagram, in order: the length of the payload, the
-- length of the header (10 or 22), the type (1 or 4), the address and the port of the sender, and
-- the payload. It returns 1 unless that call has no positive result.
pub fwd_b-returns :
    (host : Host) (iface : UdpIface) (o : Socks5) (t : Trace) (fd : ℤ) (num : ℕ)
    (blocks : List Bytes) (d : Bytes × Sender) (ds : List (Bytes × Sender))
    → ((x y : Socks5) → x.fd ≡ y.fd → x.kind ≡ y.kind → iface.get_fd x ≡ iface.get_fd y)
    → o.kind ≡ udp_in_tcp
    → length (d ∷ ds) ≤ length blocks
    → AllSent (d ∷ ds)
    → ((t' : Trace) (sizes : List ℕ) → host.on_recvmmsg t' fd sizes ≡ got_batch (incoming (d ∷ ds)))
    → let ((res, _), _, t') = fwd_b host iface fd num blocks o t in
      let own = iface.get_fd o in
      let bytes = all_framed (d ∷ ds) in
      (t1 : Trace) × (t' ≡ sent own bytes (host.on_send t1 own bytes) ∷ t1)
      × ((is_nonpos (host.on_send t1 own bytes) ≡ true) ⊎ (res ≡ pos 1))
unfolding fwd_b stored
fwd_b-returns host iface o t fd num blocks (b, from) ds same_fd k room sizes_of arrived =
    let bytes = all_framed ((b, from) ∷ ds) in
    let e = stream_of-framed blocks ((b, from) ∷ ds) room sizes_of in
    let n = length-outgoing_all blocks ((b, from) ∷ ds) room in
    let (_, o1, t1) = waits host o t in
    let (f1, k1, _, _, _, _) = waits-Kept host (pos 0) o t in
    let sizes = replicate num udp_buf_size in
    let own = same_fd o1 o f1 k1 in
    let first : Bytes × Sockaddr = (b, socket_of from) in
    let t2 : Trace = batch_received fd sizes (got_batch (first ∷ incoming ds)) ∷ t1 in
    let (t3, trace, answer) =
      relay_back-sends host iface (store_all blocks (first ∷ incoming ds)) first (incoming ds) bytes
        o1 t2 (k1 ∙ k) e (omega arith) in
    simp (arrived t1 sizes) (t3, rw own at trace, rw own at answer)
