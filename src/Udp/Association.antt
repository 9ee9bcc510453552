-- ===== src/Udp/Association.antt =====
-- Datagrams that were sent on an association are taken from it again.
use hev_socks5_core.Base.{
  subst, ℕ, zero, suc, ◌+◌, ◌-◌, ◌≤◌, ◌<◌, ◌≡◌, refl, sym, ap, ◌∙◌, Bool, true, false, Option, none,
  some, List, [], ◌∷◌, ◌++◌, Bytes, ℤ, pos, arith, length, take, drop, map, length-append,
  length-take, take-append, drop-append, drop-write_at, write_at, append_assoc, inl, inr,
  Option-cases, is_neg, is_nonpos, ltb,
}
use hev_socks5_core.Host.{Host, Trace, Sockaddr, got_batch, batch_received}
use hev_socks5_core.Wire.{drop-add}
use hev_socks5_core.Misc.Addr.{Addr, addr_len}
use hev_socks5_core.Socks5.{Socks5, udp_in_udp}
use hev_socks5_core.Udp.Defs.{UdpIface, Msg, Datagram, waits}
use hev_socks5_core.Udp.Send.{positive, frame_udp, packets_of}
use hev_socks5_core.Udp.RecvUdp.{
  data_offset, settle_msg, settle_msgs, fill_all, associate_with, set_associated, take_batch,
  read_batch, recvmmsg_udp, recv_as, udp_recvmmsg,
}
use hev_socks5_core.Udp.Framing.{Carries, addr_len_min}
use hev_socks5_core.Udp.RoundTrip.{AllCarry}

-- the datagram d has an address of a known type that is there as a whole, and its frame has room in
-- the memory of m
abbrev pub FitsUdp : Msg → Datagram → Type 0
FitsUdp m d =
    (n : ℕ) × (addr_len d.addr ≡ pos n)
    × (n ≤ length d.addr)
    × (m.buf + (3 + n + length d.payload) ≤ length m.mem)

abbrev pub AllFitUdp : List Msg → List Datagram → Type 0
AllFitUdp ms [] = Unit {0}
AllFitUdp [] (d ∷ ds) = ⊥
AllFitUdp (m ∷ ms) (d ∷ ds) = FitsUdp m d × AllFitUdp ms ds

frame_udp-cut :
    (d : Datagram) (n : ℕ)
    → addr_len d.addr ≡ pos n
    → frame_udp d ≡ some (0 ∷ 0 ∷ 0 ∷ (take n d.addr ++ d.payload))
unfolding frame_udp positive
frame_udp-cut d n e =
    let p : positive (pos n) ≡ some n = ground (arith, addr_len_min d.addr n e) in
    rw (frame_udp, e, p) refl

-- the length of an address stands in its first two bytes
addr_len-read :
    (a : Addr) (n : ℕ) (rest : Bytes)
    → addr_len a ≡ pos n
    → n ≤ length a
    → addr_len (take n a ++ rest) ≡ pos n
unfolding addr_len
addr_len-read [] n rest e h = absurd (omega (arith, addr_len_min [] n e))
addr_len-read (a0 ∷ []) n rest e h = absurd (omega (arith, addr_len_min (a0 ∷ []) n e))
addr_len-read (a0 ∷ a1 ∷ more) zero rest e h =
    absurd (omega (arith, addr_len_min (a0 ∷ a1 ∷ more) zero e))
addr_len-read (a0 ∷ a1 ∷ more) (suc zero) rest e h =
    absurd (omega (arith, addr_len_min (a0 ∷ a1 ∷ more) 1 e))
addr_len-read (a0 ∷ a1 ∷ more) (suc (suc n)) rest e h = e

-- a message that was filled with the frame of d carries d
pub settle_msg-frame :
    (m : Msg) (d : Datagram) (f : Bytes)
    → FitsUdp m d
    → frame_udp d ≡ some f
    → let (ok, m') = settle_msg (record m { mem = write_at m.mem m.buf f }) (length f) in
      (ok ≡ true) × Carries m' d
unfolding settle_msg data_offset
settle_msg-frame m d f (n, en, ln, room) ef =
    let front = take n d.addr in
    let lf : length front ≡ n = length-take n d.addr ln in
    let whole = frame_udp-cut d n en in
    let is : f ≡ 0 ∷ 0 ∷ 0 ∷ (front ++ d.payload) = cc in
    let la = length-append front d.payload in
    let size : length f ≡ 3 + n + length d.payload = ap length is ∙ omega arith in
    let mem = write_at m.mem m.buf f in
    let tail = drop (m.buf + length f) m.mem in
    let start : drop m.buf mem ≡ f ++ tail = drop-write_at m.mem m.buf f (omega arith) in
    let swap3 : m.buf + 3 ≡ 3 + m.buf = omega arith in
    let stands : drop (m.buf + 3) mem ≡ front ++ (d.payload ++ tail) =
      ap (λ k. drop k mem) swap3
      ∙ drop-add 3 m.buf mem
      ∙ ap (drop 3) (start ∙ ap (λ b. b ++ tail) is)
      ∙ append_assoc front d.payload tail in
    let swap : m.buf + (3 + n) ≡ n + (m.buf + 3) = omega arith in
    let behind : drop (m.buf + (3 + n)) mem ≡ d.payload ++ tail =
      ap (λ k. drop k mem) swap
      ∙ drop-add n (m.buf + 3) mem
      ∙ ap (drop n) stands
      ∙ ap (λ k. drop k (front ++ (d.payload ++ tail))) (sym lf)
      ∙ drop-append front (d.payload ++ tail) in
    let len : addr_len (drop (m.buf + 3) mem) ≡ pos n =
      ap addr_len stands ∙ addr_len-read d.addr n (d.payload ++ tail) en ln in
    let min = addr_len_min d.addr n en in
    let b4 : ltb (length f) 4 ≡ false = ground arith in
    let b5 : is_nonpos (pos n) ≡ false = ground arith in
    let b6 : ltb (length f) (3 + n) ≡ false = ground arith in
    let left : length f - (3 + n) ≡ length d.payload = omega arith in
    rw (settle_msg, b4, len, b5, b6)
      (
        refl,
        (
          n,
          m.buf + 3,
          en,
          refl,
          ap (take n) stands
              ∙ ap (λ k. take k (front ++ (d.payload ++ tail))) (sym lf)
              ∙ take-append front (d.payload ++ tail),
          ap (λ k. take k (drop (m.buf + (3 + n)) mem)) left
              ∙ ap (take (length d.payload)) behind
              ∙ take-append d.payload tail,
        ),
      )

-- what the other end of the association receives: each packet with its sender
abbrev pub arriving : Sockaddr → List (Option Sockaddr × Bytes) → List (Bytes × Sockaddr)
arriving from [] = []
arriving from ((to, f) ∷ ps) = (f, from) ∷ arriving from ps

pub packets_of-cons :
    (d : Datagram) (ds : List Datagram) (ps : List (Option Sockaddr × Bytes))
    → packets_of (d ∷ ds) ≡ some ps
    → (f : Bytes) × (qs : List (Option Sockaddr × Bytes)) × (frame_udp d ≡ some f)
      × (packets_of ds ≡ some qs)
      × (ps ≡ (none, f) ∷ qs)
unfolding packets_of
packets_of-cons d ds ps e = elim (Option-cases (frame_udp d)) [
  | inl n ↦ absurd (cc (rw (packets_of, n) at e))
  | inr (f, ef) ↦ elim (Option-cases (packets_of ds)) [
    | inl n ↦ absurd (cc (rw (packets_of, ef, n) at e))
    | inr (qs, eqs) ↦ (f, qs, ef, eqs, cc (rw (packets_of, ef, eqs) at e))
  ]
]

settle_msgs-packets :
    (from : Sockaddr) (ds : List Datagram) (ms : List Msg) (ps : List (Option Sockaddr × Bytes))
    → packets_of ds ≡ some ps
    → AllFitUdp ms ds
    → let (ok, ms') = settle_msgs (fill_all ms (arriving from ps)) (arriving from ps) in
      (ok ≡ true) × AllCarry ms' ds × (length (arriving from ps) ≡ length ds)
unfolding settle_msgs fill_all packets_of
settle_msgs-packets from [] [] ps e fit = let n : ps ≡ [] = cc in rw n (refl, tt, refl)
settle_msgs-packets from [] (m ∷ ms) ps e fit = let n : ps ≡ [] = cc in rw n (refl, tt, refl)
settle_msgs-packets from (d ∷ ds) [] ps e fit = absurd fit
settle_msgs-packets from (d ∷ ds) (m ∷ ms) ps e fit =
    let (f, qs, ef, eqs, eps) = packets_of-cons d ds ps e in
    let (ok, carries) = settle_msg-frame m d f fit.0 ef in
    let (all_ok, all, l) = settle_msgs-packets from ds ms qs eqs fit.1 in
    rw (eps, settle_msgs, ok, all_ok) (refl, (carries, all), ap suc l)

-- the sender becomes the peer, unless there is one
associate_with-goes_on :
    (host : Host) (o : Socks5) (t : Trace) (fd : ℤ) (from : Sockaddr)
    → ((t' : Trace) → is_neg (host.on_connect t' fd from) ≡ false)
    → let (ok, o', _) = associate_with host fd from o t in (ok ≡ true) × (o'.udp_associated ≡ true)
unfolding associate_with set_associated
associate_with-goes_on host o t fd from connects = ground (arith, connects t)

pub take_batch-goes_on :
    (host : Host) (o : Socks5) (t : Trace) (fd : ℤ) (from : Sockaddr) (ms : List Msg) (f : Bytes)
    (xs : List (Bytes × Sockaddr))
    → ((t' : Trace) → is_neg (host.on_connect t' fd from) ≡ false)
    → let (ok, settled) = settle_msgs (fill_all ms ((f, from) ∷ xs)) ((f, from) ∷ xs) in
      ok ≡ true
      → let ((res, ms'), o', _) = take_batch host fd ms (f, from) xs o t in
        (res ≡ pos (length ((f, from) ∷ xs))) × (ms' ≡ settled) × (o'.udp_associated ≡ true)
unfolding take_batch
take_batch-goes_on host o t fd from ms f xs connects ok =
    let (goes_on, set) = associate_with-goes_on host o t fd from connects in
    rw (take_batch, goes_on, ok) (refl, refl, set)

-- The packets that hev_socks5_udp_sendmmsg_udp makes of at least one datagram arrive together, from
-- one sender, and each fits the message at its place; connecting to the sender does not fail. Then
-- hev_socks5_udp_recvmmsg of an association returns the number of the datagrams, the messages have
-- their addresses and payloads, in order, and the object is associated.
pub udp_recvmmsg-packets :
    (host : Host) (iface : UdpIface) (o : Socks5) (t : Trace) (nonblock : Bool) (from : Sockaddr)
    → o.kind ≡ udp_in_udp
    → (ds : List Datagram) (ms : List Msg) (ps : List (Option Sockaddr × Bytes))
    → packets_of ds ≡ some ps
    → ((t' : Trace) (sizes : List ℕ)
        → host.on_recvmmsg t' (iface.get_fd o) sizes ≡ got_batch (arriving from ps))
    → ((t' : Trace) → is_neg (host.on_connect t' (iface.get_fd o) from) ≡ false)
    → AllFitUdp ms ds
    → 0 < length ds
    → let ((res, ms'), o', _) = udp_recvmmsg host iface ms nonblock o t in
      (res ≡ pos (length ds)) × AllCarry ms' ds × (o'.udp_associated ≡ true)
unfolding udp_recvmmsg recv_as recvmmsg_udp read_batch
udp_recvmmsg-packets host iface o t nonblock from k [] ms ps e arrive connects fit p =
    absurd (omega arith)
udp_recvmmsg-packets host iface o t nonblock from k (d ∷ ds) ms ps e arrive connects fit p =
    let (f, qs, ef, eqs, eps) = packets_of-cons d ds ps e in
    let fd = iface.get_fd o in
    let (_, o1, t1) = waits host o t in
    let sizes = map (λ (m : Msg). m.len) ms in
    let t2 : Trace = batch_received fd sizes (got_batch (arriving from ((none, f) ∷ qs))) ∷ t1 in
    let (ok, all, l) = rw eps at (settle_msgs-packets from (d ∷ ds) ms ps e fit) in
    let batch = rw eps at (arrive t1 sizes) in
    let (r, same, set) =
      take_batch-goes_on host o1 t2 fd from ms f (arriving from qs) connects ok in
    simp (k, batch) (r ∙ ap pos l, subst (λ x. AllCarry x (d ∷ ds)) (sym same) all, set)
