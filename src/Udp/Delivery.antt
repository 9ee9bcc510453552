-- ===== src/Udp/Delivery.antt =====
-- What was read off a connection or an association is sent on to the addresses of the datagrams.
use hev_socks5_core.Base.{
  ℕ, zero, suc, ◌<◌, ◌≡◌, ◌⊎◌, refl, ap, Bool, true, false, ℤ, pos, arith, Option, some, is_neg,
  is_nonpos, List, [], ◌∷◌, Bytes, length, take, map, drop, ◌==◌,
}
use hev_socks5_core.Host.{Host, Trace, Sockaddr, batch_sent, got_batch}
use hev_socks5_core.Wire.{Streams, consumed}
use hev_socks5_core.Socks5.{Socks5, udp_in_tcp, udp_in_udp}
use hev_socks5_core.Udp.Defs.{UdpIface, Msg, Datagram, waits}
use hev_socks5_core.Udp.Send.{stream_of, packets_of}
use hev_socks5_core.Udp.RecvUdp.{udp_recvmmsg}
use hev_socks5_core.Udp.Forward.{
  slot, settle_result, resolve_at, destination, add_entry, gather, bind_once, first_dest, send_out,
  send_found, relay_out, fwd_f,
}
use hev_socks5_core.Udp.Arrival.{Arrives}
use hev_socks5_core.Udp.Framing.{Carries}
use hev_socks5_core.Udp.RoundTrip.{AllFit, AllCarry, udp_recvmmsg-stream}
use hev_socks5_core.Udp.Association.{AllFitUdp, arriving, udp_recvmmsg-packets}
use hev_socks5_core.Udp.Literal.{literal, IsLiteral, addr_into_sockaddr6-front}

module _ (host : Host) (o : Socks5) (t : Trace) where
  destination-Carries :
      (m : Msg) (d : Datagram)
      → Carries m d
      → IsLiteral d.addr
      → 0 < m.len
      → destination host m o t ≡ (some (literal d.addr), o, t)
  unfolding destination resolve_at
  destination-Carries m d (n, i, l, a, same, pay) lit p =
      let (found, r) =
        addr_into_sockaddr6-front host o t (drop i m.mem) d.addr n o.addr_family lit l same in
      let z : (m.len == 0) ≡ false = ground arith in simp (z, a, r) refl

take_nonempty : (n : ℕ) (xs p : Bytes) → take n xs ≡ p → 0 < length p → 0 < n
take_nonempty zero xs p e h = absurd (omega (arith, ap length e))
take_nonempty (suc n) xs p e h = omega arith

-- each datagram has an IPv4 or an IPv6 address and a payload
abbrev pub AllLiteral : List Datagram → Type 0
AllLiteral [] = Unit {0}
AllLiteral (d ∷ ds) = IsLiteral d.addr × (0 < length d.payload) × AllLiteral ds

-- the packets that go to the addresses of the datagrams
abbrev pub deliveries : List Datagram → List (Option Sockaddr × Bytes)
deliveries [] = []
deliveries (d ∷ ds) = (some (literal d.addr), d.payload) ∷ deliveries ds

gather-AllCarry :
    (host : Host) (ds : List Datagram) (ms : List Msg) (o : Socks5) (t : Trace)
    → AllCarry ms ds
    → AllLiteral ds
    → gather host (length ds) ms o t ≡ (some (deliveries ds), o, t)
unfolding gather add_entry
gather-AllCarry host [] ms o t h lit = refl
gather-AllCarry host (d ∷ ds) [] o t h lit = absurd h
gather-AllCarry host (d ∷ ds) (m ∷ ms) o t ((n, i, l, a, same, pay), h) (v, p, lit) =
    let len = take_nonempty m.len (drop m.buf m.mem) d.payload pay p in
    let r = destination-Carries host o t m d (n, i, l, a, same, pay) v len in
    let rest = gather-AllCarry host ds ms o t h lit in rw (gather, r, add_entry, rest, pay) refl

module _ (host : Host) where
  bind_once-ready :
      (fd : ℤ) (bound : Bool) (sa : Sockaddr) (o : Socks5) (t : Trace)
      → ((t' : Trace) → is_neg (host.on_binder t' fd sa) ≡ false)
      → (bind_once host fd bound (some sa) o t).0 ≡ true
  unfolding bind_once
  bind_once-ready fd true sa o t h = refl
  bind_once-ready fd false sa o t h = rw (bind_once, h t) refl

  pub settle_result-sent :
      (res : ℤ) (o : Socks5) (t : Trace)
      → let (r, _, t') = settle_result host res o t in
        ((is_nonpos res ≡ true) ⊎ (r ≡ pos 1)) × (t' ≡ t)
  unfolding settle_result
  settle_result-sent res o t = ground arith

  send_out-sends :
      (fd : ℤ) (bound : Bool) (ds : List (Option Sockaddr × Bytes)) (sa : Sockaddr) (o : Socks5)
      (t : Trace)
      → first_dest ds ≡ some sa
      → ((t' : Trace) → is_neg (host.on_binder t' fd sa) ≡ false)
      → let ((res, bound'), _, t') = send_out host fd bound ds o t in
        (t1 : Trace) × (t' ≡ batch_sent fd ds (host.on_sendmmsg t1 fd ds) ∷ t1)
        × ((is_nonpos (host.on_sendmmsg t1 fd ds) ≡ true) ⊎ (res ≡ pos 1))
        × (bound' ≡ true)
  unfolding send_out
  send_out-sends fd bound ds sa o t e h =
      let r = bind_once-ready fd bound sa o t h in
      let (_, o1, t1) = bind_once host fd bound (some sa) o t in
      let (_, o2, t2) = waits host o1 t1 in
      let n = host.on_sendmmsg t2 fd ds in
      let (result, same) = settle_result-sent n o2 (batch_sent fd ds n ∷ t2) in
      rw (send_out, e, r) (t2, same, result, refl)

first_dest-deliveries :
    (d : Datagram) (ds : List Datagram) → first_dest (deliveries (d ∷ ds)) ≡ some (literal d.addr)
unfolding first_dest
first_dest-deliveries d ds = refl

-- behind a read that has taken all of the datagrams
fwd_f-carried :
    (host : Host) (iface : UdpIface) (o : Socks5) (t : Trace) (fd : ℤ) (d : Datagram)
    (ds : List Datagram) (blocks : List Bytes) (bound : Bool)
    → let ((n, ms), _, _) = udp_recvmmsg host iface (map slot blocks) true o t in
      (n ≡ pos (length (d ∷ ds))) × AllCarry ms (d ∷ ds)
      → AllLiteral (d ∷ ds)
      → ((t' : Trace) → is_neg (host.on_binder t' fd (literal d.addr)) ≡ false)
      → let packets = deliveries (d ∷ ds) in
        let ((res, bound', _), _, t') = fwd_f host iface fd blocks bound o t in
        (t1 : Trace) × (t' ≡ batch_sent fd packets (host.on_sendmmsg t1 fd packets) ∷ t1)
        × ((is_nonpos (host.on_sendmmsg t1 fd packets) ≡ true) ⊎ (res ≡ pos 1))
        × (bound' ≡ true)
unfolding fwd_f relay_out send_found
fwd_f-carried host iface o t fd d ds blocks bound (r, all) lit binds =
    let ((_, ms), o1, t1) = udp_recvmmsg host iface (map slot blocks) true o t in
    let g = gather-AllCarry host (d ∷ ds) ms o1 t1 all lit in
    let s =
      send_out-sends host fd bound (deliveries (d ∷ ds)) (literal d.addr) o1 t1
        (first_dest-deliveries d ds) binds in
    rw (fwd_f, r, relay_out, g, send_found) s

-- The unread bytes of a connection are exactly the frames that hev_socks5_udp_sendmmsg_tcp makes of
-- at least one datagram, each with an IPv4 or an IPv6 address and a payload, and these fit the
-- blocks of the buffer. All of them have arrived: a read returns some of the next bytes, and where
-- none are left, it returns none or fails (with EAGAIN, say, on a connection that goes on). Where
-- the binder does not fail, hev_socks5_udp_fwd_f sends all payloads to the addresses in one call,
-- which is the last one that it makes. It returns 1 unless that call has no positive result, and
-- the relay counts as bound.
pub fwd_f-delivers :
    (host : Host) (iface : UdpIface) (o : Socks5) (t : Trace) (inbox : Bytes)
    → Streams host (iface.get_fd o) inbox
    → Arrives host true (iface.get_fd o) inbox
    → o.kind ≡ udp_in_tcp
    → (fd : ℤ) (d : Datagram) (ds : List Datagram) (blocks : List Bytes) (bound : Bool)
      (bytes : Bytes)
    → stream_of (d ∷ ds) ≡ some bytes
    → drop (consumed (iface.get_fd o) t) inbox ≡ bytes
    → AllFit (map slot blocks) (d ∷ ds)
    → AllLiteral (d ∷ ds)
    → ((t' : Trace) → is_neg (host.on_binder t' fd (literal d.addr)) ≡ false)
    → let packets = deliveries (d ∷ ds) in
      let ((res, bound', _), _, t') = fwd_f host iface fd blocks bound o t in
      (t1 : Trace) × (t' ≡ batch_sent fd packets (host.on_sendmmsg t1 fd packets) ∷ t1)
      × ((is_nonpos (host.on_sendmmsg t1 fd packets) ≡ true) ⊎ (res ≡ pos 1))
      × (bound' ≡ true)
fwd_f-delivers host iface o t inbox streams arrives k fd d ds blocks bound bytes e u fit lit binds =
    let read =
      udp_recvmmsg-stream host iface o t inbox true streams arrives k (d ∷ ds) (map slot blocks)
        bytes e u fit (omega arith) in
    fwd_f-carried host iface o t fd d ds blocks bound read lit binds

-- The packets that hev_socks5_udp_sendmmsg_udp makes of at least one datagram, each with an IPv4 or
-- an IPv6 address and a payload, arrive together at an association, from one sender, and they fit
-- the blocks of the buffer. Where connecting to the sender and the binder do not fail,
-- hev_socks5_udp_fwd_f sends all payloads to the addresses in one call, which is the last one that
-- it makes. It returns 1 unless that call has no positive result, and the relay counts as bound.
pub fwd_f-packets :
    (host : Host) (iface : UdpIface) (o : Socks5) (t : Trace) (from : Sockaddr)
    → o.kind ≡ udp_in_udp
    → (fd : ℤ) (d : Datagram) (ds : List Datagram) (blocks : List Bytes) (bound : Bool)
      (ps : List (Option Sockaddr × Bytes))
    → packets_of (d ∷ ds) ≡ some ps
    → ((t' : Trace) (sizes : List ℕ)
        → host.on_recvmmsg t' (iface.get_fd o) sizes ≡ got_batch (arriving from ps))
    → ((t' : Trace) → is_neg (host.on_connect t' (iface.get_fd o) from) ≡ false)
    → AllFitUdp (map slot blocks) (d ∷ ds)
    → AllLiteral (d ∷ ds)
    → ((t' : Trace) → is_neg (host.on_binder t' fd (literal d.addr)) ≡ false)
    → let packets = deliveries (d ∷ ds) in
      let ((res, bound', _), _, t') = fwd_f host iface fd blocks bound o t in
      (t1 : Trace) × (t' ≡ batch_sent fd packets (host.on_sendmmsg t1 fd packets) ∷ t1)
      × ((is_nonpos (host.on_sendmmsg t1 fd packets) ≡ true) ⊎ (res ≡ pos 1))
      × (bound' ≡ true)
fwd_f-packets host iface o t from k fd d ds blocks bound ps e arrive connects fit lit binds =
    let (r, all, set) =
      udp_recvmmsg-packets host iface o t true from k (d ∷ ds) (map slot blocks) ps e arrive
        connects fit (omega arith) in
    fwd_f-carried host iface o t fd d ds blocks bound (r, all) lit binds
