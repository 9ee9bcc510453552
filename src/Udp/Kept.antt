-- ===== src/Udp/Kept.antt =====
-- The relay opens and closes no descriptor, and the object keeps its own and its kind.
use hev_socks5_core.Base.{
  ℕ, suc, ◌≡◌, refl, Bool, List, [], ◌∷◌, Bytes, ℤ, arith, map, is_pos, Bool-cases, Option-cases,
  inl, inr,
}
use hev_socks5_core.Host.{
  Host, Trace, batch_received, Sockaddr, Batch, got_batch, batch_failed, got, received,
}
use hev_socks5_core.Wire.{Received-cases}
use hev_socks5_core.Sockets.{opens, closes, grants, frees}
use hev_socks5_core.Socks5.{Socks5, Kind, no_type, tcp, udp_in_tcp, udp_in_udp}
use hev_socks5_core.Udp.Defs.{UdpIface, Msg, Datagram, waits}
use hev_socks5_core.Udp.Send.{
  stream_of, packets_of, sendmmsg_tcp, sendmmsg_udp, send_as, udp_sendmmsg,
}
use hev_socks5_core.Udp.Recv.{
  sizes_of, read_rest, read_head, read_body, recv_one, recv_loop, recvmmsg_tcp,
}
use hev_socks5_core.Udp.RecvUdp.{
  associate_with, set_associated, take_batch, read_batch, recvmmsg_udp, recv_as, udp_recvmmsg,
}
use hev_socks5_core.Udp.Waiting.{waits-Waited}

-- from (o, t) to (o', t') no descriptor fd is opened or closed, no memory is granted or given back,
-- and the object has the same descriptor and kind
abbrev pub Kept : ℤ → Socks5 → Trace → Socks5 → Trace → Type 0
Kept fd o t o' t' =
    (o'.fd ≡ o.fd)
    × (o'.kind ≡ o.kind)
    × (opens fd t' ≡ opens fd t)
    × (closes fd t' ≡ closes fd t)
    × (grants t' ≡ grants t)
    × (frees t' ≡ frees t)

module _ (host : Host) (n : ℤ) (o : Socks5) (t : Trace) where
  pub waits-Kept : let (_, o', t') = waits host o t in Kept n o t o' t'
  waits-Kept = ground (arith, waits-Waited host n o t)

  sendmmsg_tcp-Kept :
      (iface : UdpIface) (ds : List Datagram)
      → let (_, o', t') = sendmmsg_tcp host iface ds o t in Kept n o t o' t'
  unfolding sendmmsg_tcp opens closes grants frees
  sendmmsg_tcp-Kept iface ds = elim (Option-cases (stream_of ds)) [
    | inl e ↦ rw (sendmmsg_tcp, e) (refl, refl, refl, refl, refl, refl)
    | inr (b, e) ↦ rw (sendmmsg_tcp, e) (ground (arith, waits-Kept))
  ]

  sendmmsg_udp-Kept :
      (iface : UdpIface) (ds : List Datagram)
      → let (_, o', t') = sendmmsg_udp host iface ds o t in Kept n o t o' t'
  unfolding sendmmsg_udp opens closes grants frees
  sendmmsg_udp-Kept iface ds = elim (Option-cases (packets_of ds)) [
    | inl e ↦ rw (sendmmsg_udp, e) (refl, refl, refl, refl, refl, refl)
    | inr (b, e) ↦ rw (sendmmsg_udp, e) (ground (arith, waits-Kept))
  ]

  send_as-Kept :
      (iface : UdpIface) (kind : Kind) (ds : List Datagram)
      → let (_, o', t') = send_as host iface kind ds o t in Kept n o t o' t'
  unfolding send_as
  send_as-Kept iface no_type ds = (refl, refl, refl, refl, refl, refl)
  send_as-Kept iface tcp ds = (refl, refl, refl, refl, refl, refl)
  send_as-Kept iface udp_in_tcp ds = sendmmsg_tcp-Kept iface ds
  send_as-Kept iface udp_in_udp ds = sendmmsg_udp-Kept iface ds

  pub udp_sendmmsg-Kept :
      (iface : UdpIface) (ds : List Datagram)
      → let (_, o', t') = udp_sendmmsg host iface ds o t in Kept n o t o' t'
  unfolding udp_sendmmsg
  udp_sendmmsg-Kept iface ds = send_as-Kept iface o.kind ds

module _ (host : Host) (n : ℤ) (o : Socks5) (t : Trace) where
  read_rest-Kept :
      (fd : ℤ) (head : Bytes) → let (_, o', t') = read_rest host fd head o t in Kept n o t o' t'
  unfolding read_rest opens closes grants frees
  read_rest-Kept fd head = ground (arith, waits-Kept host n o t)

  read_body-Kept :
      (fd : ℤ) (head : Bytes) (m : Msg) (addrlen datlen : ℕ)
      → let (_, o', t') = read_body host fd head m addrlen datlen o t in Kept n o t o' t'
  unfolding read_body opens closes grants frees
  read_body-Kept fd head m addrlen datlen = ground (arith, waits-Kept host n o t)

module _ (host : Host) (n : ℤ) (o : Socks5) (t : Trace) where
  read_head-Kept :
      (nonblock : Bool) (fd : ℤ)
      → let (_, o', t') = read_head host nonblock fd o t in Kept n o t o' t'
  unfolding read_head opens closes grants frees
  read_head-Kept nonblock fd =
      let (_, o1, t1) = waits host o t in
      let w = waits-Kept host n o t in
      let r = host.on_recv_some t1 nonblock fd 5 in
      elim (Received-cases r) [
        | inl (b, e) ↦
            rw (read_head, e, read_head)
              (ground (arith, w, read_rest-Kept host n o1 (received fd 5 (got b) ∷ t1) fd b))
        | inr (k, e) ↦ rw (read_head, e, read_head) (ground (arith, w))
      ]

module _ (host : Host) (n : ℤ) (o : Socks5) (t : Trace) where
  recv_one-Kept :
      (nonblock : Bool) (fd : ℤ) (rlen : ℕ) (m : Msg)
      → let (_, o', t') = recv_one host nonblock fd rlen m o t in Kept n o t o' t'
  unfolding recv_one
  recv_one-Kept nonblock fd rlen m =
      let ((res, head), o1, t1) = read_head host nonblock fd o t in
      let h = read_head-Kept host n o t nonblock fd in
      elim (Bool-cases (is_pos res 5)) [
        | inl b ↦ elim (Option-cases (sizes_of head m.len)) [
          | inl e ↦ rw (recv_one, b, e) h
          | inr ((a, d), e) ↦
              rw (recv_one, b, e) (ground (arith, h, read_body-Kept host n o1 t1 fd head m a d))
        ]
        | inr b ↦ rw (recv_one, b) h
      ]

recv_loop-Kept :
    (host : Host) (n : ℤ) (nonblock : Bool) (fd : ℤ) (ms : List Msg) (rlen : ℕ) (o : Socks5)
    (t : Trace)
    → let (_, o', t') = recv_loop host nonblock fd rlen ms o t in Kept n o t o' t'
unfolding recv_loop recv_one opens closes grants frees read_head
recv_loop-Kept host n nonblock fd [] rlen o t = (refl, refl, refl, refl, refl, refl)
recv_loop-Kept host n nonblock fd (m ∷ ms) rlen o t =
    let ((done, m'), o1, t1) = recv_one host nonblock fd rlen m o t in
    let h = recv_one-Kept host n o t nonblock fd rlen m in
    elim (Option-cases done) [
      | inl e ↦
          rw (recv_loop, e)
            (ground (arith, h, recv_loop-Kept host n nonblock fd ms (suc rlen) o1 t1))
      | inr (res, e) ↦ rw (recv_loop, e) h
    ]

module _ (host : Host) (n : ℤ) (o : Socks5) (t : Trace) where
  associate_with-Kept :
      (fd : ℤ) (from : Sockaddr)
      → let (_, o', t') = associate_with host fd from o t in Kept n o t o' t'
  unfolding associate_with set_associated opens closes grants frees
  associate_with-Kept fd from = ground arith

module _ (host : Host) (n : ℤ) (o : Socks5) (t : Trace) where
  read_batch-Kept :
      (fd : ℤ) (ms : List Msg) (b : Batch)
      → let (_, o', t') = read_batch host fd ms b o t in Kept n o t o' t'
  unfolding read_batch take_batch
  read_batch-Kept fd ms (batch_failed k) = (refl, refl, refl, refl, refl, refl)
  read_batch-Kept fd ms (got_batch []) = (refl, refl, refl, refl, refl, refl)
  read_batch-Kept fd ms (got_batch (d ∷ ds)) = ground (arith, associate_with-Kept host n o t fd d.1)

module _ (host : Host) (n : ℤ) (o : Socks5) (t : Trace) where
  recvmmsg_udp-Kept :
      (iface : UdpIface) (ms : List Msg) (nonblock : Bool)
      → let (_, o', t') = recvmmsg_udp host iface ms nonblock o t in Kept n o t o' t'
  unfolding recvmmsg_udp opens closes grants frees
  recvmmsg_udp-Kept iface ms nonblock =
      let (_, o1, t1) = waits host o t in
      let fd = iface.get_fd o in
      let sizes = map (λ (m : Msg). m.len) ms in
      let b = host.on_recvmmsg t1 fd sizes in
      ground (
        arith,
        waits-Kept host n o t,
        read_batch-Kept host n o1 (batch_received fd sizes b ∷ t1) fd ms b,
      )

  recv_as-Kept :
      (iface : UdpIface) (kind : Kind) (ms : List Msg) (nonblock : Bool)
      → let (_, o', t') = recv_as host kind iface ms nonblock o t in Kept n o t o' t'
  unfolding recv_as recvmmsg_tcp
  recv_as-Kept iface no_type ms nonblock = (refl, refl, refl, refl, refl, refl)
  recv_as-Kept iface tcp ms nonblock = (refl, refl, refl, refl, refl, refl)
  recv_as-Kept iface udp_in_tcp ms nonblock =
      recv_loop-Kept host n nonblock (iface.get_fd o) ms 0 o t
  recv_as-Kept iface udp_in_udp ms nonblock = recvmmsg_udp-Kept iface ms nonblock

  pub udp_recvmmsg-Kept :
      (iface : UdpIface) (ms : List Msg) (nonblock : Bool)
      → let (_, o', t') = udp_recvmmsg host iface ms nonblock o t in Kept n o t o' t'
  unfolding udp_recvmmsg
  udp_recvmmsg-Kept iface ms nonblock = recv_as-Kept iface o.kind ms nonblock
