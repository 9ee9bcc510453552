-- ===== src/Udp/Directions.antt =====
-- Both directions of the relay and its loop open and close no descriptor.
use hev_socks5_core.Base.{
  ℕ, zero, suc, ◌+◌, ◌≡◌, refl, Bool, true, false, List, [], ◌∷◌, Bytes, ℤ, pos, negsuc, arith, map,
  drop, Option, none, some, replicate, read_at,
}
use hev_socks5_core.Host.{M, Host, Trace, batch_received, Sockaddr, Batch, got_batch, batch_failed}
use hev_socks5_core.Sockets.{opens, closes, grants, frees}
use hev_socks5_core.Socks5.{Socks5}
use hev_socks5_core.Misc.Addr.{domain_len, c_string, Addr, zero_sockaddr}
use hev_socks5_core.Misc.Bytes16.{ntohs_bytes}
use hev_socks5_core.Misc.Resolve.{addr_into_sockaddr6, name_into_sockaddr6}
use hev_socks5_core.Udp.Defs.{UdpIface, Msg, Pointer, wild, null, at, udp_buf_size, waits}
use hev_socks5_core.Udp.Send.{udp_sendmmsg}
use hev_socks5_core.Udp.RecvUdp.{udp_recvmmsg}
use hev_socks5_core.Udp.Forward.{
  slot, settle_result, resolve_at, destination, gather, bind_once, first_dest, send_out, add_entry,
  send_found, payload_of, relay_out, fwd_f, relay_back, fwd_b, outgoing_all, stored,
}
use hev_socks5_core.Udp.Kept.{Kept, waits-Kept, udp_sendmmsg-Kept, udp_recvmmsg-Kept}

module _ (host : Host) (n : ℤ) (o : Socks5) (t : Trace) where
  resolver-Kept :
      (a : Bytes) (port : ℕ) (sa : Sockaddr) (family : ℕ)
      → let (_, o', t') = name_into_sockaddr6 host a port sa family o t in
        (o' ≡ o) × Kept n o t o' t'
  unfolding name_into_sockaddr6 opens closes grants frees
  resolver-Kept a port sa family = ground arith

  addr_into_sockaddr6-Kept :
      (a : Addr) (sa : Sockaddr) (family : ℕ)
      → let (_, o', t') = addr_into_sockaddr6 host a sa family o t in Kept n o t o' t'
  unfolding addr_into_sockaddr6
  addr_into_sockaddr6-Kept a sa family = ground (
    arith,
    resolver-Kept (c_string (read_at a 2 (domain_len a)))
        (ntohs_bytes (read_at a (2 + domain_len a) 2)) sa family,
  )

module _ (host : Host) (n : ℤ) (o : Socks5) (t : Trace) where
  resolve_at-Kept :
      (p : Pointer) (mem : Bytes) → let (_, o', t') = resolve_at host p mem o t in Kept n o t o' t'
  unfolding resolve_at opens closes grants frees
  resolve_at-Kept wild mem = (refl, refl, refl, refl, refl, refl)
  resolve_at-Kept null mem = (refl, refl, refl, refl, refl, refl)
  resolve_at-Kept (at i) mem =
      addr_into_sockaddr6-Kept host n o t (drop i mem) zero_sockaddr o.addr_family

module _ (host : Host) (n : ℤ) (o : Socks5) (t : Trace) where
  destination-Kept : (m : Msg) → let (_, o', t') = destination host m o t in Kept n o t o' t'
  unfolding destination
  destination-Kept m = ground (arith, resolve_at-Kept host n o t m.addr m.mem)

add_entry-Kept :
    (n : ℤ) (o : Socks5) (t : Trace) (dest : Option Sockaddr) (bytes : Bytes)
    (rest : M Socks5 (Option (List (Option Sockaddr × Bytes))))
    → let (_, o', t') = rest o t in
      Kept n o t o' t' → let (_, o', t') = add_entry dest bytes rest o t in Kept n o t o' t'
unfolding add_entry
add_entry-Kept n o t none bytes rest h = (refl, refl, refl, refl, refl, refl)
add_entry-Kept n o t (some sa) bytes rest h = h

gather-Kept :
    (host : Host) (n : ℤ) (k : ℕ) (ms : List Msg) (o : Socks5) (t : Trace)
    → let (_, o', t') = gather host k ms o t in Kept n o t o' t'
unfolding gather opens closes grants frees
gather-Kept host n zero ms o t = (refl, refl, refl, refl, refl, refl)
gather-Kept host n (suc k) [] o t = (refl, refl, refl, refl, refl, refl)
gather-Kept host n (suc k) (m ∷ ms) o t =
    let (dest, o1, t1) = destination host m o t in
    let rest = gather-Kept host n k ms o1 t1 in
    ground (
      arith,
      destination-Kept host n o t m,
      add_entry-Kept n o1 t1 dest (payload_of m) (gather host k ms) rest,
    )

module _ (host : Host) (n : ℤ) (o : Socks5) (t : Trace) where
  bind_once-Kept :
      (fd : ℤ) (bound : Bool) (dest : Option Sockaddr)
      → let (_, o', t') = bind_once host fd bound dest o t in Kept n o t o' t'
  unfolding bind_once opens closes grants frees
  bind_once-Kept fd true dest = (refl, refl, refl, refl, refl, refl)
  bind_once-Kept fd false none = (refl, refl, refl, refl, refl, refl)
  bind_once-Kept fd false (some sa) = (refl, refl, refl, refl, refl, refl)

  settle_result-Kept : (res : ℤ) → let (_, o', t') = settle_result host res o t in Kept n o t o' t'
  unfolding settle_result
  settle_result-Kept res = ground arith

module _ (host : Host) (n : ℤ) (o : Socks5) (t : Trace) where
  send_out-Kept :
      (fd : ℤ) (bound : Bool) (ds : List (Option Sockaddr × Bytes))
      → let (_, o', t') = send_out host fd bound ds o t in Kept n o t o' t'
  unfolding send_out settle_result opens closes grants frees
  send_out-Kept fd bound ds =
      let (_, o1, t1) = bind_once host fd bound (first_dest ds) o t in
      ground (arith, bind_once-Kept host n o t fd bound (first_dest ds), waits-Kept host n o1 t1)

module _ (host : Host) (n : ℤ) (o : Socks5) (t : Trace) where
  send_found-Kept :
      (fd : ℤ) (bound : Bool) (found : Option (List (Option Sockaddr × Bytes)))
      → let (_, o', t') = send_found host fd bound found o t in Kept n o t o' t'
  unfolding send_found
  send_found-Kept fd bound none = (refl, refl, refl, refl, refl, refl)
  send_found-Kept fd bound (some ds) = send_out-Kept host n o t fd bound ds

module _ (host : Host) (n : ℤ) (o : Socks5) (t : Trace) where
  relay_out-Kept :
      (fd : ℤ) (bound : Bool) (res : ℤ) (ms : List Msg)
      → let (_, o', t') = relay_out host fd bound res ms o t in Kept n o t o' t'
  unfolding relay_out
  relay_out-Kept fd bound (negsuc k) ms = settle_result-Kept host n o t (negsuc k)
  relay_out-Kept fd bound (pos zero) ms = settle_result-Kept host n o t (pos 0)
  relay_out-Kept fd bound (pos (suc k)) ms =
      let (found, o1, t1) = gather host (suc k) ms o t in
      let h = gather-Kept host n (suc k) ms o t in
      ground (arith, h, send_found-Kept host n o1 t1 fd bound found)

  relay_back-Kept :
      (iface : UdpIface) (blocks : List Bytes) (b : Batch)
      → let (_, o', t') = relay_back host iface blocks b o t in Kept n o t o' t'
  unfolding relay_back
  relay_back-Kept iface blocks (batch_failed k) = settle_result-Kept host n o t (negsuc k)
  relay_back-Kept iface blocks (got_batch []) = settle_result-Kept host n o t (pos 0)
  relay_back-Kept iface blocks (got_batch (d ∷ ds)) =
      let xs = outgoing_all blocks (d ∷ ds) in
      let (res, o1, t1) = udp_sendmmsg host iface xs o t in
      ground (arith, udp_sendmmsg-Kept host n o t iface xs, settle_result-Kept host n o1 t1 res)

module _ (host : Host) (n : ℤ) (o : Socks5) (t : Trace) where
  pub fwd_f-Kept :
      (iface : UdpIface) (fd : ℤ) (blocks : List Bytes) (bound : Bool)
      → let (_, o', t') = fwd_f host iface fd blocks bound o t in Kept n o t o' t'
  unfolding fwd_f
  fwd_f-Kept iface fd blocks bound =
      let ((res, ms), o1, t1) = udp_recvmmsg host iface (map slot blocks) true o t in
      ground (
        arith,
        udp_recvmmsg-Kept host n o t iface (map slot blocks) true,
        relay_out-Kept host n o1 t1 fd bound res ms,
      )

  pub fwd_b-Kept :
      (iface : UdpIface) (fd : ℤ) (num : ℕ) (blocks : List Bytes)
      → let (_, o', t') = fwd_b host iface fd num blocks o t in Kept n o t o' t'
  unfolding fwd_b opens closes grants frees
  fwd_b-Kept iface fd num blocks =
      let (_, o1, t1) = waits host o t in
      let sizes = replicate num udp_buf_size in
      let b = host.on_recvmmsg t1 fd sizes in
      ground (
        arith,
        waits-Kept host n o t,
        relay_back-Kept host n o1 (batch_received fd sizes b ∷ t1) iface (stored blocks b) b,
      )
