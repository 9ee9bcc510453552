-- ===== src/Udp/Short.antt =====
-- A datagram of fewer than four bytes on an association: what hev_socks5_udp_fwd_f makes of the batch
-- it arrives in.
use hev_socks5_core.Base.{
  ℕ, zero, suc, ◌+◌, ◌<◌, ◌≡◌, refl, sym, ap, ◌∙◌, Bool, true, false, ℤ, pos, minus_one, arith,
  Option, none, some, List, [], ◌∷◌, ◌++◌, Bytes, length, map, is_neg, ltb, subst, drop, read_at,
}
use hev_socks5_core.Host.{M, Host, Trace, Sockaddr, got_batch, batch_received}
use hev_socks5_core.Misc.Addr.{Addr, zero_sockaddr, domain_len, c_string}
use hev_socks5_core.Sockets.{batches}
use hev_socks5_core.Udp.Waiting.{waits-Waited}
use hev_socks5_core.Misc.Bytes16.{ntohs_bytes}
use hev_socks5_core.Misc.Resolve.{addr_into_sockaddr6, name_into_sockaddr6, name_resolve_name}
use hev_socks5_core.Socks5.{Socks5, udp_in_udp}
use hev_socks5_core.Udp.Defs.{UdpIface, Msg, Datagram, Pointer, wild, null, at, waits}
use hev_socks5_core.Udp.Send.{packets_of}
use hev_socks5_core.Udp.RecvUdp.{
  settle_msg, settle_msgs, fill_all, associate_with, take_batch, read_batch, recvmmsg_udp, recv_as,
  udp_recvmmsg, set_associated,
}
use hev_socks5_core.Udp.Forward.{
  slot, resolve_at, destination, payload_of, add_entry, gather, send_found, relay_out, fwd_f,
}
use hev_socks5_core.Udp.Association.{
  AllFitUdp, arriving, packets_of-cons, settle_msg-frame, take_batch-goes_on,
}

-- the message at place i is empty
abbrev EmptyAt : ℕ → List Msg → Type 0
EmptyAt i [] = ⊥
EmptyAt zero (m ∷ ms) = m.len ≡ 0
EmptyAt (suc i) (m ∷ ms) = EmptyAt i ms

settle_msgs-EmptyAt :
    (from : Sockaddr) (bytes : Bytes) (ds : List Datagram) (ms : List Msg)
    (ps : List (Option Sockaddr × Bytes))
    → length bytes < 4
    → packets_of ds ≡ some ps
    → AllFitUdp ms ds
    → length ds < length ms
    → let xs = arriving from ps ++ ((bytes, from) ∷ []) in
      let (ok, ms') = settle_msgs (fill_all ms xs) xs in
      (ok ≡ true) × EmptyAt (length ds) ms' × (length xs ≡ suc (length ds))
unfolding settle_msgs settle_msg fill_all packets_of
settle_msgs-EmptyAt from bytes [] [] ps short e fit room = absurd (omega arith)
settle_msgs-EmptyAt from bytes [] (m ∷ []) ps short e fit room =
    let n : ps ≡ [] = cc in
    let b : ltb (length bytes) 4 ≡ true = ground arith in rw (n, b) (refl, refl, refl)
settle_msgs-EmptyAt from bytes [] (m ∷ m2 ∷ ms) ps short e fit room =
    let n : ps ≡ [] = cc in
    let b : ltb (length bytes) 4 ≡ true = ground arith in rw (n, b) (refl, refl, refl)
settle_msgs-EmptyAt from bytes (d ∷ ds) [] ps short e fit room = absurd fit
settle_msgs-EmptyAt from bytes (d ∷ ds) (m ∷ ms) ps short e fit room =
    let (f, qs, ef, eqs, eps) = packets_of-cons d ds ps e in
    let (ok, carries) = settle_msg-frame m d f fit.0 ef in
    let (all_ok, empty, l) =
      settle_msgs-EmptyAt from bytes ds ms qs short eqs fit.1 (omega arith) in
    rw (eps, settle_msgs, ok, all_ok) (refl, empty, ap suc l)

-- where the rest of the loop gives nothing, the whole of it gives nothing
add_entry-none :
    (dest : Option Sockaddr) (bytes : Bytes)
    (rest : M Socks5 (Option (List (Option Sockaddr × Bytes)))) (o : Socks5) (t : Trace)
    → let (ds, _, t') = rest o t in
      (ds ≡ none) × (batches t' ≡ batches t)
      → let (ds', _, t2) = add_entry dest bytes rest o t in (ds' ≡ none) × (batches t2 ≡ batches t)
unfolding add_entry
add_entry-none none bytes rest o t h = (refl, refl)
add_entry-none (some sa) bytes rest o t (e, kept) = rw e (refl, kept)

-- the first packet of such a batch
batch-front :
    (from : Sockaddr) (bytes : Bytes) (ps : List (Option Sockaddr × Bytes))
    → (f : Bytes) × (rest : List (Bytes × Sockaddr)) × (arriving from ps ++ ((bytes, from) ∷ [])
        ≡ (f, from) ∷ rest)
batch-front from bytes [] = (bytes, [], refl)
batch-front from bytes ((to, f) ∷ ps) = (f, arriving from ps ++ ((bytes, from) ∷ []), refl)

module _ (host : Host) where
  name_into_sockaddr6-sends :
      (o : Socks5) (t : Trace) (name : Bytes) (port : ℕ) (sa : Sockaddr) (family : ℕ)
      → batches (name_into_sockaddr6 host name port sa family o t).2 ≡ batches t
  unfolding name_into_sockaddr6 name_resolve_name batches
  name_into_sockaddr6-sends o t name port sa family = ground arith

  addr_into_sockaddr6-sends :
      (o : Socks5) (t : Trace) (a : Addr) (sa : Sockaddr) (family : ℕ)
      → batches (addr_into_sockaddr6 host a sa family o t).2 ≡ batches t
  unfolding addr_into_sockaddr6
  addr_into_sockaddr6-sends o t a sa family =
      let name = c_string (read_at a 2 (domain_len a)) in
      let port = ntohs_bytes (read_at a (2 + domain_len a) 2) in
      let kept = name_into_sockaddr6-sends o t name port sa family in ground arith

  resolve_at-sends :
      (p : Pointer) (mem : Bytes) (o : Socks5) (t : Trace)
      → batches (resolve_at host p mem o t).2 ≡ batches t
  unfolding resolve_at batches
  resolve_at-sends wild mem o t = refl
  resolve_at-sends null mem o t = refl
  resolve_at-sends (at i) mem o t =
      addr_into_sockaddr6-sends o t (drop i mem) zero_sockaddr o.addr_family

  destination-sends :
      (m : Msg) (o : Socks5) (t : Trace) → batches (destination host m o t).2 ≡ batches t
  unfolding destination
  destination-sends m o t = let kept = resolve_at-sends m.addr m.mem o t in ground arith

  gather-EmptyAt :
      (n i : ℕ) (ms : List Msg) (o : Socks5) (t : Trace)
      → i < n
      → EmptyAt i ms
      → let (ds, _, t') = gather host n ms o t in (ds ≡ none) × (batches t' ≡ batches t)
  unfolding gather add_entry destination
  gather-EmptyAt zero i ms o t h empty = absurd (omega arith)
  gather-EmptyAt (suc n) i [] o t h empty = absurd empty
  gather-EmptyAt (suc n) zero (m ∷ ms) o t h empty = rw empty (refl, refl)
  gather-EmptyAt (suc n) (suc i) (m ∷ ms) o t h empty =
      let kept = destination-sends m o t in
      let (dest, o1, t1) = destination host m o t in
      let later = gather-EmptyAt n i ms o1 t1 (omega arith) empty in
      let (e, same) = add_entry-none dest (payload_of m) (gather host n ms) o1 t1 later in
      (e, same ∙ kept)

  take_batch-sends :
      (fd : ℤ) (ms : List Msg) (d : Bytes × Sockaddr) (ds : List (Bytes × Sockaddr)) (o : Socks5)
      (t : Trace)
      → batches (take_batch host fd ms d ds o t).2 ≡ batches t
  unfolding take_batch associate_with set_associated batches
  take_batch-sends fd ms d ds o t = ground arith

  recvmmsg-short :
      (iface : UdpIface) (o : Socks5) (t : Trace) (from : Sockaddr) (bytes : Bytes)
      → o.kind ≡ udp_in_udp
      → (ds : List Datagram) (ms : List Msg) (ps : List (Option Sockaddr × Bytes))
      → packets_of ds ≡ some ps
      → length bytes < 4
      → let xs = arriving from ps ++ ((bytes, from) ∷ []) in
        ((t' : Trace) (sizes : List ℕ) → host.on_recvmmsg t' (iface.get_fd o) sizes ≡ got_batch xs)
        → ((t' : Trace) → is_neg (host.on_connect t' (iface.get_fd o) from) ≡ false)
        → AllFitUdp ms ds
        → length ds < length ms
        → let ((res, ms'), _, t') = udp_recvmmsg host iface ms true o t in
          (res ≡ pos (suc (length ds))) × EmptyAt (length ds) ms' × (batches t' ≡ batches t)
  unfolding udp_recvmmsg recv_as recvmmsg_udp read_batch batches
  recvmmsg-short iface o t from bytes k ds ms ps e short arrive connects fit room =
      let fd = iface.get_fd o in
      let w = (waits-Waited host fd o t).9 in
      let (_, o1, t1) = waits host o t in
      let sizes = map (λ (m : Msg). m.len) ms in
      let (f, rest, exs) = batch-front from bytes ps in
      let t2 : Trace = batch_received fd sizes (got_batch ((f, from) ∷ rest)) ∷ t1 in
      let (ok, empty, l) = rw exs at (settle_msgs-EmptyAt from bytes ds ms ps short e fit room) in
      let batch = rw exs at (arrive t1 sizes) in
      let (r, same, set) = take_batch-goes_on host o1 t2 fd from ms f rest connects ok in
      let kept = take_batch-sends fd ms (f, from) rest o1 t2 in
      simp (k, batch) (r ∙ ap pos l, subst (λ x. EmptyAt (length ds) x) (sym same) empty, kept ∙ w)

  -- An association receives a batch from one sender: the last datagram of it has fewer than four
  -- bytes, and those before it are packets that hev_socks5_udp_sendmmsg_udp has made, each of which
  -- fits the block at its place; connecting to the sender does not fail. Then hev_socks5_udp_fwd_f
  -- returns -1 and sends none of the batch.
  pub fwd_f-short :
      (iface : UdpIface) (o : Socks5) (t : Trace) (from : Sockaddr) (bytes : Bytes)
      → o.kind ≡ udp_in_udp
      → (fd : ℤ) (ds : List Datagram) (blocks : List Bytes) (bound : Bool)
        (ps : List (Option Sockaddr × Bytes))
      → packets_of ds ≡ some ps
      → length bytes < 4
      → ((t' : Trace) (sizes : List ℕ)
          → host.on_recvmmsg t' (iface.get_fd o) sizes
            ≡ got_batch (arriving from ps ++ ((bytes, from) ∷ [])))
      → ((t' : Trace) → is_neg (host.on_connect t' (iface.get_fd o) from) ≡ false)
      → AllFitUdp (map slot blocks) ds
      → length ds < length (map slot blocks)
      → let ((res, bound', _), _, t') = fwd_f host iface fd blocks bound o t in
        (res ≡ minus_one) × (bound' ≡ bound) × (batches t' ≡ batches t)
  unfolding fwd_f relay_out send_found
  fwd_f-short iface o t from bytes k fd ds blocks bound ps e short arrive connects fit room =
      let (r, empty, kept) =
        recvmmsg-short iface o t from bytes k ds (map slot blocks) ps e short arrive connects fit
          room in
      let ((_, ms), o1, t1) = udp_recvmmsg host iface (map slot blocks) true o t in
      let (none_found, same) =
        gather-EmptyAt (suc (length ds)) (length ds) ms o1 t1 (omega arith) empty in
      rw (r, none_found) (refl, refl, same ∙ kept)
