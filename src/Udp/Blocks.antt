-- ===== src/Udp/Blocks.antt =====
-- The relay of an association and both directions stay inside of the blocks of the buffer.
use hev_socks5_core.Base.{
  ℕ, zero, suc, ◌+◌, ◌≤◌, ◌≡◌, refl, ap, ◌∙◌, Bool, true, ℤ, arith, Bool-cases, inl, inr, is_neg,
  List, [], ◌∷◌, Bytes, length, length-write_at, write_at, map, replicate, ◌*◌,
}
use hev_socks5_core.Host.{Host, Trace, Batch, got_batch, batch_failed, Sockaddr, batch_received}
use hev_socks5_core.Socks5.{Socks5, Kind, no_type, tcp, udp_in_tcp, udp_in_udp}
use hev_socks5_core.Udp.Defs.{UdpIface, Msg, udp_buf_size, waits}
use hev_socks5_core.Udp.Recv.{recvmmsg_tcp}
use hev_socks5_core.Udp.RecvUdp.{
  data_offset, settle_msg, settle_msgs, fill_all, associate_with, take_batch, read_batch,
  recvmmsg_udp, recv_as, udp_recvmmsg,
}
use hev_socks5_core.Udp.Forward.{slot, store_all, stored, fwd_f, fwd_b}
use hev_socks5_core.Udp.Bounds.{
  SoundReads, Within, SoundBatches, IsSlot, InBlock, AllSlots, AllInBlock, slots_in_block,
  recv_loop-InBlock,
}
use hev_socks5_core.Udp.Splice.{
  Relay, forward, backward, splice_round, bytes_from, blocks_from, start,
}

-- the messages of an association
settle_msg-InBlock :
    (m : Msg) (b : Bytes)
    → IsSlot m
    → length b ≤ udp_buf_size
    → InBlock (settle_msg (record m { mem = write_at m.mem m.buf b }) (length b)).1
unfolding settle_msg data_offset
settle_msg-InBlock m b (l, z, n) h =
    let w = length-write_at m.mem m.buf b (omega arith) in ground arith

fill_all-InBlock :
    (ms : List Msg) (ds : List (Bytes × Sockaddr))
    → AllSlots ms
    → Within ds (map (λ (m : Msg). m.len) ms)
    → AllInBlock (fill_all ms ds)
unfolding fill_all
fill_all-InBlock [] ds h w = tt
fill_all-InBlock (m ∷ ms) [] h w = slots_in_block (m ∷ ms) h
fill_all-InBlock (m ∷ ms) (d ∷ ds) ((l, z, n), hs) (k, ks) =
    ((length-write_at m.mem m.buf d.0 (omega arith) ∙ l, omega arith), fill_all-InBlock ms ds hs ks)

settle_msgs-InBlock :
    (ms : List Msg) (ds : List (Bytes × Sockaddr))
    → AllSlots ms
    → Within ds (map (λ (m : Msg). m.len) ms)
    → AllInBlock (settle_msgs (fill_all ms ds) ds).1
unfolding settle_msgs fill_all
settle_msgs-InBlock [] ds h w = tt
settle_msgs-InBlock (m ∷ ms) [] h w = slots_in_block (m ∷ ms) h
settle_msgs-InBlock (m ∷ ms) (d ∷ ds) ((l, z, n), hs) (k, ks) =
    let one = settle_msg-InBlock m d.0 (l, z, n) (omega arith) in
    let (ok, m') = settle_msg (record m { mem = write_at m.mem m.buf d.0 }) (length d.0) in
    elim (Bool-cases ok) [
      | inl e ↦ rw (settle_msgs, e) (one, settle_msgs-InBlock ms ds hs ks)
      | inr e ↦ rw (settle_msgs, e) (one, fill_all-InBlock ms ds hs ks)
    ]

module _ (host : Host) (sound : SoundBatches host) (o : Socks5) (t : Trace) where
  take_batch-InBlock :
      (fd : ℤ) (ms : List Msg) (d : Bytes × Sockaddr) (ds : List (Bytes × Sockaddr))
      → AllSlots ms
      → Within (d ∷ ds) (map (λ (m : Msg). m.len) ms)
      → AllInBlock (take_batch host fd ms d ds o t).0.1
  unfolding take_batch
  take_batch-InBlock fd ms d ds h w = elim (Bool-cases (associate_with host fd d.1 o t).0) [
    | inl e ↦ rw (take_batch, e) (settle_msgs-InBlock ms (d ∷ ds) h w)
    | inr e ↦ rw (take_batch, e) (fill_all-InBlock ms (d ∷ ds) h w)
  ]

  read_batch-InBlock :
      (fd : ℤ) (ms : List Msg) (b : Batch)
      → AllSlots ms
      → ((ds : List (Bytes × Sockaddr))
          → b ≡ got_batch ds
          → Within ds (map (λ (m : Msg). m.len) ms))
      → AllInBlock (read_batch host fd ms b o t).0.1
  unfolding read_batch
  read_batch-InBlock fd ms (batch_failed n) h w = slots_in_block ms h
  read_batch-InBlock fd ms (got_batch []) h w = slots_in_block ms h
  read_batch-InBlock fd ms (got_batch (d ∷ ds)) h w =
      take_batch-InBlock fd ms d ds h (w (d ∷ ds) refl)

module _ (host : Host) (reads : SoundReads host) (batches : SoundBatches host) (iface : UdpIface)
    (nonblock : Bool) (o : Socks5) (t : Trace) where
  recv_as-InBlock :
      (kind : Kind) (ms : List Msg)
      → AllSlots ms
      → AllInBlock (recv_as host kind iface ms nonblock o t).0.1
  unfolding recv_as recvmmsg_tcp recvmmsg_udp
  recv_as-InBlock no_type ms h = slots_in_block ms h
  recv_as-InBlock tcp ms h = slots_in_block ms h
  recv_as-InBlock udp_in_tcp ms h =
      recv_loop-InBlock host reads nonblock (iface.get_fd o) ms 0 o t h
  recv_as-InBlock udp_in_udp ms h =
      let (_, o1, t1) = waits host o t in
      let fd = iface.get_fd o in
      let sizes = map (λ (m : Msg). m.len) ms in
      let b = host.on_recvmmsg t1 fd sizes in
      read_batch-InBlock host batches o1 (batch_received fd sizes b ∷ t1) fd ms b h
        (batches t1 fd sizes)

  -- A message of which the whole block is free: hev_socks5_udp_recvmmsg writes only inside of the
  -- block, and the payload of each message lies inside of it, whatever the connection or the
  -- association delivers and whatever the result is.
  pub udp_recvmmsg-InBlock :
      (ms : List Msg) → AllSlots ms → AllInBlock (udp_recvmmsg host iface ms nonblock o t).0.1
  unfolding udp_recvmmsg
  udp_recvmmsg-InBlock ms h = recv_as-InBlock o.kind ms h

-- the blocks of the buffer, whole
abbrev pub AllBlocks : List Bytes → Type 0
AllBlocks [] = Unit {0}
AllBlocks (b ∷ bs) = (length b ≡ udp_buf_size) × AllBlocks bs

slots_of_blocks : (bs : List Bytes) → AllBlocks bs → AllSlots (map slot bs)
unfolding slot
slots_of_blocks [] h = tt
slots_of_blocks (b ∷ bs) (h, hs) = ((h, refl, refl), slots_of_blocks bs hs)

blocks_of_messages : (ms : List Msg) → AllInBlock ms → AllBlocks (map (λ (m : Msg). m.mem) ms)
blocks_of_messages [] h = tt
blocks_of_messages (m ∷ ms) (h, hs) = (h.0, blocks_of_messages ms hs)

length-bytes_from : (f : ℕ → ℕ) (i n : ℕ) → length (bytes_from f i n) ≡ n
length-bytes_from f i zero = refl
length-bytes_from f i (suc n) = ap suc (length-bytes_from f (i + 1) n)

blocks_from-AllBlocks : (f : ℕ → ℕ) (i n : ℕ) → AllBlocks (blocks_from f i n)
blocks_from-AllBlocks f i zero = tt
blocks_from-AllBlocks f i (suc n) =
    (length-bytes_from f i udp_buf_size, blocks_from-AllBlocks f (i + udp_buf_size) n)

store_all-AllBlocks :
    (blocks : List Bytes) (num : ℕ) (ds : List (Bytes × Sockaddr))
    → AllBlocks blocks
    → Within ds (replicate num udp_buf_size)
    → AllBlocks (store_all blocks ds)
unfolding store_all
store_all-AllBlocks [] num ds h w = tt
store_all-AllBlocks (b ∷ bs) num [] h w = h
store_all-AllBlocks (b ∷ bs) zero (d ∷ ds) h w = absurd w
store_all-AllBlocks (b ∷ bs) (suc num) (d ∷ ds) (h, hs) (k, ks) =
    (length-write_at b 0 d.0 (omega arith) ∙ h, store_all-AllBlocks bs num ds hs ks)

stored-AllBlocks :
    (blocks : List Bytes) (num : ℕ) (b : Batch)
    → AllBlocks blocks
    → ((ds : List (Bytes × Sockaddr)) → b ≡ got_batch ds → Within ds (replicate num udp_buf_size))
    → AllBlocks (stored blocks b)
unfolding stored
stored-AllBlocks blocks num (batch_failed n) h w = h
stored-AllBlocks blocks num (got_batch ds) h w = store_all-AllBlocks blocks num ds h (w ds refl)

-- both halves of the buffer
abbrev pub AllHalves : Relay → Type 0
AllHalves r = AllBlocks r.blocks × AllBlocks r.back_blocks

module _ (host : Host) (reads : SoundReads host) (batches : SoundBatches host) (iface : UdpIface)
    (fd : ℤ) where
  forward-AllHalves :
      (r : Relay) (o : Socks5) (t : Trace) → AllHalves r → AllHalves (forward host iface fd r o t).0
  unfolding forward fwd_f
  forward-AllHalves r o t (h, k) = elim (Bool-cases (is_neg r.res_f)) [
    | inl e ↦ rw (forward, e) (h, k)
    | inr e ↦
        rw (forward, e)
          (
            blocks_of_messages _ (
                udp_recvmmsg-InBlock host reads batches iface true o t (map slot r.blocks)
                  (slots_of_blocks r.blocks h)),
            k,
          )
  ]

  backward-AllHalves :
      (num : ℕ) (r : Relay) (o : Socks5) (t : Trace)
      → AllHalves r
      → AllHalves (backward host iface fd num r o t).0
  unfolding backward fwd_b
  backward-AllHalves num r o t (h, k) = elim (Bool-cases (is_neg r.res_b)) [
    | inl e ↦ rw (backward, e) (h, k)
    | inr e ↦
        let (_, o1, t1) = waits host o t in
        let sizes = replicate num udp_buf_size in
        let b = host.on_recvmmsg t1 fd sizes in
        rw (backward, e) (h, stored-AllBlocks r.back_blocks num b k (batches t1 fd sizes))
  ]

  -- The blocks of both halves of the relay's buffer keep their size in each round: no datagram is
  -- written beyond the end of its block, whatever arrives. A read is taken to return no more bytes
  -- than it was asked for, and a read of several datagrams no more of them than there are buffers.
  pub splice_round-AllBlocks :
      (num : ℕ) (r : Relay) (o : Socks5) (t : Trace)
      → AllBlocks r.blocks
      → AllBlocks r.back_blocks
      → let (_, r') = (splice_round host iface fd num r o t).0 in
        AllBlocks r'.blocks × AllBlocks r'.back_blocks
  unfolding splice_round
  splice_round-AllBlocks num r o t h k =
      let (r1, o1, t1) = forward host iface fd r o t in
      backward-AllHalves num r1 o1 t1 (forward-AllHalves r o t (h, k))

  -- the loop begins with whole blocks
  pub start-AllHalves :
      (num : ℕ) (o : Socks5) (t : Trace) → AllHalves (start host iface fd num o t).0
  unfolding start
  start-AllHalves num o t = (
    blocks_from-AllBlocks (host.uninit t) 0 num,
    blocks_from-AllBlocks (host.uninit t) (udp_buf_size * num) num,
  )
