-- ===== src/Udp/RecvUdp.antt =====
-- hev_socks5_udp_recvmmsg_udp: datagrams are read from an association. With it,
-- hev_socks5_udp_recvmmsg.
use hev_socks5_core.Base.{
  ℕ, ◌+◌, ◌-◌, Bool, true, false, List, [], ◌∷◌, Bytes, ℤ, pos, negsuc, minus_one, is_neg,
  is_nonpos, length, drop, write_at, ltb, map, if◌then◌else◌,
}
use hev_socks5_core.Host.{
  Host, Sockaddr, Batch, got_batch, batch_failed, M, pure, self, modify, ◌>>=◌, ◌>>◌, connect,
  recvmmsg,
}
use hev_socks5_core.Misc.Addr.{addr_len}
use hev_socks5_core.Socks5.{Socks5, Kind, no_type, tcp, udp_in_tcp, udp_in_udp}
use hev_socks5_core.Udp.Defs.{UdpIface, Msg, null, at, waits}
use hev_socks5_core.Udp.Recv.{recvmmsg_tcp}

-- `3 + addrlen`, where `addrlen` is positive
unfoldable pub data_offset : ℤ → ℕ
data_offset (pos n) = 3 + n
data_offset (negsuc n) = 0

-- a round of the loop for a message of n bytes that stands in its buffer; `false` where it returns -1
unfoldable pub settle_msg : Msg → ℕ → Bool × Msg
unfolding data_offset
settle_msg m n =
    let addrlen = addr_len (drop (m.buf + 3) m.mem) in
    if ltb n 4
    then (true, record m { addr = null; len = 0 })
    else if is_nonpos addrlen
    then (false, record m { len = n })
    else if ltb n (data_offset addrlen)
    then (false, record m { len = n })
    else (
      true,
      record m {
        addr = at (m.buf + 3);
        buf = m.buf + data_offset addrlen;
        len = n - data_offset addrlen;
      },
    )

-- what hev_task_io_socket_recvmmsg writes into the buffers
unfoldable pub fill_all : List Msg → List (Bytes × Sockaddr) → List Msg
fill_all [] ds = []
fill_all (m ∷ ms) [] = m ∷ ms
fill_all (m ∷ ms) ((bytes, from) ∷ ds) =
    record m { mem = write_at m.mem m.buf bytes } ∷ fill_all ms ds

-- the loop over the messages that were received
unfoldable pub settle_msgs : List Msg → List (Bytes × Sockaddr) → Bool × List Msg
settle_msgs [] ds = (true, [])
settle_msgs (m ∷ ms) [] = (true, m ∷ ms)
settle_msgs (m ∷ ms) ((bytes, from) ∷ ds) =
    let (ok, m') = settle_msg m (length bytes) in
    let (all_ok, ms') = settle_msgs ms ds in if ok then (all_ok, m' ∷ ms') else (false, m' ∷ ms)

unfoldable pub set_associated : M Socks5 (Unit {0})
set_associated = modify (λ (o : Socks5). record o { udp_associated = true })

module _ (host : Host) where
  -- the first sender becomes the peer; `true` where the code goes on
  unfoldable pub associate_with : ℤ → Sockaddr → M Socks5 Bool
  associate_with fd from = do
    o ← self
    if o.udp_associated then pure true else do
      res ← connect host fd from
      if is_neg res then pure false else do set_associated; pure true

  -- behind a read of the datagram `d` and `ds`
  unfoldable pub take_batch :
      ℤ → List Msg → (Bytes × Sockaddr) → List (Bytes × Sockaddr) → M Socks5 (ℤ × List Msg)
  take_batch fd ms d ds = do
    goes_on ← associate_with fd d.1
    let (ok, ms') = settle_msgs (fill_all ms (d ∷ ds)) (d ∷ ds)
    if goes_on
        then pure (if ok then pos (length (d ∷ ds)) else minus_one, ms')
        else pure (minus_one, fill_all ms (d ∷ ds))

  unfoldable pub read_batch : ℤ → List Msg → Batch → M Socks5 (ℤ × List Msg)
  read_batch fd ms (batch_failed n) = pure (negsuc n, ms)
  read_batch fd ms (got_batch []) = pure (pos 0, ms)
  read_batch fd ms (got_batch (d ∷ ds)) = take_batch fd ms d ds

  -- hev_socks5_udp_recvmmsg_udp
  unfoldable pub recvmmsg_udp : UdpIface → List Msg → Bool → M Socks5 (ℤ × List Msg)
  recvmmsg_udp iface ms nonblock = do
    o ← self
    waits host
    batch ← recvmmsg host (iface.get_fd o) (map (λ (m : Msg). m.len) ms)
    read_batch (iface.get_fd o) ms batch

  unfoldable pub recv_as : Kind → UdpIface → List Msg → Bool → M Socks5 (ℤ × List Msg)
  recv_as no_type iface ms nonblock = pure (minus_one, ms)
  recv_as tcp iface ms nonblock = pure (minus_one, ms)
  recv_as udp_in_tcp iface ms nonblock = recvmmsg_tcp host iface ms nonblock
  recv_as udp_in_udp iface ms nonblock = recvmmsg_udp iface ms nonblock

  -- hev_socks5_udp_recvmmsg
  unfoldable pub udp_recvmmsg : UdpIface → List Msg → Bool → M Socks5 (ℤ × List Msg)
  udp_recvmmsg iface ms nonblock = do o ← self; recv_as o.kind iface ms nonblock
