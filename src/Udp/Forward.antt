-- ===== src/Udp/Forward.antt =====
-- The two directions of the relay: hev_socks5_udp_fwd_f and hev_socks5_udp_fwd_b.
use hev_socks5_core.Base.{
  ℕ, zero, suc, Bool, true, false, Option, none, some, List, [], ◌∷◌, Bytes, ℤ, pos, negsuc,
  minus_one, is_neg, is_nonpos, is_minus_one, ◌&&◌, ◌==◌, take, drop, replicate, map, length,
  write_at, if◌then◌else◌,
}
use hev_socks5_core.Host.{
  Host, Sockaddr, Batch, got_batch, batch_failed, M, pure, self, ◌>>=◌, ◌>>◌, emit, faulted, again,
  binder, recvmmsg, sendmmsg,
}
use hev_socks5_core.Misc.Addr.{zero_sockaddr, addr_from_sockaddr6}
use hev_socks5_core.Misc.Resolve.{addr_into_sockaddr6}
use hev_socks5_core.Socks5.{Socks5}
use hev_socks5_core.Udp.Defs.{UdpIface, Msg, Datagram, Pointer, wild, null, at, udp_buf_size, waits}
use hev_socks5_core.Udp.Send.{udp_sendmmsg}
use hev_socks5_core.Udp.RecvUdp.{udp_recvmmsg}

-- `svec[i]` for a block of the buffer: `addr` is not written
unfoldable pub slot : Bytes → Msg
slot block = record { mem = block; addr = wild; buf = 0; len = udp_buf_size }

-- `buf` and `len` of a message as bytes
abbrev pub payload_of : Msg → Bytes
payload_of m = take m.len (drop m.buf m.mem)

-- what hev_task_io_socket_recvmmsg writes behind `iov_base`: each datagram into the block at its place
unfoldable pub store_all : List Bytes → List (Bytes × Sockaddr) → List Bytes
store_all [] ds = []
store_all (block ∷ blocks) [] = block ∷ blocks
store_all (block ∷ blocks) ((bytes, from) ∷ ds) = write_at block 0 bytes ∷ store_all blocks ds

unfoldable pub stored : List Bytes → Batch → List Bytes
stored blocks (batch_failed n) = blocks
stored blocks (got_batch ds) = store_all blocks ds

-- an entry of `dvec` in hev_socks5_udp_fwd_b: `msg_len` bytes of the block, and the address, which
-- stands in `saddr`
unfoldable pub outgoing_datagram : Bytes → Bytes × Sockaddr → Datagram
outgoing_datagram block (bytes, from) = record {
  addr = (addr_from_sockaddr6 from).1;
  payload = take (length bytes) block;
}

-- the loop over `svec`; no more datagrams are received than there are blocks
unfoldable pub outgoing_all : List Bytes → List (Bytes × Sockaddr) → List Datagram
outgoing_all [] ds = []
outgoing_all (block ∷ blocks) [] = []
outgoing_all (block ∷ blocks) (d ∷ ds) = outgoing_datagram block d ∷ outgoing_all blocks ds

-- `dvec[0].msg_hdr.msg_name`
unfoldable pub first_dest : List (Option Sockaddr × Bytes) → Option Sockaddr
first_dest [] = none
first_dest ((dest, bytes) ∷ ds) = dest

-- the entry of `dvec` for a destination, before those that `rest` gathers; `none` where the loop
-- returns
unfoldable pub add_entry :
    Option Sockaddr
    → Bytes
    → M Socks5 (Option (List (Option Sockaddr × Bytes)))
    → M Socks5 (Option (List (Option Sockaddr × Bytes)))
add_entry none bytes rest = pure none
add_entry (some sa) bytes rest = do
  ds ← rest
  pure (elim ds [ none ↦ none | some ds' ↦ some ((some sa, bytes) ∷ ds') ])

module _ (host : Host) where
  -- the last lines of both functions
  unfoldable pub settle_result : ℤ → M Socks5 ℤ
  settle_result res =
      if is_nonpos res
      then (do e ← again host; pure (if is_minus_one res && e then pos 0 else minus_one))
      else pure (pos 1)

  -- `addr` of a message as the address of a socket; `none` where hev_socks5_udp_fwd_f returns -1. A
  -- pointer that was never written is read: the run is at a fault, and ends there.
  unfoldable pub resolve_at : Pointer → Bytes → M Socks5 (Option Sockaddr)
  resolve_at wild mem = do emit faulted; pure none
  resolve_at null mem = pure none
  resolve_at (at i) mem = do
    o ← self
    (res, sa, family) ← addr_into_sockaddr6 host (drop i mem) zero_sockaddr o.addr_family
    pure (if is_neg res then none else some sa)

  -- a round of the loop over `svec`
  unfoldable pub destination : Msg → M Socks5 (Option Sockaddr)
  destination m = if m.len == 0 then pure none else resolve_at m.addr m.mem

  -- The loop over the first n messages: the entries of `dvec`. A message beyond the last one is read
  -- outside of `svec`.
  unfoldable pub gather : ℕ → List Msg → M Socks5 (Option (List (Option Sockaddr × Bytes)))
  gather zero ms = pure (some [])
  gather (suc n) [] = do emit faulted; pure none
  gather (suc n) (m ∷ ms) =
      let rest = gather n ms in do dest ← destination m; add_entry dest (payload_of m) rest

  -- `if (!*bind)`: the class's binder is given the first destination
  unfoldable pub bind_once : ℤ → Bool → Option Sockaddr → M Socks5 Bool
  bind_once fd true dest = pure true
  bind_once fd false none = pure false
  bind_once fd false (some sa) = do
    ret ← binder host fd sa
    pure (if is_neg ret then false else true)

  -- hev_socks5_udp_fwd_f behind the loop: the result and `*bind`
  unfoldable pub send_out : ℤ → Bool → List (Option Sockaddr × Bytes) → M Socks5 (ℤ × Bool)
  send_out fd bound ds = do
    ready ← bind_once fd bound (first_dest ds)
    if ready
        then (do waits host; res ← sendmmsg host fd ds; ret ← settle_result res; pure (ret, true))
        else pure (minus_one, bound)

  -- the same, where the loop may have returned
  unfoldable pub send_found :
      ℤ → Bool → Option (List (Option Sockaddr × Bytes)) → M Socks5 (ℤ × Bool)
  send_found fd bound none = pure (minus_one, bound)
  send_found fd bound (some ds) = send_out fd bound ds

  -- hev_socks5_udp_fwd_f behind its read
  unfoldable pub relay_out : ℤ → Bool → ℤ → List Msg → M Socks5 (ℤ × Bool)
  relay_out fd bound (negsuc n) ms = do ret ← settle_result (negsuc n); pure (ret, bound)
  relay_out fd bound (pos zero) ms = do ret ← settle_result (pos zero); pure (ret, bound)
  relay_out fd bound (pos (suc n)) ms = do found ← gather (suc n) ms; send_found fd bound found

  -- hev_socks5_udp_fwd_f: the result, `*bind` and the blocks of `buf`
  unfoldable pub fwd_f : UdpIface → ℤ → List Bytes → Bool → M Socks5 (ℤ × Bool × List Bytes)
  fwd_f iface fd blocks bound = do
    (res, ms) ← udp_recvmmsg host iface (map slot blocks) true
    (ret, bound') ← relay_out fd bound res ms
    pure (ret, bound', map (λ (m : Msg). m.mem) ms)

  -- hev_socks5_udp_fwd_b behind its read, with the blocks that were read into
  unfoldable pub relay_back : UdpIface → List Bytes → Batch → M Socks5 ℤ
  relay_back iface blocks (batch_failed n) = settle_result (negsuc n)
  relay_back iface blocks (got_batch []) = settle_result (pos 0)
  relay_back iface blocks (got_batch (d ∷ ds)) = do
    res ← udp_sendmmsg host iface (outgoing_all blocks (d ∷ ds))
    settle_result res

  -- hev_socks5_udp_fwd_b with num buffers: the result and the blocks of `svec`
  unfoldable pub fwd_b : UdpIface → ℤ → ℕ → List Bytes → M Socks5 (ℤ × List Bytes)
  fwd_b iface fd num blocks = do
    waits host
    batch ← recvmmsg host fd (replicate num udp_buf_size)
    res ← relay_back iface (stored blocks batch) batch
    pure (res, stored blocks batch)
