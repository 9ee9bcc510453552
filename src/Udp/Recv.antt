-- ===== src/Udp/Recv.antt =====
-- hev_socks5_udp_recvmmsg_tcp: datagrams are read off a connection.
use hev_socks5_core.Base.{
  ℕ, suc, ◌+◌, ◌-◌, ◌%◌, not, Bool, Option, none, some, List, [], ◌∷◌, ◌++◌, Bytes, ℤ, pos, negsuc,
  minus_one, is_pos, ◌⊖◌, length, get_or, write_at, ltb, ◌&&◌, if◌then◌else◌,
}
use hev_socks5_core.Host.{Host, Received, got, failed, M, pure, self, ◌>>=◌, ◌>>◌, recv, recv_some}
use hev_socks5_core.Misc.Bytes16.{ntohs_bytes}
use hev_socks5_core.Socks5.{Socks5}
use hev_socks5_core.Udp.Defs.{UdpIface, Msg, at, waits}

-- a - b for two `size_t`
unfoldable pub size_sub : ℕ → ℕ → ℕ
size_sub a b = (a + 18446744073709551616 - b) % 18446744073709551616

-- the result of a read as a number
unfoldable pub result : Received → ℤ
result (got bytes) = pos (length bytes)
result (failed n) = negsuc n

-- `res += recv (…)` where the first read has returned `head`
unfoldable pub joined : Bytes → Received → ℤ × Bytes
joined head (got more) = (pos (length head + length more), head ++ more)
joined head (failed n) = (length head ⊖ suc n, head)

-- the tests of `hdrlen` and `datlen` for a message of `len` bytes: the size of the address and of
-- the payload
unfoldable pub sizes_of : Bytes → ℕ → Option (ℕ × ℕ)
sizes_of head len =
    if ltb (get_or head 2 0) 5
    then none
    else if ltb (size_sub len (get_or head 2 0 - 3)) (ntohs_bytes head)
    then none
    else some (get_or head 2 0 - 3, ntohs_bytes head)

-- what hev_task_io_socket_recvmsg writes: both buffers lie one behind the other
unfoldable pub fill : Msg → Received → Msg
fill m (got bytes) = record m { mem = write_at m.mem (m.buf + 2) bytes }
fill m (failed n) = m

-- the end of a round: `addr`, `buf` and `len`, and the first two bytes of the address
unfoldable pub complete : Msg → Bytes → ℕ → ℕ → Msg
complete m head addrlen datlen = record {
  mem = write_at m.mem m.buf (get_or head 3 0 ∷ get_or head 4 0 ∷ []);
  addr = at m.buf;
  buf = m.buf + addrlen;
  len = datlen;
}

module _ (host : Host) where
  -- the rest of a header of which `head` was read
  unfoldable pub read_rest : ℤ → Bytes → M Socks5 (ℤ × Bytes)
  unfolding joined
  read_rest fd head =
      if ltb 0 (length head) && ltb (length head) 5
      then (do waits host; rest ← recv host fd (5 - length head); pure (joined head rest))
      else pure (pos (length head), head)

  -- the header: `res`, and the bytes of `udp`
  unfoldable pub read_head : Bool → ℤ → M Socks5 (ℤ × Bytes)
  unfolding result
  read_head nonblock fd = do
    waits host
    first ← recv_some host nonblock fd 5
    elim first [ got head ↦ read_rest fd head | failed n ↦ pure (negsuc n, []) ]

  -- the payload of the message `m`, behind the header `head`: the message and whether it is there
  unfoldable pub read_body : ℤ → Bytes → Msg → ℕ → ℕ → M Socks5 (Option ℤ × Msg)
  read_body fd head m addrlen datlen = do
    waits host
    body ← recv host fd (addrlen - 2 + datlen)
    if not (is_pos (result body) (addrlen - 2 + datlen))
        then pure (some (result body), fill m body)
        else pure (none, complete (fill m body) head addrlen datlen)

  -- a round of the loop: `some res` where it returns, or breaks for `rlen > 0`
  unfoldable pub recv_one : Bool → ℤ → ℕ → Msg → M Socks5 (Option ℤ × Msg)
  recv_one nonblock fd rlen m = do
    (res, head) ← read_head nonblock fd
    if not (is_pos res 5)
        then pure (some (if ltb 0 rlen then pos rlen else res), m)
        else elim (sizes_of head m.len) [
          | none ↦ pure (some minus_one, m)
          | some (addrlen, datlen) ↦ read_body fd head m addrlen datlen
        ]

  -- the loop over `msgv`: the result, and the messages
  unfoldable pub recv_loop : Bool → ℤ → ℕ → List Msg → M Socks5 (ℤ × List Msg)
  recv_loop nonblock fd rlen [] = pure (pos rlen, [])
  recv_loop nonblock fd rlen (m ∷ ms) =
      let rest = recv_loop nonblock fd (suc rlen) ms in
      do
        (done, m') ← recv_one nonblock fd rlen m
        elim done [
          | some res ↦ pure (res, m' ∷ ms)
          | none ↦ do (res, ms') ← rest; pure (res, m' ∷ ms')
        ]

  -- hev_socks5_udp_recvmmsg_tcp
  unfoldable pub recvmmsg_tcp : UdpIface → List Msg → Bool → M Socks5 (ℤ × List Msg)
  recvmmsg_tcp iface ms nonblock = do o ← self; recv_loop nonblock (iface.get_fd o) 0 ms
