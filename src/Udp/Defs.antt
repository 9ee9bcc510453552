-- ===== src/Udp/Defs.antt =====
-- The messages of the UDP relay, its yielder, and what it knows of the object that it serves.
use hev_socks5_core.Base.{
  ℕ, List, [], ◌∷◌, Bool, true, false, Bytes, ℤ, pos, minus_one, is_pos, if◌then◌else◌,
}
use hev_socks5_core.Host.{
  Host, Probe, probe_byte, probe_end, probe_again, probe_error, YieldType, M, pure, self, modify,
  ◌>>=◌, ◌>>◌, probe,
}
use hev_socks5_core.Misc.Addr.{Addr}
use hev_socks5_core.Misc.Yielder.{io_yielder}
use hev_socks5_core.Socks5
use hev_socks5_core.Socks5.{Socks5, Kind, no_type, tcp, udp_in_tcp, udp_in_udp}

-- HevSocks5UDPIface, for the object that a base object is part of
pub record UdpIface : Type 0 where
  pub get_fd : Socks5 → ℤ

-- `addr` of a HevSocks5UDPMsg: not written yet, null, or an offset in the message's memory
pub data Pointer : Type 0 where
  wild null : Pointer
  at : ℕ → Pointer

-- HevSocks5UDPMsg for a message that is received. `mem` is the block of memory that its buffer is
-- part of, and `buf` the offset where the buffer begins.
pub record Msg : Type 0 where
  pub mem : Bytes
  pub addr : Pointer
  pub buf : ℕ
  pub len : ℕ

-- HevSocks5UDPMsg for a message that is sent: what its pointers point to. `len` is the length of
-- the payload.
pub record Datagram : Type 0 where
  pub addr : Addr
  pub payload : Bytes

abbrev pub udp_buf_size : ℕ
udp_buf_size = 1500

-- `(res == 0) || ((res < 0) && (errno != EAGAIN))`
unfoldable pub is_closed : Probe → Bool
is_closed probe_byte = false
is_closed probe_end = true
is_closed probe_again = false
is_closed probe_error = true

module _ (host : Host) where
  -- `task_io_yielder` of the relay, for an association: the connection is probed
  unfoldable pub probing : YieldType → M Socks5 ℤ
  probing type = do
    o ← self
    res ← probe host o.fd
    if is_closed res
        then (do modify (Socks5.set_timeout (pos 0)); pure minus_one)
        else io_yielder host type

  unfoldable pub udp_yielder : Kind → YieldType → M Socks5 ℤ
  udp_yielder no_type type = io_yielder host type
  udp_yielder tcp type = io_yielder host type
  udp_yielder udp_in_tcp type = io_yielder host type
  udp_yielder udp_in_udp type = probing type

  -- task_io_yielder
  unfoldable pub task_io_yielder : YieldType → M Socks5 ℤ
  task_io_yielder type = do o ← self; udp_yielder o.kind type

  -- What a blocking call does to the object before it answers: it calls the yielder some times, and
  -- stops when the yielder does not return 0.
  unfoldable pub yields : List YieldType → M Socks5 (Unit {0})
  yields [] = pure tt
  yields (type ∷ types) =
      let rest = yields types in
      do res ← task_io_yielder type; if is_pos res 0 then rest else pure tt

  unfoldable pub waits : M Socks5 (Unit {0})
  waits o t = yields (host.on_waits t) o t
