-- ===== src/Udp/Send.antt =====
-- hev_socks5_udp_sendmmsg: a list of datagrams is put on the connection or on the association.
use hev_socks5_core.Base.{
  ℕ, ◌+◌, ◌%◌, Option, none, some, List, [], ◌∷◌, ◌++◌, Bytes, ℤ, pos, negsuc, minus_one, is_nonpos,
  length, take, if◌then◌else◌,
}
use hev_socks5_core.Host.{Host, Sockaddr, M, pure, self, ◌>>=◌, ◌>>◌, send, sendmmsg}
use hev_socks5_core.Misc.Addr.{addr_len}
use hev_socks5_core.Misc.Bytes16.{htons_bytes}
use hev_socks5_core.Socks5.{Socks5, Kind, no_type, tcp, udp_in_tcp, udp_in_udp}
use hev_socks5_core.Udp.Defs.{UdpIface, Datagram, waits}

-- `addrlen <= 0` is the case of `none`
unfoldable pub positive : ℤ → Option ℕ
positive (pos n) = if is_nonpos (pos n) then none else some n
positive (negsuc n) = none

-- the three buffers of a datagram on a connection: `datlen` and `hdrlen` are 16 and 8 bits wide
unfoldable pub frame_tcp : Datagram → Option Bytes
frame_tcp d = elim (positive (addr_len d.addr)) [
  | none ↦ none
  | some n ↦
      some (htons_bytes (length d.payload) ++ (((3 + n) % 256) ∷ (take n d.addr ++ d.payload)))
]

-- the three buffers of a datagram of an association
unfoldable pub frame_udp : Datagram → Option Bytes
frame_udp d = elim (positive (addr_len d.addr)) [
  | none ↦ none
  | some n ↦ some (0 ∷ 0 ∷ 0 ∷ (take n d.addr ++ d.payload))
]

-- the loops over `msgv`, which return at the first address of an unknown type
unfoldable pub stream_of : List Datagram → Option Bytes
stream_of [] = some []
stream_of (d ∷ ds) = elim (frame_tcp d) [
  | none ↦ none
  | some f ↦ elim (stream_of ds) [ none ↦ none | some fs ↦ some (f ++ fs) ]
]

unfoldable pub packets_of : List Datagram → Option (List (Option Sockaddr × Bytes))
packets_of [] = some []
packets_of (d ∷ ds) = elim (frame_udp d) [
  | none ↦ none
  | some f ↦ elim (packets_of ds) [ none ↦ none | some fs ↦ some ((none, f) ∷ fs) ]
]

module _ (host : Host) (iface : UdpIface) where
  -- hev_socks5_udp_sendmmsg_tcp
  unfoldable pub sendmmsg_tcp : List Datagram → M Socks5 ℤ
  sendmmsg_tcp ds = elim (stream_of ds) [
    | none ↦ pure minus_one
    | some bytes ↦ do
      o ← self
      waits host
      res ← send host (iface.get_fd o) bytes
      if is_nonpos res then pure minus_one else pure (pos (length ds))
  ]

  -- hev_socks5_udp_sendmmsg_udp
  unfoldable pub sendmmsg_udp : List Datagram → M Socks5 ℤ
  sendmmsg_udp ds = elim (packets_of ds) [
    | none ↦ pure minus_one
    | some packets ↦ do o ← self; waits host; sendmmsg host (iface.get_fd o) packets
  ]

  unfoldable pub send_as : Kind → List Datagram → M Socks5 ℤ
  send_as no_type ds = pure minus_one
  send_as tcp ds = pure minus_one
  send_as udp_in_tcp ds = sendmmsg_tcp ds
  send_as udp_in_udp ds = sendmmsg_udp ds

  -- hev_socks5_udp_sendmmsg
  unfoldable pub udp_sendmmsg : List Datagram → M Socks5 ℤ
  udp_sendmmsg ds = do o ← self; send_as o.kind ds
