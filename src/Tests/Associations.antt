-- ===== src/Tests/Associations.antt =====
-- Runs of the relay of datagrams for an association.
use hev_socks5_core.Base.{
  ◌⊎◌, ◌++◌, minus_one, is_nonpos, inl, map, ◌≡◌, refl, true, false, Option, none, some, List, [],
  ◌∷◌, Bytes, pos, arith,
}
use hev_socks5_core.Host.{Sockaddr, Trace, batch_sent}
use hev_socks5_core.Misc.Addr.{addr_len}
use hev_socks5_core.Udp.Send.{positive, packets_of, frame_udp}
use hev_socks5_core.Udp.RecvUdp.{udp_recvmmsg}
use hev_socks5_core.Udp.RoundTrip.{AllCarry}
use hev_socks5_core.Udp.Forward.{slot, fwd_f}
use hev_socks5_core.Udp.Association.{AllFitUdp, arriving, udp_recvmmsg-packets}
use hev_socks5_core.Udp.Delivery.{deliveries, fwd_f-packets}
use hev_socks5_core.Udp.Short.{fwd_f-short}
use hev_socks5_core.Sockets.{batches}
use hev_socks5_core.Tests.Relays.{own_fd, query, empty_msg, mailbox, peer, association, block}

abbrev query_packets : List (Option Sockaddr × Bytes)
query_packets = (none, 0 ∷ 0 ∷ 0 ∷ 1 ∷ 127 ∷ 0 ∷ 0 ∷ 1 ∷ 0 ∷ 53 ∷ 8 ∷ 9 ∷ []) ∷ []

query_packets_of : packets_of (query ∷ []) ≡ some query_packets
unfolding packets_of frame_udp positive addr_len
query_packets_of = refl

query_fits_udp : AllFitUdp (empty_msg ∷ []) (query ∷ [])
unfolding addr_len
query_fits_udp = ((7, refl, omega arith, omega arith), tt)

udp_recvmmsg-packets_example :
    let ((res, ms'), o', _) =
      udp_recvmmsg
        (mailbox (arriving peer query_packets))
        own_fd
        (empty_msg ∷ [])
        true
        association
        [] in
    (res ≡ pos 1) × AllCarry ms' (query ∷ []) × (o'.udp_associated ≡ true)
udp_recvmmsg-packets_example =
    udp_recvmmsg-packets (mailbox (arriving peer query_packets)) own_fd association [] true peer
      refl (query ∷ []) (empty_msg ∷ []) query_packets query_packets_of (λ t sizes. refl)
      (λ t. refl) query_fits_udp (omega arith)

query_fits_block : AllFitUdp (map slot (block ∷ block ∷ [])) (query ∷ [])
unfolding addr_len slot
query_fits_block = ((7, refl, omega arith, omega arith), tt)

fwd_f-packets_example :
    let packets = deliveries (query ∷ []) in
    let host = mailbox (arriving peer query_packets) in
    let ((res, bound', _), _, t') =
      fwd_f host own_fd (pos 9) (block ∷ block ∷ []) false association [] in
    (t1 : Trace) × (t' ≡ batch_sent (pos 9) packets (host.on_sendmmsg t1 (pos 9) packets) ∷ t1)
    × ((is_nonpos (host.on_sendmmsg t1 (pos 9) packets) ≡ true) ⊎ (res ≡ pos 1))
    × (bound' ≡ true)
fwd_f-packets_example =
    fwd_f-packets (mailbox (arriving peer query_packets)) own_fd association [] peer refl (pos 9)
      query [] (block ∷ block ∷ []) false query_packets query_packets_of (λ t sizes. refl)
      (λ t. refl) query_fits_block (inl refl, omega arith, tt) (λ t. refl)

-- the query, and behind it a datagram of two bytes
abbrev query_and_short : List (Bytes × Sockaddr)
query_and_short = arriving peer query_packets ++ ((1 ∷ 2 ∷ [], peer) ∷ [])

fwd_f-short_example :
    let ((res, bound', _), _, t') =
      fwd_f (mailbox query_and_short) own_fd (pos 9) (block ∷ block ∷ []) false association [] in
    (res ≡ minus_one) × (bound' ≡ false) × (batches t' ≡ batches [])
fwd_f-short_example =
    fwd_f-short (mailbox query_and_short) own_fd association [] peer (1 ∷ 2 ∷ []) refl (pos 9)
      (query ∷ []) (block ∷ block ∷ []) false query_packets query_packets_of (omega arith)
      (λ t sizes. refl) (λ t. refl) query_fits_block (omega arith)
