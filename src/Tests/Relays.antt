-- ===== src/Tests/Relays.antt =====
-- Runs of the relay of datagrams.
use hev_socks5_core.Base.{
  take, ◌++◌, is_pos, ◌||◌, ℤ, ◌⊎◌, ◌&&◌, minus_one, is_neg, is_nonpos, inl, inr, map, ◌≡◌, refl,
  true, false, some, List, [], ◌∷◌, Bytes, pos, arith, drop, replicate,
}
use hev_socks5_core.Host.{
  Host, Sockaddr, Trace, got_batch, batch_sent, yield, waitio, sent, faulted, probe_end,
}
use hev_socks5_core.Wire.{consumed}
use hev_socks5_core.Misc.Addr.{addr_len, is_v4mapped}
use hev_socks5_core.Socks5.{Socks5, udp_in_tcp, udp_in_udp}
use hev_socks5_core.Udp.Defs.{
  UdpIface, Msg, Datagram, wild, udp_buf_size, is_closed, task_io_yielder,
}
use hev_socks5_core.Udp.Send.{stream_of, frame_tcp, positive}
use hev_socks5_core.Udp.RecvUdp.{udp_recvmmsg}
use hev_socks5_core.Udp.RoundTrip.{AllFit, AllCarry, udp_recvmmsg-stream}
use hev_socks5_core.Udp.Forward.{fwd_b, slot, fwd_f}
use hev_socks5_core.Udp.Splice.{Relay, next_wait, splice_round, udp_splicer}
use hev_socks5_core.Udp.Return.{Sender, sender4, sender6, AllSent, incoming, fwd_b-returns}
use hev_socks5_core.Udp.Final.{task_io_yielder-final}
use hev_socks5_core.Misc.Yielder.{io_yielder}
use hev_socks5_core.Socks5
use hev_socks5_core.Udp.Delivery.{deliveries, fwd_f-delivers}
use hev_socks5_core.Udp.Truncated.{fwd_f-truncated}
use hev_socks5_core.Udp.Ending.{Running, choice, next_wait-choice, splice_round-Running}
use hev_socks5_core.Udp.Lifetime.{Settled}
use hev_socks5_core.Udp.Closed.{udp_splicer-closed}
use hev_socks5_core.Tests.Worlds.{calm, live, live-Arrives}

-- the descriptor of the object itself
abbrev pub own_fd : UdpIface
own_fd = record { get_fd = λ (o : Socks5). o.fd }

abbrev relay : Socks5
relay = record {
  fd = pos 5;
  timeout = pos 60000;
  kind = udp_in_tcp;
  udp_associated = false;
  addr_family = 0;
}

abbrev pub query : Datagram
query = record { addr = 1 ∷ 127 ∷ 0 ∷ 0 ∷ 1 ∷ 0 ∷ 53 ∷ []; payload = 8 ∷ 9 ∷ [] }

abbrev query_frame : Bytes
query_frame = 0 ∷ 2 ∷ 10 ∷ 1 ∷ 127 ∷ 0 ∷ 0 ∷ 1 ∷ 0 ∷ 53 ∷ 8 ∷ 9 ∷ []

abbrev pub empty_msg : Msg
empty_msg = record { mem = replicate 16 0; addr = wild; buf = 0; len = 16 }

query_stream : stream_of (query ∷ []) ≡ some query_frame
unfolding stream_of frame_tcp positive addr_len
query_stream = refl

query_fits : AllFit (empty_msg ∷ empty_msg ∷ []) (query ∷ [])
unfolding addr_len
query_fits =
    ((7, refl, omega arith, omega arith, omega arith, omega arith, omega arith, omega arith), tt)

query_unread : drop (consumed (pos 5) []) query_frame ≡ query_frame
unfolding consumed
query_unread = refl

udp_recvmmsg-stream_example :
    let ((res, ms'), _, _) =
      udp_recvmmsg (calm query_frame) own_fd (empty_msg ∷ empty_msg ∷ []) true relay [] in
    (res ≡ pos 1) × AllCarry ms' (query ∷ [])
udp_recvmmsg-stream_example =
    udp_recvmmsg-stream (calm query_frame) own_fd relay [] query_frame true (λ t n. refl)
      (λ t n p. inl (n, p, omega arith, refl)) refl (query ∷ []) (empty_msg ∷ empty_msg ∷ [])
      query_frame query_stream query_unread query_fits (omega arith)

-- an outside where a batch holds `packets`, and every call succeeds
abbrev pub mailbox : List (Bytes × Sockaddr) → Host
mailbox packets = record (calm []) { on_recvmmsg = λ t fd sizes. got_batch packets }

abbrev pub peer : Sockaddr
peer = record { family = 10; port = 4 ∷ 5 ∷ []; addr = replicate 16 1 }

abbrev pub association : Socks5
association = record relay { kind = udp_in_udp }

-- two blocks of the relay's buffer
abbrev pub block : Bytes
block = replicate udp_buf_size 0

query_fits_slots : AllFit (map slot (block ∷ block ∷ [])) (query ∷ [])
unfolding addr_len slot
query_fits_slots =
    ((7, refl, omega arith, omega arith, omega arith, omega arith, omega arith, omega arith), tt)

fwd_f-delivers_example :
    let packets = deliveries (query ∷ []) in
    let ((res, bound', _), _, t') =
      fwd_f (live query_frame) own_fd (pos 9) (block ∷ block ∷ []) false relay [] in
    (t1 : Trace) × (t'
      ≡ batch_sent (pos 9) packets ((live query_frame).on_sendmmsg t1 (pos 9) packets) ∷ t1)
    × ((is_nonpos ((live query_frame).on_sendmmsg t1 (pos 9) packets) ≡ true) ⊎ (res ≡ pos 1))
    × (bound' ≡ true)
fwd_f-delivers_example =
    fwd_f-delivers (live query_frame) own_fd relay [] query_frame (λ t n. refl)
      (live-Arrives query_frame (pos 5)) refl (pos 9) query [] (block ∷ block ∷ []) false
      query_frame query_stream query_unread query_fits_slots (inl refl, omega arith, tt) (λ t. refl)

-- the stream ends within the frame of the query
abbrev cut_frame : Bytes
cut_frame = 0 ∷ 2 ∷ 10 ∷ 1 ∷ 127 ∷ 0 ∷ 0 ∷ []

cut_unread : drop (consumed (pos 5) []) cut_frame ≡ cut_frame
unfolding consumed
cut_unread = refl

fwd_f-truncated_example :
    let ((count, ms), _, _) =
      udp_recvmmsg (calm cut_frame) own_fd (map slot (block ∷ [])) true relay [] in
    let (_, _, t') = fwd_f (calm cut_frame) own_fd (pos 9) (block ∷ []) false relay [] in
    (count ≡ pos 2)
    × (map (λ (m : Msg). m.addr) (take 1 ms) ≡ wild ∷ [])
    × (t1 : Trace) × (t' ≡ faulted ∷ t1)
fwd_f-truncated_example =
    fwd_f-truncated (calm cut_frame) own_fd relay [] cut_frame (λ t n. refl)
      (λ t n p. inl (n, p, omega arith, refl)) refl (pos 9) block [] false 7 2 1 127 0 (0 ∷ [])
      (omega arith) (omega arith) (omega arith) cut_unread

-- nothing arrives, and the connection of the association is closed
abbrev hung_up : Host
hung_up = record (mailbox []) { on_probe = λ t fd. probe_end }

abbrev starting : Relay
starting = record {
  res_f = pos 1;
  res_b = pos 1;
  bound = false;
  blocks = block ∷ [];
  back_blocks = block ∷ [];
}

hung_up_closed : (t : Trace) → is_closed (hung_up.on_probe t association.fd) ≡ true
unfolding is_closed
hung_up_closed t = refl

udp_splicer-closed_example :
    let (r, o', t') = udp_splicer hung_up own_fd (pos 9) 1 association [] in
    (res : ℤ) × (r ≡ some res) × Settled (pos 9) association [] o' t'
udp_splicer-closed_example =
    udp_splicer-closed hung_up own_fd (pos 9) (pos 9) 0 association [] refl hung_up_closed

splice_round-Running_example :
    let ((goes_on, r'), _, _) = splice_round hung_up own_fd (pos 9) 1 starting association [] in
    Running r'
    × ((is_neg starting.res_f ≡ false)
        ⊎ ((r'.res_f ≡ starting.res_f) × (r'.blocks ≡ starting.blocks)))
    × ((is_neg starting.res_b ≡ false) ⊎ (r'.res_b ≡ starting.res_b))
    × ((goes_on ≡ false) ⊎ (is_neg r'.res_f && is_neg r'.res_b ≡ false))
splice_round-Running_example =
    splice_round-Running hung_up own_fd (pos 9) 1 starting association [] (inl refl, inl refl)

-- from 10.0.0.1 and from an IPv6 address
abbrev two_senders : List (Bytes × Sender)
two_senders =
    (8 ∷ 9 ∷ [], sender4 10 0 0 1 0 53) ∷ (7 ∷ [], sender6 (replicate 16 1) (4 ∷ 5 ∷ [])) ∷ []

two_senders_fit : AllSent two_senders
unfolding is_v4mapped
two_senders_fit = (omega arith, tt, (omega arith, (refl, refl, refl), tt))

fwd_b-returns_example :
    let host = mailbox (incoming two_senders) in
    let ((res, _), _, t') = fwd_b host own_fd (pos 9) 2 (block ∷ block ∷ []) relay [] in
    let bytes : Bytes =
      0
      ∷ 2
      ∷ 10
      ∷ 1
      ∷ 10
      ∷ 0
      ∷ 0
      ∷ 1
      ∷ 0
      ∷ 53
      ∷ 8
      ∷ 9
      ∷ 0
      ∷ 1
      ∷ 22
      ∷ 4
      ∷ (replicate 16 1 ++ (4 ∷ 5 ∷ 7 ∷ [])) in
    (t1 : Trace) × (t' ≡ sent (pos 5) bytes (host.on_send t1 (pos 5) bytes) ∷ t1)
    × ((is_nonpos (host.on_send t1 (pos 5) bytes) ≡ true) ⊎ (res ≡ pos 1))
fwd_b-returns_example =
    fwd_b-returns (mailbox (incoming two_senders)) own_fd relay [] (pos 9) 2 (block ∷ block ∷ [])
      (8 ∷ 9 ∷ [], sender4 10 0 0 1 0 53) ((7 ∷ [], sender6 (replicate 16 1) (4 ∷ 5 ∷ [])) ∷ [])
      (λ x y p q. p) refl (omega arith) two_senders_fit (λ t sizes. refl)

next_wait-choice_example :
    next_wait minus_one (pos 0)
    ≡ choice (is_pos minus_one 1 || is_pos (pos 0) 1) (is_neg minus_one && is_neg (pos 0))
next_wait-choice_example = next_wait-choice minus_one (pos 0) (inr (inr refl)) (inr (inl refl))

task_io_yielder-final_example :
    let host = record hung_up { on_sleep = λ t timeout. pos 0 } in
    let (res, o', _) = task_io_yielder host yield association [] in
    (res ≡ minus_one)
    × (Socks5.set_timeout (pos 60000) o' ≡ o')
    × ((io_yielder host waitio o' []).0 ≡ minus_one)
task_io_yielder-final_example =
    task_io_yielder-final (record hung_up { on_sleep = λ t timeout. pos 0 }) association [] [] yield
      (pos 60000) refl (hung_up_closed []) refl
