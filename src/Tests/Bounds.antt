-- ===== src/Tests/Bounds.antt =====
-- The bounds of the relay and of its header at a run.
use hev_socks5_core.Base.{
  inl, ◌++◌, some, ℕ, zero, suc, ◌≤◌, ◌<◌, ◌≡◌, refl, ap, subst, false, true, [], ◌∷◌, Bytes, pos,
  arith, length, take, drop, get_or, replicate,
}
use hev_socks5_core.Host.{Received, got, failed}
use hev_socks5_core.Wire.{consumed}
use hev_socks5_core.Socks5.{Socks5, udp_in_tcp}
use hev_socks5_core.Misc.Addr.{addr_len}
use hev_socks5_core.Udp.Send.{frame_tcp, positive}
use hev_socks5_core.Udp.Desync.{fwd_f-desync}
use hev_socks5_core.Udp.Defs.{Datagram, UdpIface, udp_buf_size}
use hev_socks5_core.Udp.RecvUdp.{udp_recvmmsg}
use hev_socks5_core.Udp.Forward.{slot, fwd_f}
use hev_socks5_core.Udp.Splice.{Relay, splice_round}
use hev_socks5_core.Udp.Bounds.{Sound, SoundReads, SoundBatches, AllSlots, AllInBlock}
use hev_socks5_core.Udp.Blocks.{AllBlocks, udp_recvmmsg-InBlock, splice_round-AllBlocks}
use hev_socks5_core.Tests.Worlds.{calm}

abbrev AllBytes : Bytes → Type 0
AllBytes [] = Unit {0}
AllBytes (b ∷ bs) = (b < 256) × AllBytes bs

AllBytes-take : (n : ℕ) (bs : Bytes) → AllBytes bs → AllBytes (take n bs)
AllBytes-take zero bs h = tt
AllBytes-take (suc n) [] h = tt
AllBytes-take (suc n) (b ∷ bs) h = (h.0, AllBytes-take n bs h.1)

AllBytes-drop : (n : ℕ) (bs : Bytes) → AllBytes bs → AllBytes (drop n bs)
AllBytes-drop zero bs h = h
AllBytes-drop (suc n) [] h = tt
AllBytes-drop (suc n) (b ∷ bs) h = AllBytes-drop n bs h.1

get_or-AllBytes : (bs : Bytes) → AllBytes bs → (i : ℕ) → get_or bs i 0 < 256
get_or-AllBytes [] h i = omega arith
get_or-AllBytes (b ∷ bs) h zero = h.0
get_or-AllBytes (b ∷ bs) h (suc i) = get_or-AllBytes bs h.1 i

length-take_max : (n : ℕ) (bs : Bytes) → length (take n bs) ≤ n
length-take_max zero bs = omega arith
length-take_max (suc n) [] = omega arith
length-take_max (suc n) (b ∷ bs) = omega (arith, length-take_max n bs)

Sound-take : (n k : ℕ) (inbox b : Bytes) → AllBytes inbox → take n (drop k inbox) ≡ b → Sound n b
Sound-take n k inbox b h e =
    subst (λ x. Sound n x) e
      (
        length-take_max n (drop k inbox),
        get_or-AllBytes (take n (drop k inbox))
            (AllBytes-take n (drop k inbox) (AllBytes-drop k inbox h)),
      )

-- a datagram to 127.0.0.1, port 53
abbrev frame : Bytes
frame = 0 ∷ 2 ∷ 10 ∷ 1 ∷ 127 ∷ 0 ∷ 0 ∷ 1 ∷ 0 ∷ 53 ∷ 8 ∷ 9 ∷ []

frame_bytes : AllBytes frame
frame_bytes = ground arith

bytes_of : Received → Bytes
bytes_of (got b) = b
bytes_of (failed n) = []

sound_reads : SoundReads (calm frame)
unfolding bytes_of
sound_reads = (
  λ t fd n b e. Sound-take n (consumed fd t) frame b frame_bytes (ap bytes_of e),
  λ t nonblock fd n b e. Sound-take n (consumed fd t) frame b frame_bytes (ap bytes_of e),
)

sound_batches : SoundBatches (calm frame)
sound_batches t fd sizes ds e = absurd cc

abbrev own_fd : UdpIface
own_fd = record { get_fd = λ (o : Socks5). o.fd }

abbrev relay : Socks5
relay = record {
  fd = pos 5;
  timeout = pos 60000;
  kind = udp_in_tcp;
  udp_associated = false;
  addr_family = 0;
}

abbrev block : Bytes
block = replicate udp_buf_size 0

block_is_slot : AllSlots (slot block ∷ [])
unfolding slot
block_is_slot = ((refl, refl, refl), tt)

udp_recvmmsg-InBlock_example :
    AllInBlock (udp_recvmmsg (calm frame) own_fd (slot block ∷ []) true relay []).0.1
udp_recvmmsg-InBlock_example =
    udp_recvmmsg-InBlock (calm frame) sound_reads sound_batches own_fd true relay []
      (slot block ∷ []) block_is_slot

abbrev starting : Relay
starting = record {
  res_f = pos 1;
  res_b = pos 1;
  bound = false;
  blocks = block ∷ [];
  back_blocks = block ∷ [];
}

splice_round-AllBlocks_example :
    let (_, r') = (splice_round (calm frame) own_fd (pos 9) 1 starting relay []).0 in
    AllBlocks r'.blocks × AllBlocks r'.back_blocks
splice_round-AllBlocks_example =
    splice_round-AllBlocks (calm frame) sound_reads sound_batches own_fd (pos 9) 1 starting relay []
      (refl, tt) (refl, tt)

-- a datagram to a name of 249 characters
abbrev to_long_name : Datagram
to_long_name = record { addr = 3 ∷ 249 ∷ replicate 251 97; payload = 8 ∷ [] }

abbrev long_frame : Bytes
long_frame = 0 ∷ 1 ∷ 0 ∷ (take 253 to_long_name.addr ++ (8 ∷ []))

long_frame_framed : frame_tcp to_long_name ≡ some long_frame
unfolding frame_tcp positive addr_len
long_frame_framed = refl

long_addr : addr_len to_long_name.addr ≡ pos 253
unfolding addr_len
long_addr = refl

long_unread : drop (consumed (pos 5) []) long_frame ≡ long_frame ++ []
unfolding consumed
long_unread = refl

fwd_f-desync_example :
    let ((res, bound', blocks'), _, t') =
      fwd_f (calm long_frame) own_fd (pos 9) (block ∷ []) false relay [] in
    (res ≡ pos 0)
    × (bound' ≡ false)
    × (blocks' ≡ block ∷ [])
    × (drop (consumed (pos 5) t') long_frame ≡ drop 5 long_frame ++ [])
fwd_f-desync_example =
    fwd_f-desync (calm long_frame) own_fd relay [] long_frame (λ t n. refl)
      (λ t n p. inl (n, p, omega arith, refl)) refl (λ t. refl) (pos 9) block [] false 3 249 251
      (replicate 251 97) (8 ∷ []) long_frame [] long_addr (omega arith) (omega arith)
      long_frame_framed long_unread
