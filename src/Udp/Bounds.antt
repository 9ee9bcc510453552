-- ===== src/Udp/Bounds.antt =====
-- No datagram is written or read outside of its block of the relay's buffer.
use hev_socks5_core.Base.{
  ◌&&◌, ℕ, zero, suc, ◌+◌, ◌-◌, ◌≤◌, ◌<◌, ◌≡◌, ◌∙◌, Bool, ℤ, arith, Bool-cases, Option-cases, inl,
  inr, some, is_pos, List, [], ◌∷◌, ◌++◌, Bytes, length, get_or, length-write_at, write_at, ltb,
}
use hev_socks5_core.Host.{Host, Trace, got_batch, Sockaddr, got, received}
use hev_socks5_core.Wire.{Received-cases}
use hev_socks5_core.Socks5.{Socks5}
use hev_socks5_core.Udp.Defs.{Msg, udp_buf_size, waits}
use hev_socks5_core.Udp.Recv.{
  result, joined, size_sub, sizes_of, fill, complete, read_rest, read_head, read_body, recv_one,
  recv_loop,
}

-- at most n bytes, each below 256
abbrev pub Sound : ℕ → Bytes → Type 0
Sound n b = (length b ≤ n) × ((i : ℕ) → get_or b i 0 < 256)

-- a read returns no more than it was asked for
abbrev pub SoundReads : Host → Type 0
SoundReads host =
    ((t : Trace) (fd : ℤ) (n : ℕ) (b : Bytes) → host.on_recv t fd n ≡ got b → Sound n b)
    × ((t : Trace) (nonblock : Bool) (fd : ℤ) (n : ℕ) (b : Bytes)
        → host.on_recv_some t nonblock fd n ≡ got b
        → Sound n b)

-- each datagram of a batch fits its buffer
abbrev pub Within : List (Bytes × Sockaddr) → List ℕ → Type 0
Within [] sizes = Unit {0}
Within (d ∷ ds) [] = ⊥
Within (d ∷ ds) (n ∷ sizes) = (length d.0 ≤ n) × Within ds sizes

abbrev pub SoundBatches : Host → Type 0
SoundBatches host =
    (t : Trace) (fd : ℤ) (sizes : List ℕ) (ds : List (Bytes × Sockaddr))
    → host.on_recvmmsg t fd sizes ≡ got_batch ds
    → Within ds sizes

-- a message that has the whole of its block
abbrev pub IsSlot : Msg → Type 0
IsSlot m = (length m.mem ≡ udp_buf_size) × (m.buf ≡ 0) × (m.len ≡ udp_buf_size)

-- the block is as long as before, so no write went beyond it, and the payload lies inside
abbrev pub InBlock : Msg → Type 0
InBlock m = (length m.mem ≡ udp_buf_size) × (m.buf + m.len ≤ udp_buf_size)

abbrev pub AllSlots : List Msg → Type 0
AllSlots [] = Unit {0}
AllSlots (m ∷ ms) = IsSlot m × AllSlots ms

abbrev pub AllInBlock : List Msg → Type 0
AllInBlock [] = Unit {0}
AllInBlock (m ∷ ms) = InBlock m × AllInBlock ms

pub slots_in_block : (ms : List Msg) → AllSlots ms → AllInBlock ms
slots_in_block [] h = tt
slots_in_block (m ∷ ms) ((l, z, n), h) = ((l, omega arith), slots_in_block ms h)

get_or-append :
    (xs ys : Bytes)
    → ((i : ℕ) → get_or xs i 0 < 256)
    → ((i : ℕ) → get_or ys i 0 < 256)
    → (i : ℕ) → get_or (xs ++ ys) i 0 < 256
get_or-append [] ys h k i = k i
get_or-append (x ∷ xs) ys h k zero = h 0
get_or-append (x ∷ xs) ys h k (suc i) = get_or-append xs ys (λ j. h (suc j)) k i

sizes_of_bounds :
    (head : Bytes) (len a d : ℕ)
    → ((i : ℕ) → get_or head i 0 < 256)
    → len ≡ udp_buf_size
    → sizes_of head len ≡ some (a, d)
    → (2 ≤ a) × (a + d ≤ udp_buf_size)
unfolding sizes_of size_sub
sizes_of_bounds head len a d h e s = ground (arith, h 2)

module _ (host : Host) (sound : SoundReads host) where
  read_rest-bytes :
      (fd : ℤ) (head : Bytes) (o : Socks5) (t : Trace)
      → ((i : ℕ) → get_or head i 0 < 256)
      → (i : ℕ) → get_or (read_rest host fd head o t).0.1 i 0 < 256
  unfolding read_rest joined
  read_rest-bytes fd head o t h i =
      let (_, o1, t1) = waits host o t in
      elim (Bool-cases (ltb 0 (length head) && ltb (length head) 5)) [
        | inr b ↦ rw (read_rest, b) (h i)
        | inl b ↦ elim (Received-cases (host.on_recv t1 fd (5 - length head))) [
          | inl (more, e) ↦
              rw (read_rest, b, e)
                (get_or-append head more h ((sound.0 t1 fd (5 - length head) more e).1) i)
          | inr (k, e) ↦ rw (read_rest, b, e) (h i)
        ]
      ]

  read_head-bytes :
      (nonblock : Bool) (fd : ℤ) (o : Socks5) (t : Trace) (i : ℕ)
      → get_or (read_head host nonblock fd o t).0.1 i 0 < 256
  unfolding read_head
  read_head-bytes nonblock fd o t i =
      let (_, o1, t1) = waits host o t in
      elim (Received-cases (host.on_recv_some t1 nonblock fd 5)) [
        | inl (b, e) ↦
            rw (read_head, e)
              (read_rest-bytes fd b o1 (received fd 5 (got b) ∷ t1) (sound.1 t1 nonblock fd 5 b e).1
                i)
        | inr (k, e) ↦ rw (read_head, e) (omega arith)
      ]

fill-InBlock :
    (m : Msg) (b : Bytes) → IsSlot m → 2 + length b ≤ udp_buf_size → InBlock (fill m (got b))
unfolding fill
fill-InBlock m b (l, z, n) h = (length-write_at m.mem (m.buf + 2) b (omega arith) ∙ l, omega arith)

complete-InBlock :
    (m : Msg) (b head : Bytes) (addrlen datlen : ℕ)
    → IsSlot m
    → 2 + length b ≤ udp_buf_size
    → 2 ≤ addrlen
    → addrlen + datlen ≤ udp_buf_size
    → InBlock (complete (fill m (got b)) head addrlen datlen)
unfolding complete fill
complete-InBlock m b head addrlen datlen (l, z, n) h two k =
    let start : Bytes = get_or head 3 0 ∷ get_or head 4 0 ∷ [] in
    let l1 = length-write_at m.mem (m.buf + 2) b (omega arith) in
    let l2 = length-write_at (write_at m.mem (m.buf + 2) b) m.buf start (omega arith) in
    (l2 ∙ l1 ∙ l, omega arith)

module _ (host : Host) (sound : SoundReads host) (o : Socks5) (t : Trace) where
  read_body-InBlock :
      (fd : ℤ) (head : Bytes) (m : Msg) (addrlen datlen : ℕ)
      → IsSlot m
      → 2 ≤ addrlen
      → addrlen + datlen ≤ udp_buf_size
      → InBlock (read_body host fd head m addrlen datlen o t).0.1
  unfolding read_body result fill
  read_body-InBlock fd head m addrlen datlen slot_m two k =
      let (_, o1, t1) = waits host o t in
      let n = addrlen - 2 + datlen in
      elim (Received-cases (host.on_recv t1 fd n)) [
        | inl (b, e) ↦
            let le : length b ≤ n = (sound.0 t1 fd n b e).0 in
            elim (Bool-cases (is_pos (result (got b)) n)) [
              | inl x ↦
                  rw (read_body, e, x)
                    (complete-InBlock m b head addrlen datlen slot_m (omega arith) two k)
              | inr x ↦ rw (read_body, e, x) (fill-InBlock m b slot_m (omega arith))
            ]
        | inr (j, e) ↦ rw (read_body, e) (slot_m.0, omega arith)
      ]

module _ (host : Host) (sound : SoundReads host) where
  recv_one-InBlock :
      (nonblock : Bool) (fd : ℤ) (rlen : ℕ) (m : Msg) (o : Socks5) (t : Trace)
      → IsSlot m
      → InBlock (recv_one host nonblock fd rlen m o t).0.1
  unfolding recv_one
  recv_one-InBlock nonblock fd rlen m o t (l, z, n) =
      let ((res, head), o1, t1) = read_head host nonblock fd o t in
      elim (Bool-cases (is_pos res 5)) [
        | inl b ↦ elim (Option-cases (sizes_of head m.len)) [
          | inl e ↦ rw (recv_one, b, e) (l, omega arith)
          | inr ((a, d), e) ↦
              let (two, k) =
                sizes_of_bounds head m.len a d (read_head-bytes host sound nonblock fd o t) n e in
              rw (recv_one, b, e) (read_body-InBlock host sound o1 t1 fd head m a d (l, z, n) two k)
        ]
        | inr b ↦ rw (recv_one, b) (l, omega arith)
      ]

  pub recv_loop-InBlock :
      (nonblock : Bool) (fd : ℤ) (ms : List Msg) (rlen : ℕ) (o : Socks5) (t : Trace)
      → AllSlots ms
      → AllInBlock (recv_loop host nonblock fd rlen ms o t).0.1
  unfolding recv_loop recv_one read_head
  recv_loop-InBlock nonblock fd [] rlen o t h = tt
  recv_loop-InBlock nonblock fd (m ∷ ms) rlen o t (h, hs) =
      let ((done, m'), o1, t1) = recv_one host nonblock fd rlen m o t in
      let one = recv_one-InBlock nonblock fd rlen m o t h in
      elim (Option-cases done) [
        | inl e ↦ rw (recv_loop, e) (one, recv_loop-InBlock nonblock fd ms (suc rlen) o1 t1 hs)
        | inr (res, e) ↦ rw (recv_loop, e) (one, slots_in_block ms hs)
      ]
