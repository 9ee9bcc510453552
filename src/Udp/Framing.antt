-- ===== src/Udp/Framing.antt =====
-- A datagram on a connection: the frame that hev_socks5_udp_sendmmsg_tcp writes has a header that
-- hev_socks5_udp_recvmmsg_tcp takes the same address and payload from.
use hev_socks5_core.Base.{
  ℕ, ◌+◌, ◌%◌, ◌≤◌, ◌<◌, ◌≡◌, refl, sym, ap, ◌∙◌, some, [], ◌∷◌, ◌++◌, Bytes, pos, arith, length,
  take, drop, length-take, length-append, take-append, drop-append, drop-write_at, length-write_at,
  write_at, read_at, append_assoc,
}
use hev_socks5_core.Host.{got}
use hev_socks5_core.Wire.{drop-add}
use hev_socks5_core.Misc.Addr.{Addr, addr_len}
use hev_socks5_core.Misc.Bytes16.{htons_bytes, ntohs_bytes, ntohs-htons}
use hev_socks5_core.Udp.Defs.{Msg, Datagram, at}
use hev_socks5_core.Udp.Send.{positive, frame_tcp}
use hev_socks5_core.Udp.Recv.{size_sub, sizes_of, fill, complete}
use hev_socks5_core.Udp.Forward.{payload_of}

-- The datagram d has an address of a known type that is there as a whole and shorter than 253 bytes,
-- its payload has less than 65536 bytes, and both have room in the buffer of m.
abbrev pub Fits : Msg → Datagram → Type 0
Fits m d =
    (n : ℕ) × (addr_len d.addr ≡ pos n)
    × (n ≤ length d.addr)
    × (n < 253)
    × (length d.payload < 65536)
    × (n + length d.payload ≤ m.len)
    × (m.buf + m.len ≤ length m.mem)
    × (m.len < 18446744073709551616)

-- the address of m stands in its memory and is that of d, and its payload is that of d
abbrev pub Carries : Msg → Datagram → Type 0
Carries m d =
    (n : ℕ) × (i : ℕ) × (addr_len d.addr ≡ pos n)
    × (m.addr ≡ at i)
    × (read_at m.mem i n ≡ take n d.addr)
    × (payload_of m ≡ d.payload)

pub addr_len_min : (a : Addr) (n : ℕ) → addr_len a ≡ pos n → 4 ≤ n
unfolding addr_len
addr_len_min a n e = ground arith

-- the first two bytes of an address, and the others
pub addr-cut :
    (a : Addr) (n : ℕ)
    → addr_len a ≡ pos n
    → n ≤ length a
    → (a0 : ℕ) × (a1 : ℕ) × (rest : Bytes) × (take n a ≡ a0 ∷ a1 ∷ rest) × (length rest + 2 ≡ n)
addr-cut a n e h = split (take n a) (length-take n a h)
  where
    split :
        (b : Bytes)
        → length b ≡ n
        → (a0 : ℕ) × (a1 : ℕ) × (rest : Bytes) × (b ≡ a0 ∷ a1 ∷ rest) × (length rest + 2 ≡ n)
    split [] l = absurd (omega (arith, addr_len_min a n e))
    split (a0 ∷ []) l = absurd (omega (arith, addr_len_min a n e))
    split (a0 ∷ a1 ∷ rest) l = (a0, a1, rest, refl, omega arith)

pub frame_tcp-cut :
    (d : Datagram) (n a0 a1 : ℕ) (rest : Bytes)
    → addr_len d.addr ≡ pos n
    → n < 253
    → take n d.addr ≡ a0 ∷ a1 ∷ rest
    → frame_tcp d
      ≡ some (htons_bytes (length d.payload) ++ ((3 + n) ∷ a0 ∷ a1 ∷ (rest ++ d.payload)))
unfolding positive frame_tcp
frame_tcp-cut d n a0 a1 rest e h c =
    let p : positive (pos n) ≡ some n = ground (arith, addr_len_min d.addr n e) in
    let b : (3 + n) % 256 ≡ 3 + n = omega arith in rw (frame_tcp, e, p, b, c) refl

pub sizes_of-cut :
    (len n datlen a0 a1 : ℕ)
    → 4 ≤ n
    → datlen < 65536
    → n + datlen ≤ len
    → len < 18446744073709551616
    → sizes_of (htons_bytes datlen ++ ((3 + n) ∷ a0 ∷ a1 ∷ [])) len ≡ some (n, datlen)
unfolding sizes_of size_sub
sizes_of-cut len n datlen a0 a1 h k l w =
    let t : ntohs_bytes (htons_bytes datlen) ≡ datlen = ntohs-htons datlen k in ground arith

-- what the end of a round leaves in memory
complete_mem :
    (m : Msg) (bytes : Bytes) (h0 h1 h2 a0 a1 n datlen : ℕ)
    → m.buf + 2 + length bytes ≤ length m.mem
    → (tail : Bytes) × (drop m.buf
          (complete (fill m (got bytes)) (h0 ∷ h1 ∷ h2 ∷ a0 ∷ a1 ∷ []) n datlen).mem
        ≡ (a0 ∷ a1 ∷ bytes) ++ tail)
unfolding complete fill
complete_mem m bytes h0 h1 h2 a0 a1 n datlen h =
    let mem1 = write_at m.mem (m.buf + 2) bytes in
    let l = length-write_at m.mem (m.buf + 2) bytes h in
    (
      drop (m.buf + 2 + length bytes) m.mem,
      (drop-write_at mem1 m.buf (a0 ∷ a1 ∷ []) (omega arith)
          ∙ ap (λ b. a0 ∷ a1 ∷ b) (drop-write_at m.mem (m.buf + 2) bytes (omega arith))),
    )

complete_same :
    (m : Msg) (bytes head : Bytes) (n datlen : ℕ)
    → let m' = complete (fill m (got bytes)) head n datlen in
      (m'.addr ≡ at m.buf) × (m'.buf ≡ m.buf + n) × (m'.len ≡ datlen)
unfolding complete fill
complete_same m bytes head n datlen = (refl, refl, refl)

-- A message that was read behind its header carries the datagram.
pub complete-Carries :
    (m : Msg) (d : Datagram) (h0 h1 h2 a0 a1 n : ℕ) (rest : Bytes)
    → addr_len d.addr ≡ pos n
    → take n d.addr ≡ a0 ∷ a1 ∷ rest
    → length rest + 2 ≡ n
    → m.buf + n + length d.payload ≤ length m.mem
    → Carries
        (complete
          (fill m (got (rest ++ d.payload)))
          (h0 ∷ h1 ∷ h2 ∷ a0 ∷ a1 ∷ [])
          n
          (length d.payload))
        d
complete-Carries m d h0 h1 h2 a0 a1 n rest e c l h =
    let bytes = rest ++ d.payload in
    let head = h0 ∷ h1 ∷ h2 ∷ a0 ∷ a1 ∷ [] in
    let m' = complete (fill m (got bytes)) head n (length d.payload) in
    let (ea, eb, el) = complete_same m bytes head n (length d.payload) in
    let lb = length-append rest d.payload in
    let (tail, em) = complete_mem m bytes h0 h1 h2 a0 a1 n (length d.payload) (omega arith) in
    let front = a0 ∷ a1 ∷ rest in
    let whole : drop m.buf m'.mem ≡ front ++ (d.payload ++ tail) =
      em ∙ append_assoc front d.payload tail in
    let ln : length front ≡ n = omega arith in
    let swap : m.buf + n ≡ n + m.buf = omega arith in
    let behind : drop m'.buf m'.mem ≡ d.payload ++ tail =
      ap (λ k. drop k m'.mem) (eb ∙ swap)
      ∙ drop-add n m.buf m'.mem
      ∙ ap (drop n) whole
      ∙ ap (λ k. drop k (front ++ (d.payload ++ tail))) (sym ln)
      ∙ drop-append front (d.payload ++ tail) in
    (
      n,
      m.buf,
      e,
      ea,
      ap (take n) whole
          ∙ ap (λ k. take k (front ++ (d.payload ++ tail))) (sym ln)
          ∙ take-append front (d.payload ++ tail)
          ∙ sym c,
      ap (λ k. take k (drop m'.buf m'.mem)) el
          ∙ ap (take (length d.payload)) behind
          ∙ take-append d.payload tail,
    )
