-- ===== src/Udp/Splice.antt =====
-- hev_socks5_udp_splicer: both directions in turn, until they or the connection have ended.
use hev_socks5_core.Base.{
  ℕ, zero, suc, ◌+◌, ◌*◌, ◌-◌, Bool, true, false, not, ◌||◌, Option, none, some, List, [], ◌∷◌,
  Bytes, ℤ, pos, negsuc, minus_one, is_neg, is_nonpos, is_pos, and_ℤ, if◌then◌else◌,
}
use hev_socks5_core.Host.{
  Host, YieldType, yield, waitio, M, pure, self, ◌>>=◌, ◌>>◌, emit, freed, add_fd, mod_fd, malloc,
}
use hev_socks5_core.Misc.Socket.{get_udp_copy_buffer_nums}
use hev_socks5_core.Socks5.{Socks5}
use hev_socks5_core.Udp.Defs.{UdpIface, udp_buf_size, task_io_yielder}
use hev_socks5_core.Udp.Forward.{fwd_f, fwd_b}

-- the variables of the loop, and the blocks of the first half of `buf`
pub record Relay : Type 0 where
  pub res_f : ℤ
  pub res_b : ℤ
  pub bound : Bool
  -- the first half of `buf`, which hev_socks5_udp_fwd_f uses, and the other one, behind `iov`
  pub blocks : List Bytes
  pub back_blocks : List Bytes

-- the choice behind both directions; `none` is the `break`
unfoldable pub next_wait : ℤ → ℤ → Option YieldType
next_wait res_f res_b =
    if not (is_nonpos res_f) || not (is_nonpos res_b)
    then some yield
    else if is_pos (and_ℤ res_f res_b) 0
    then some waitio
    else none

-- num blocks of memory that was just allocated
abbrev pub bytes_from : (ℕ → ℕ) → ℕ → ℕ → Bytes
bytes_from f start zero = []
bytes_from f start (suc n) = f start ∷ bytes_from f (start + 1) n

abbrev pub blocks_from : (ℕ → ℕ) → ℕ → ℕ → List Bytes
blocks_from f start zero = []
blocks_from f start (suc n) =
    bytes_from f start udp_buf_size ∷ blocks_from f (start + udp_buf_size) n

-- `UDP_BUF_SIZE * num * 2`; a negative one is an immense `size_t`, which no allocator grants
unfoldable pub buffer_size : ℤ → ℕ
buffer_size (pos n) = udp_buf_size * n * 2
buffer_size (negsuc n) = 18446744073709551616 - udp_buf_size * (n + 1) * 2

unfoldable pub count_of : ℤ → ℕ
count_of (pos n) = n
count_of (negsuc n) = 0

module _ (host : Host) (iface : UdpIface) (fd : ℤ) where
  -- `if (res_f >= 0)`
  unfoldable pub forward : Relay → M Socks5 Relay
  forward r = if is_neg r.res_f then pure r else do
    (res, bound, blocks) ← fwd_f host iface fd r.blocks r.bound
    pure (record r { res_f = res; bound = bound; blocks = blocks })

  -- `if (res_b >= 0)`
  unfoldable pub backward : ℕ → Relay → M Socks5 Relay
  backward num r = if is_neg r.res_b then pure r else do
    (res, blocks) ← fwd_b host iface fd num r.back_blocks
    pure (record r { res_b = res; back_blocks = blocks })

  -- the end of a round: `true` where the loop goes on
  unfoldable pub pause : Option YieldType → M Socks5 Bool
  pause none = pure false
  pause (some type) = do res ← task_io_yielder host type; pure (is_pos res 0)

  -- a round of the loop
  unfoldable pub splice_round : ℕ → Relay → M Socks5 (Bool × Relay)
  splice_round num r = do
    r1 ← forward r
    r2 ← backward num r1
    goes_on ← pause (next_wait r2.res_f r2.res_b)
    pure (goes_on, r2)

  -- at most `fuel` rounds; `false` if the loop has not ended by then
  unfoldable pub splice_loop : ℕ → ℕ → Relay → M Socks5 Bool
  splice_loop zero num r = pure false
  splice_loop (suc fuel) num r =
      let rest = splice_loop fuel num in
      do (goes_on, r') ← splice_round num r; if goes_on then rest r' else pure true

  -- the registration of both descriptors
  unfoldable pub register : ℤ → M Socks5 (Unit {0})
  register fd_a = do
    a ← mod_fd host fd_a
    (if is_neg a then (do add_fd host fd_a; pure tt) else pure tt)
    b ← add_fd host fd
    if is_neg b then (do mod_fd host fd; pure tt) else pure tt

  unfoldable pub start : ℕ → M Socks5 Relay
  start num o t = (
    record {
      res_f = pos 1;
      res_b = pos 1;
      bound = false;
      blocks = blocks_from (host.uninit t) 0 num;
      back_blocks = blocks_from (host.uninit t) (udp_buf_size * num) num;
    },
    o,
    t,
  )

  -- hev_socks5_udp_splicer, with at most `fuel` rounds; `none` if the loop has not ended by then
  unfoldable pub udp_splicer : ℕ → M Socks5 (Option ℤ)
  udp_splicer fuel = do
    let num = count_of (get_udp_copy_buffer_nums host.config)
    granted ← malloc host (buffer_size (get_udp_copy_buffer_nums host.config))
    if not granted then pure (some minus_one) else do
      r ← start num
      o ← self
      register (iface.get_fd o)
      ended ← splice_loop fuel num r
      if ended then (do emit freed; pure (some (pos 0))) else pure none
