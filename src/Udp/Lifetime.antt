-- ===== src/Udp/Lifetime.antt =====
-- The relay of datagrams opens and closes no descriptor, and gives its buffer back.
use hev_socks5_core.Base.{
  ℕ, zero, suc, ◌+◌, ◌≡◌, ◌∷◌, refl, ℤ, arith, Bool-cases, inl, inr, Option, none, some,
}
use hev_socks5_core.Host.{Host, Trace, YieldType, allocated}
use hev_socks5_core.Sockets.{opens, closes, grants, frees}
use hev_socks5_core.Socks5.{Socks5}
use hev_socks5_core.Udp.Defs.{UdpIface}
use hev_socks5_core.Udp.Splice.{
  Relay, next_wait, forward, backward, pause, splice_round, splice_loop, register, start,
  udp_splicer, count_of, buffer_size,
}
use hev_socks5_core.Udp.Waiting.{task_io_yielder-Waited}
use hev_socks5_core.Udp.Kept.{Kept}
use hev_socks5_core.Udp.Directions.{fwd_f-Kept, fwd_b-Kept}

module _ (host : Host) (iface : UdpIface) (fd n : ℤ) (o : Socks5) (t : Trace) where
  pub forward-Kept : (r : Relay) → let (_, o', t') = forward host iface fd r o t in Kept n o t o' t'
  unfolding forward
  forward-Kept r = ground (arith, fwd_f-Kept host n o t iface fd r.blocks r.bound)

  pub backward-Kept :
      (num : ℕ) (r : Relay) → let (_, o', t') = backward host iface fd num r o t in Kept n o t o' t'
  unfolding backward
  backward-Kept num r = ground (arith, fwd_b-Kept host n o t iface fd num r.back_blocks)

  pause-Kept :
      (wait : Option YieldType) → let (_, o', t') = pause host iface fd wait o t in Kept n o t o' t'
  unfolding pause
  pause-Kept none = (refl, refl, refl, refl, refl, refl)
  pause-Kept (some type) = ground (arith, task_io_yielder-Waited host n o t type)

module _ (host : Host) (iface : UdpIface) (fd n : ℤ) where
  pub splice_round-Kept :
      (num : ℕ) (r : Relay) (o : Socks5) (t : Trace)
      → let (_, o', t') = splice_round host iface fd num r o t in Kept n o t o' t'
  unfolding splice_round
  splice_round-Kept num r o t =
      let (r1, o1, t1) = forward host iface fd r o t in
      let (r2, o2, t2) = backward host iface fd num r1 o1 t1 in
      ground (
        arith,
        forward-Kept host iface fd n o t r,
        backward-Kept host iface fd n o1 t1 num r1,
        pause-Kept host iface fd n o2 t2 (next_wait r2.res_f r2.res_b),
      )

  splice_loop-Kept :
      (fuel num : ℕ) (r : Relay) (o : Socks5) (t : Trace)
      → let (_, o', t') = splice_loop host iface fd fuel num r o t in Kept n o t o' t'
  unfolding splice_loop
  splice_loop-Kept zero num r o t = (refl, refl, refl, refl, refl, refl)
  splice_loop-Kept (suc fuel) num r o t =
      let ((goes_on, r'), o1, t1) = splice_round host iface fd num r o t in
      ground (arith, splice_round-Kept num r o t, splice_loop-Kept fuel num r' o1 t1)

module _ (host : Host) (iface : UdpIface) (fd n : ℤ) (o : Socks5) (t : Trace) where
  pub register-Kept :
      (a : ℤ) → let (_, o', t') = register host iface fd a o t in (o' ≡ o) × Kept n o t o' t'
  unfolding register opens closes grants frees
  register-Kept a = ground arith

-- From (o, t) to (o', t') no descriptor n is opened or closed, the object has the same descriptor,
-- and what was granted is given back.
abbrev pub Settled : ℤ → Socks5 → Trace → Socks5 → Trace → Type 0
Settled n o t o' t' =
    (o'.fd ≡ o.fd)
    × (opens n t' ≡ opens n t)
    × (closes n t' ≡ closes n t)
    × (grants t' + frees t ≡ grants t + frees t')

module _ (host : Host) (iface : UdpIface) (fd n : ℤ) (o : Socks5) (t : Trace) where
  pub udp_splicer-Settled :
      (fuel : ℕ) (res : ℤ)
      → let (r, o', t') = udp_splicer host iface fd fuel o t in r ≡ some res → Settled n o t o' t'
  unfolding udp_splicer start opens closes grants frees
  udp_splicer-Settled fuel res =
      let nums = host.config.udp_copy_buffer_nums in
      let g = host.on_malloc t (buffer_size nums) in
      let t1 : Trace = allocated (buffer_size nums) g ∷ t in
      let r : Relay = (start host iface fd (count_of nums) o t1).0 in
      let (_, o2, t2) = register host iface fd (iface.get_fd o) o t1 in
      let (_, a) = register-Kept host iface fd n o t1 (iface.get_fd o) in
      let b = splice_loop-Kept host iface fd n fuel (count_of nums) r o2 t2 in
      elim (Bool-cases g) [
        | inl e ↦ rw (udp_splicer, e) (ground (arith, a, b))
        | inr e ↦ rw (udp_splicer, e) (ground arith)
      ]

  pub udp_splicer-descriptors :
      (fuel : ℕ)
      → let (_, o', t') = udp_splicer host iface fd fuel o t in
        (o'.fd ≡ o.fd) × (opens n t' ≡ opens n t) × (closes n t' ≡ closes n t)
  unfolding udp_splicer start opens closes
  udp_splicer-descriptors fuel =
      let nums = host.config.udp_copy_buffer_nums in
      let g = host.on_malloc t (buffer_size nums) in
      let t1 : Trace = allocated (buffer_size nums) g ∷ t in
      let r : Relay = (start host iface fd (count_of nums) o t1).0 in
      let (_, o2, t2) = register host iface fd (iface.get_fd o) o t1 in
      let (_, a) = register-Kept host iface fd n o t1 (iface.get_fd o) in
      let b = splice_loop-Kept host iface fd n fuel (count_of nums) r o2 t2 in
      elim (Bool-cases g) [
        | inl e ↦ rw (udp_splicer, e) (ground (arith, a, b))
        | inr e ↦ rw (udp_splicer, e) (ground arith)
      ]
