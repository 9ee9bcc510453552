-- ===== src/Udp/Closed.antt =====
-- The relay of an association ends when the connection that it belongs to is closed.
use hev_socks5_core.Base.{
  ap, ◌∙◌, ℕ, suc, ◌≡◌, refl, true, false, ℤ, pos, minus_one, arith, Bool-cases, inl, inr, Option,
  none, some, ◌∷◌,
}
use hev_socks5_core.Host.{Host, Trace, YieldType}
use hev_socks5_core.Socks5
use hev_socks5_core.Socks5.{Socks5, Kind, udp_in_udp}
use hev_socks5_core.Udp.Defs.{UdpIface, is_closed, probing, udp_yielder, task_io_yielder}
use hev_socks5_core.Udp.Lifetime.{forward-Kept, backward-Kept}
use hev_socks5_core.Udp.Splice.{
  Relay, next_wait, forward, backward, pause, splice_round, splice_loop,
}
use hev_socks5_core.Host.{allocated}
use hev_socks5_core.Udp.Splice.{register, start, udp_splicer, count_of, buffer_size}
use hev_socks5_core.Udp.Lifetime.{register-Kept, Settled, udp_splicer-Settled}

module _ (host : Host) (o : Socks5) (t : Trace) where
  -- a closed connection of an association stops every wait
  probing-closed :
      (type : YieldType)
      → is_closed (host.on_probe t o.fd) ≡ true
      → let (res, o', _) = probing host type o t in (res ≡ minus_one) × (o'.timeout ≡ pos 0)
  unfolding probing Socks5.set_timeout
  probing-closed type c = rw (probing, c) (ground arith)

  pub task_io_yielder-closed :
      (type : YieldType)
      → o.kind ≡ udp_in_udp
      → is_closed (host.on_probe t o.fd) ≡ true
      → let (res, o', _) = task_io_yielder host type o t in (res ≡ minus_one) × (o'.timeout ≡ pos 0)
  unfolding task_io_yielder udp_yielder
  task_io_yielder-closed type k c = simp k (probing-closed type c)

module _ (host : Host) (iface : UdpIface) (fd : ℤ) where
  pause-closed :
      (o : Socks5) (t : Trace) (wait : Option YieldType)
      → o.kind ≡ udp_in_udp
      → is_closed (host.on_probe t o.fd) ≡ true
      → (pause host iface fd wait o t).0 ≡ false
  unfolding pause
  pause-closed o t none k c = refl
  pause-closed o t (some type) k c =
      let (r, _) = task_io_yielder-closed host o t type k c in rw r refl

  -- The client of an association has closed its connection, or the connection has failed, and this
  -- stays so. Then the relay's loop ends within one round, whatever both directions do.
  pub splice_loop-closed :
      (fuel num : ℕ) (r : Relay) (o : Socks5) (t : Trace)
      → o.kind ≡ udp_in_udp
      → ((t' : Trace) → is_closed (host.on_probe t' o.fd) ≡ true)
      → (splice_loop host iface fd (suc fuel) num r o t).0 ≡ true
  unfolding splice_loop splice_round
  splice_loop-closed fuel num r o t k c =
      let (r1, o1, t1) = forward host iface fd r o t in
      let (r2, o2, t2) = backward host iface fd num r1 o1 t1 in
      let (f1, k1, _, _, _, _) = forward-Kept host iface fd (pos 0) o t r in
      let (f2, k2, _, _, _, _) = backward-Kept host iface fd (pos 0) o1 t1 num r1 in
      let same : o2.fd ≡ o.fd = f2 ∙ f1 in
      let e =
        pause-closed o2 t2 (next_wait r2.res_f r2.res_b) (k2 ∙ k1 ∙ k)
          (ap (λ x. is_closed (host.on_probe t2 x)) same ∙ c t2) in
      rw (splice_loop, splice_round, e) refl

-- whether the loop has ended, as the result of the relay tells
udp_splicer-ends :
    (host : Host) (iface : UdpIface) (fd : ℤ) (fuel : ℕ) (o : Socks5) (t : Trace)
    → o.kind ≡ udp_in_udp
    → ((t' : Trace) → is_closed (host.on_probe t' o.fd) ≡ true)
    → (res : ℤ) × ((udp_splicer host iface fd (suc fuel) o t).0 ≡ some res)
unfolding udp_splicer start
udp_splicer-ends host iface fd fuel o t k c =
    let nums = host.config.udp_copy_buffer_nums in
    let g = host.on_malloc t (buffer_size nums) in
    let t1 : Trace = allocated (buffer_size nums) g ∷ t in
    let (r, o0, t0) = start host iface fd (count_of nums) o t1 in
    let (_, o2, t2) = register host iface fd (iface.get_fd o) o t1 in
    let (same, _) = register-Kept host iface fd (pos 0) o t1 (iface.get_fd o) in
    let ended =
      splice_loop-closed host iface fd fuel (count_of nums) r o2 t2
        (ap (λ (x : Socks5). x.kind) same ∙ k)
        (λ t'. ap (λ (x : Socks5). is_closed (host.on_probe t' x.fd)) same ∙ c t') in
    elim (Bool-cases g) [
      | inl e ↦ (pos 0, rw (udp_splicer, e) (ground (arith, ended)))
      | inr e ↦ (minus_one, rw (udp_splicer, e) refl)
    ]

-- The association's connection is closed or has failed, and this stays so. Then
-- hev_socks5_udp_splicer returns after at most one round; it has opened and closed no descriptor and
-- given back all memory that it was granted.
pub udp_splicer-closed :
    (host : Host) (iface : UdpIface) (fd n : ℤ) (fuel : ℕ) (o : Socks5) (t : Trace)
    → o.kind ≡ udp_in_udp
    → ((t' : Trace) → is_closed (host.on_probe t' o.fd) ≡ true)
    → let (r, o', t') = udp_splicer host iface fd (suc fuel) o t in
      (res : ℤ) × (r ≡ some res) × Settled n o t o' t'
udp_splicer-closed host iface fd n fuel o t k c =
    let (res, e) = udp_splicer-ends host iface fd fuel o t k c in
    (res, e, udp_splicer-Settled host iface fd n o t (suc fuel) res e)
