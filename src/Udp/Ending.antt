-- ===== src/Udp/Ending.antt =====
-- When the loop of the relay goes on, waits and ends.
use hev_socks5_core.Base.{
  subst, sym, ap, ◌∙◌, ℕ, zero, suc, ◌≡◌, ◌⊎◌, refl, Bool, true, false, ℤ, pos, negsuc, minus_one,
  arith, Bool-cases, inl, inr, Option, none, some, is_neg, is_pos, ◌||◌, List, [], ◌∷◌, Bytes,
  and_ℤ, ◌&&◌,
}
use hev_socks5_core.Host.{
  Host, Trace, YieldType, yield, waitio, Batch, got_batch, batch_failed, Sockaddr,
}
use hev_socks5_core.Socks5.{Socks5}
use hev_socks5_core.Udp.Defs.{UdpIface, Msg}
use hev_socks5_core.Udp.Forward.{
  settle_result, gather, send_out, send_found, relay_out, fwd_f, relay_back, fwd_b,
}
use hev_socks5_core.Udp.Splice.{Relay, next_wait, forward, backward, pause, splice_round}

-- what a direction returns: it has moved something, it has nothing to move, it has ended
abbrev pub IsProgress : ℤ → Type 0
IsProgress res = (res ≡ pos 1) ⊎ ((res ≡ pos 0) ⊎ (res ≡ minus_one))

-- the choice as the two results call for it
abbrev pub choice : Bool → Bool → Option YieldType
choice true both_ended = some yield
choice false false = some waitio
choice false true = none

-- For results of 1, 0 and -1, the tests on both results in hev_socks5_udp_splicer, one of them on
-- their bits, choose as the reference does: yield where a direction has moved something, otherwise
-- wait, and end where both directions have ended.
pub next_wait-choice :
    (f b : ℤ)
    → IsProgress f
    → IsProgress b
    → next_wait f b ≡ choice (is_pos f 1 || is_pos b 1) (is_neg f && is_neg b)
unfolding next_wait and_ℤ
next_wait-choice f b (inl p) (inl q) = rw p refl
next_wait-choice f b (inl p) (inr (inl q)) = rw p refl
next_wait-choice f b (inl p) (inr (inr q)) = rw p refl
next_wait-choice f b (inr (inl p)) (inl q) = rw (p, q) refl
next_wait-choice f b (inr (inl p)) (inr (inl q)) = rw (p, q) refl
next_wait-choice f b (inr (inl p)) (inr (inr q)) = rw (p, q) refl
next_wait-choice f b (inr (inr p)) (inl q) = rw (p, q) refl
next_wait-choice f b (inr (inr p)) (inr (inl q)) = rw (p, q) refl
next_wait-choice f b (inr (inr p)) (inr (inr q)) = rw (p, q) refl

choice_ended :
    (f b : ℤ)
    → is_neg f && is_neg b ≡ true
    → choice (is_pos f 1 || is_pos b 1) (is_neg f && is_neg b) ≡ none
choice_ended (pos i) b h = absurd (ground arith)
choice_ended (negsuc i) (pos j) h = absurd (ground arith)
choice_ended (negsuc i) (negsuc j) h = refl

module _ (host : Host) (o : Socks5) (t : Trace) where
  settle_result-IsProgress : (res : ℤ) → IsProgress (settle_result host res o t).0
  unfolding settle_result
  settle_result-IsProgress res = ground arith

module _ (host : Host) (o : Socks5) (t : Trace) where
  send_out-IsProgress :
      (fd : ℤ) (bound : Bool) (ds : List (Option Sockaddr × Bytes))
      → IsProgress (send_out host fd bound ds o t).0.0
  unfolding send_out settle_result
  send_out-IsProgress fd bound ds = ground arith

  send_found-IsProgress :
      (fd : ℤ) (bound : Bool) (found : Option (List (Option Sockaddr × Bytes)))
      → IsProgress (send_found host fd bound found o t).0.0
  unfolding send_found
  send_found-IsProgress fd bound none = inr (inr refl)
  send_found-IsProgress fd bound (some ds) = send_out-IsProgress fd bound ds

relay_out-IsProgress :
    (host : Host) (fd : ℤ) (bound : Bool) (res : ℤ) (ms : List Msg) (o : Socks5) (t : Trace)
    → IsProgress (relay_out host fd bound res ms o t).0.0
unfolding relay_out
relay_out-IsProgress host fd bound (negsuc k) ms o t = settle_result-IsProgress host o t (negsuc k)
relay_out-IsProgress host fd bound (pos zero) ms o t = settle_result-IsProgress host o t (pos 0)
relay_out-IsProgress host fd bound (pos (suc k)) ms o t =
    let (found, o1, t1) = gather host (suc k) ms o t in
    send_found-IsProgress host o1 t1 fd bound found

relay_back-IsProgress :
    (host : Host) (iface : UdpIface) (blocks : List Bytes) (b : Batch) (o : Socks5) (t : Trace)
    → IsProgress (relay_back host iface blocks b o t).0
unfolding relay_back
relay_back-IsProgress host iface blocks (batch_failed k) o t =
    settle_result-IsProgress host o t (negsuc k)
relay_back-IsProgress host iface blocks (got_batch []) o t =
    settle_result-IsProgress host o t (pos 0)
relay_back-IsProgress host iface blocks (got_batch (d ∷ ds)) o t =
    settle_result-IsProgress host _ _ _

-- the results that the loop keeps
abbrev pub Running : Relay → Type 0
Running r = IsProgress r.res_f × IsProgress r.res_b

module _ (host : Host) (iface : UdpIface) (fd : ℤ) where
  forward-IsProgress :
      (r : Relay) (o : Socks5) (t : Trace)
      → IsProgress r.res_f
      → let (r', _, _) = forward host iface fd r o t in
        IsProgress r'.res_f × (r'.res_b ≡ r.res_b) × ((is_neg r.res_f ≡ false) ⊎ (r' ≡ r))
  unfolding forward fwd_f
  forward-IsProgress r o t p = elim (Bool-cases (is_neg r.res_f)) [
    | inl e ↦ rw (forward, e) (p, refl, inr refl)
    | inr e ↦ rw (forward, e) (relay_out-IsProgress host _ _ _ _ _ _, refl, inl refl)
  ]

  backward-IsProgress :
      (num : ℕ) (r : Relay) (o : Socks5) (t : Trace)
      → IsProgress r.res_b
      → let (r', _, _) = backward host iface fd num r o t in
        IsProgress r'.res_b
        × (r'.res_f ≡ r.res_f)
        × (r'.blocks ≡ r.blocks)
        × ((is_neg r.res_b ≡ false) ⊎ (r' ≡ r))
  unfolding backward fwd_b
  backward-IsProgress num r o t p = elim (Bool-cases (is_neg r.res_b)) [
    | inl e ↦ rw (backward, e) (p, refl, refl, inr refl)
    | inr e ↦ rw (backward, e) (relay_back-IsProgress host _ _ _ _ _, refl, refl, inl refl)
  ]

module _ (host : Host) (iface : UdpIface) (fd : ℤ) where
  pause-none :
      (o : Socks5) (t : Trace) (wait : Option YieldType)
      → wait ≡ none
      → (pause host iface fd wait o t).0 ≡ false
  unfolding pause
  pause-none o t wait e = rw e refl

  -- A round keeps the result of each direction 1, 0 or -1. A direction that has ended is not called
  -- again: its result stays, and the forward one leaves the buffers as they are. The loop goes on only
  -- where a direction has not ended.
  pub splice_round-Running :
      (num : ℕ) (r : Relay) (o : Socks5) (t : Trace)
      → Running r
      → let ((goes_on, r'), _, _) = splice_round host iface fd num r o t in
        Running r'
        × ((is_neg r.res_f ≡ false) ⊎ ((r'.res_f ≡ r.res_f) × (r'.blocks ≡ r.blocks)))
        × ((is_neg r.res_b ≡ false) ⊎ (r'.res_b ≡ r.res_b))
        × ((goes_on ≡ false) ⊎ (is_neg r'.res_f && is_neg r'.res_b ≡ false))
  unfolding splice_round
  splice_round-Running num r o t (p, q) =
      let (r1, o1, t1) = forward host iface fd r o t in
      let (r2, o2, t2) = backward host iface fd num r1 o1 t1 in
      let (p1, same_b, ended_f) = forward-IsProgress host iface fd r o t p in
      let (q2, same_f, same, ended_b) =
        backward-IsProgress host iface fd num r1 o1 t1 (subst IsProgress (sym same_b) q) in
      let wait = next_wait-choice r2.res_f r2.res_b (subst IsProgress (sym same_f) p1) q2 in
      (
        (subst IsProgress (sym same_f) p1, q2),
        elim ended_f [
          | inl e ↦ inl e
          | inr e ↦
              inr (same_f ∙ ap (λ (x : Relay). x.res_f) e, same ∙ ap (λ (x : Relay). x.blocks) e)
        ],
        elim ended_b [
          | inl e ↦ inl (ap is_neg (sym same_b) ∙ e)
          | inr e ↦ inr (ap (λ (x : Relay). x.res_b) e ∙ same_b)
        ],
        elim (Bool-cases (is_neg r2.res_f && is_neg r2.res_b)) [
          | inl e ↦ inl (pause-none o2 t2 _ (wait ∙ choice_ended r2.res_f r2.res_b e))
          | inr e ↦ inr e
        ],
      )
