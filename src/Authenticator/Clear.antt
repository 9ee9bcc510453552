-- ===== src/Authenticator/Clear.antt =====
-- hev_socks5_authenticator_clear, which hev_socks5_authenticator_destruct calls.
use hev_socks5_core.Base.{ℕ, zero, suc, ◌<◌, ◌≡◌, refl, List, [], ◌∷◌, arith, length}
use hev_socks5_core.Host.{Trace, unreferenced}
use hev_socks5_core.User.{User}
use hev_socks5_core.Authenticator.{Tree, inorder, RbTree, clear_loop}

-- one dropped reference for each user, the last user newest
unfoldable pub drops : List User → Trace → Trace
drops [] trace = trace
drops (u ∷ us) trace = drops us (unreferenced u.id ∷ trace)

module _ (rb : RbTree) where
  clear_list :
      (us : List User) (fuel : ℕ) (t : Tree) (trace : Trace)
      → inorder t ≡ us
      → length us < fuel
      → let (_, t', trace') = clear_loop rb fuel t trace in
        (inorder t' ≡ []) × (trace' ≡ drops us trace)
  unfolding clear_loop drops
  clear_list us zero t trace e h = elim h [ ]
  clear_list [] (suc fuel) t trace e h = rw (rb.first-nil t e, clear_loop) (e, refl)
  clear_list (u ∷ us) (suc fuel) t trace e h =
      rw (rb.first-cons t u us e, clear_loop)
        (clear_list us fuel (rb.erase t u) (unreferenced u.id ∷ trace)
          (rb.inorder-erase t u [] us e tt) (omega arith))

  -- Given a round more than there are users, hev_socks5_authenticator_clear ends with an empty
  -- tree, and drops one reference to each user, from left to right.
  pub clear_lem :
      (fuel : ℕ) (t : Tree) (trace : Trace)
      → length (inorder t) < fuel
      → let (_, t', trace') = clear_loop rb fuel t trace in
        (inorder t' ≡ []) × (trace' ≡ drops (inorder t) trace)
  clear_lem fuel t trace h = clear_list (inorder t) fuel t trace refl h
