-- ===== src/User/Memory.antt =====
-- The memory of a user, from hev_socks5_user_new to its destruction.
use hev_socks5_core.Base.{
  ℕ, ◌+◌, ◌≡◌, ◌⊎◌, refl, true, Bool-cases, inl, inr, none, some, ◌∷◌, Bytes, ℤ, is_neg, length,
  arith,
}
use hev_socks5_core.Host.{Host, Trace, allocated}
use hev_socks5_core.Sockets.{grants, frees}
use hev_socks5_core.User.{User, construct, user_new, destruct}

-- hev_socks5_user_new either returns no user and has given back all memory that it was granted, or
-- returns one with the name and the password, and the destruction of this user gives all of it back.
pub user_new-destruct :
    (host : Host) (size id : ℕ) (base_res : ℤ) (name pass : Bytes) (t : Trace)
    → let (made, t1) = user_new host size id base_res name pass t in
      ((made ≡ none) × (grants t1 + frees t ≡ grants t + frees t1))
      ⊎ ((u : User) × (made ≡ some u)
          × (u.name ≡ name)
          × (u.pass ≡ pass)
          × (grants (destruct u t1).2 + frees t ≡ grants t + frees (destruct u t1).2))
unfolding user_new construct destruct grants frees
user_new-destruct host size id base_res name pass t =
    let t0 : Trace = allocated size true ∷ t in
    let n = length name + 1 in
    let t1 : Trace = allocated n true ∷ t0 in
    elim (Bool-cases (host.on_malloc t size)) [
      | inr g ↦ rw (user_new, g) (inl (refl, omega arith))
      | inl g ↦ elim (Bool-cases (is_neg base_res)) [
        | inl b ↦ rw (user_new, g, construct, b, b) (inl (refl, omega arith))
        | inr b ↦ elim (Bool-cases (host.on_malloc t0 n)) [
          | inr x ↦ rw (user_new, g, construct, b, x) (inl (refl, omega arith))
          | inl x ↦ elim (Bool-cases (host.on_malloc t1 (length pass + 1))) [
            | inr y ↦ rw (user_new, g, construct, b, x, y) (inl (refl, omega arith))
            | inl y ↦ rw (user_new, g, construct, b, x, y) (inr (_, refl, refl, refl, omega arith))
          ]
        ]
      ]
    ]
