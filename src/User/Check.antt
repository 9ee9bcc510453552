-- ===== src/User/Check.antt =====
-- What the check of a password accepts.
use hev_socks5_core.Base.{
  ◌≡◌, ◌↔◌, false, Bytes, ap, is_neg, arith, length, bytes_eq, bytes_eq_refl, eq_of_bytes_eq,
}
use hev_socks5_core.User.{User, check}

-- hev_socks5_user_check succeeds exactly for the password of the user.
pub check_iff : (u : User) (pass : Bytes) → (is_neg (check u pass) ≡ false) ↔ (u.pass ≡ pass)
unfolding check
check_iff u pass = (
  λ h. eq_of_bytes_eq u.pass pass (ground arith),
  λ e. ground (arith, bytes_eq_refl pass, ap length e, ap (λ (p : Bytes). bytes_eq p pass) e),
)
