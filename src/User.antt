-- ===== src/User.antt =====
-- src/hev-socks5-user.c: a name with its password, and the order of names in which the
-- authenticator searches.
pub mod Order
pub mod Check
pub mod Memory
use Prim.Native.Nat.{compare, Ordering}
use Prim.Native.Nat.Ordering.{lt, eq, gt}
use hev_socks5_core.Base.{
  ℕ, ◌+◌, Bytes, [], ◌∷◌, ℤ, pos, minus_one, is_neg, not, Option, none, some, length, take,
  bytes_eq, ◌==◌, if◌then◌else◌,
}
use hev_socks5_core.Host.{Host, M, pure, ◌>>=◌, ◌>>◌, malloc, emit, allocated, freed, Trace}

-- `id` is the address of the object. The lengths are those of the two blocks, less the 0 that
-- hev_socks5_user_construct puts behind each.
pub record User : Type 0 where
  pub id : ℕ
  pub name : Bytes
  pub pass : Bytes

-- memcmp of two blocks of one length, its sign
unfoldable pub memcmp : Bytes → Bytes → Ordering
memcmp [] bs = eq
memcmp (a ∷ as_) [] = eq
memcmp (a ∷ as_) (b ∷ bs) = elim (compare a b) [ lt ↦ lt | eq ↦ memcmp as_ bs | gt ↦ gt ]

-- the sign of `res`, in the three searches of hev-socks5-authenticator.c: shorter names first
unfoldable pub compare_names : Bytes → Bytes → Ordering
unfolding memcmp
compare_names this name = elim (compare (length this) (length name)) [
  | lt ↦ lt
  | gt ↦ gt
  | eq ↦ memcmp this name
]

-- hev_socks5_user_checker
unfoldable pub checker : User → Bytes → ℤ
checker u pass =
    if not (length u.pass == length pass)
    then minus_one
    else if not (bytes_eq u.pass pass)
    then minus_one
    else pos 0

-- hev_socks5_user_check, for an object of the class as it is installed
unfoldable pub check : User → Bytes → ℤ
unfolding checker
check u pass = checker u pass

-- hev_socks5_user_construct: the object is `self`
unfoldable pub construct : Host → ℤ → Bytes → Bytes → M User ℤ
construct host base_res name pass = if is_neg base_res then pure base_res else do
  got_name ← malloc host (length name + 1)
  if not got_name then pure minus_one else do
    got_pass ← malloc host (length pass + 1)
    if not got_pass then (do emit freed; pure minus_one) else λ u t.
        (pos 0, record u { name = name; pass = pass }, t)

-- hev_socks5_user_new: the object has `size` bytes and the address `id`, and `base_res` is the result
-- of hev_object_atomic_construct
unfoldable pub user_new : Host → ℕ → ℕ → ℤ → Bytes → Bytes → Trace → Option User × Trace
user_new host size id base_res name pass t =
    let granted = host.on_malloc t size in
    let cleared : User = record { id = id; name = []; pass = [] } in
    let (res, u, t') = construct host base_res name pass cleared (allocated size granted ∷ t) in
    if not granted
    then (none, allocated size granted ∷ t)
    else if is_neg res
    then (none, freed ∷ t')
    else (some u, t')

-- hev_socks5_user_destruct
unfoldable pub destruct : M User (Unit {0})
destruct = do emit freed; emit freed; emit freed
