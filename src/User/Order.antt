-- ===== src/User/Order.antt =====
-- The comparison of names in hev-socks5-authenticator.c is a total order.
use Prim.Native.Nat.Ordering.{lt, eq, gt}
use hev_socks5_core.Base.{Bytes, [], ◌∷◌, ◌≡◌, refl, length, arith}
use hev_socks5_core.User.{memcmp, compare_names}

memcmp_refl : (a : Bytes) → memcmp a a ≡ eq
unfolding memcmp
memcmp_refl [] = refl
memcmp_refl (x ∷ xs) = ground (arith, memcmp_refl xs)

eq_of_memcmp : (a b : Bytes) → length a ≡ length b → memcmp a b ≡ eq → a ≡ b
unfolding memcmp
eq_of_memcmp [] [] h e = refl
eq_of_memcmp [] (y ∷ b) h e = ground arith
eq_of_memcmp (x ∷ a) [] h e = ground arith
eq_of_memcmp (x ∷ a) (y ∷ b) h e = ground (arith, eq_of_memcmp a b)

lt_of_memcmp-gt : (a b : Bytes) → length a ≡ length b → memcmp a b ≡ gt → memcmp b a ≡ lt
unfolding memcmp
lt_of_memcmp-gt [] b h e = ground arith
lt_of_memcmp-gt (x ∷ a) [] h e = ground arith
lt_of_memcmp-gt (x ∷ a) (y ∷ b) h e = ground (arith, lt_of_memcmp-gt a b)

gt_of_memcmp-lt : (a b : Bytes) → length a ≡ length b → memcmp a b ≡ lt → memcmp b a ≡ gt
unfolding memcmp
gt_of_memcmp-lt [] b h e = ground arith
gt_of_memcmp-lt (x ∷ a) [] h e = ground arith
gt_of_memcmp-lt (x ∷ a) (y ∷ b) h e = ground (arith, gt_of_memcmp-lt a b)

memcmp-gt_trans :
    (a b c : Bytes)
    → length a ≡ length b
    → length b ≡ length c
    → memcmp a b ≡ gt
    → memcmp b c ≡ gt
    → memcmp a c ≡ gt
unfolding memcmp
memcmp-gt_trans [] b c h k d e = ground arith
memcmp-gt_trans (x ∷ a) [] c h k d e = ground arith
memcmp-gt_trans (x ∷ a) (y ∷ b) [] h k d e = ground arith
memcmp-gt_trans (x ∷ a) (y ∷ b) (z ∷ c) h k d e = ground (arith, memcmp-gt_trans a b c)

pub compare_names_refl : (a : Bytes) → compare_names a a ≡ eq
unfolding compare_names
compare_names_refl a = ground (arith, memcmp_refl a)

pub eq_of_compare_names : (a b : Bytes) → compare_names a b ≡ eq → a ≡ b
unfolding compare_names
eq_of_compare_names a b e = eq_of_memcmp a b (ground arith) (ground arith)

pub lt_of_gt : (a b : Bytes) → compare_names a b ≡ gt → compare_names b a ≡ lt
unfolding compare_names
lt_of_gt a b e = ground (arith, lt_of_memcmp-gt a b)

pub gt_of_lt : (a b : Bytes) → compare_names a b ≡ lt → compare_names b a ≡ gt
unfolding compare_names
gt_of_lt a b e = ground (arith, gt_of_memcmp-lt a b)

pub gt_trans :
    (a b c : Bytes) → compare_names a b ≡ gt → compare_names b c ≡ gt → compare_names a c ≡ gt
unfolding compare_names
gt_trans a b c d e = ground (arith, memcmp-gt_trans a b c)
