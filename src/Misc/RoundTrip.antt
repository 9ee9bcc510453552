-- ===== src/Misc/RoundTrip.antt =====
-- Addresses as they go from the protocol to a socket and back.
use hev_socks5_core.Base.{
  ℕ, ◌≡◌, refl, ap, false, [], ◌∷◌, ◌++◌, Bytes, pos, arith, length, take, drop, replicate,
  take-append, drop-append, take_all, sym, ◌∙◌, write_at,
}
use mathlib.Core.List.{append-nil}
use hev_socks5_core.Host.{Sockaddr}
use hev_socks5_core.Misc.Addr.{
  is_v4mapped, addr_from_sockaddr6, ipv4_into_sockaddr6, ipv6_into_sockaddr6,
}

-- the memory of a sockaddr before it is written
abbrev pub cleared : Sockaddr
cleared = record { family = 0; port = 0 ∷ 0 ∷ []; addr = replicate 16 0 }

-- An IPv4 address with its port, translated into a cleared sockaddr and back, is itself.
pub ipv4-roundtrip :
    (a b c d p q : ℕ)
    → let bytes = 1 ∷ a ∷ b ∷ c ∷ d ∷ p ∷ q ∷ [] in
      addr_from_sockaddr6 (ipv4_into_sockaddr6 bytes cleared) ≡ (pos 7, bytes)
unfolding addr_from_sockaddr6 ipv4_into_sockaddr6 is_v4mapped
ipv4-roundtrip a b c d p q = refl

-- An IPv6 address of 16 bytes that is not an IPv4-mapped one, with its port of 2 bytes, translated
-- into a cleared sockaddr and back, is itself.
pub ipv6-roundtrip :
    (v port : Bytes)
    → length v ≡ 16
    → length port ≡ 2
    → is_v4mapped v ≡ false
    → addr_from_sockaddr6 (ipv6_into_sockaddr6 (4 ∷ (v ++ port)) cleared)
      ≡ (pos 19, 4 ∷ (v ++ port))
unfolding addr_from_sockaddr6 ipv6_into_sockaddr6
ipv6-roundtrip v port h k plain =
    let front : take 16 (v ++ port) ≡ v =
      ap (λ n. take n (v ++ port)) (sym h) ∙ take-append v port in
    let back : drop 16 (v ++ port) ≡ port =
      ap (λ n. drop n (v ++ port)) (sym h) ∙ drop-append v port in
    let whole : take 2 port ≡ port = take_all port 2 (omega arith) in
    let none_left : write_at cleared.addr 0 v ≡ v = rw (h, append-nil) refl in
    let v16 : take 16 v ≡ v = take_all v 16 (omega arith) in
    rw (front, addr_from_sockaddr6, none_left, plain, back, whole, v16) refl
