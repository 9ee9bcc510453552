-- ===== src/Udp/Literal.antt =====
-- An address in memory that is no name, as the address of a socket.
use hev_socks5_core.Base.{
  get_or-take, read_at-take, ℕ, ◌+◌, ◌≤◌, ◌<◌, ◌≡◌, ◌⊎◌, refl, sym, ap, ◌∙◌, pos, arith, inl, inr,
  Bytes, take, get_or, read_at, ◌==◌, if◌then◌else◌,
}
use hev_socks5_core.Host.{Host, Trace, Sockaddr}
use hev_socks5_core.Misc.Addr.{
  Addr, atype, addr_len, zero_sockaddr, ipv4_into_sockaddr6, ipv6_into_sockaddr6,
}
use hev_socks5_core.Misc.Resolve.{addr_into_sockaddr6}
use hev_socks5_core.Socks5.{Socks5}

-- the address of a socket for an address that is no name
abbrev pub literal : Addr → Sockaddr
literal a =
    if atype a == 1
    then ipv4_into_sockaddr6 a zero_sockaddr
    else ipv6_into_sockaddr6 a zero_sockaddr

same_get : (n i : ℕ) (x y : Bytes) → take n x ≡ take n y → i < n → get_or x i 0 ≡ get_or y i 0
same_get n i x y e h = sym (get_or-take n i x h) ∙ ap (λ b. get_or b i 0) e ∙ get_or-take n i y h

same_read :
    (n i k : ℕ) (x y : Bytes) → take n x ≡ take n y → i + k ≤ n → read_at x i k ≡ read_at y i k
same_read n i k x y e h =
    sym (read_at-take n i k x h) ∙ ap (λ b. read_at b i k) e ∙ read_at-take n i k y h

ipv4_front :
    (x y : Bytes)
    → take 7 x ≡ take 7 y
    → ipv4_into_sockaddr6 x zero_sockaddr ≡ ipv4_into_sockaddr6 y zero_sockaddr
unfolding ipv4_into_sockaddr6
ipv4_front x y e =
    let p = same_read 7 5 2 x y e (omega arith) in
    let q = same_read 7 1 4 x y e (omega arith) in rw (p, q) refl

ipv6_front :
    (x y : Bytes)
    → take 19 x ≡ take 19 y
    → ipv6_into_sockaddr6 x zero_sockaddr ≡ ipv6_into_sockaddr6 y zero_sockaddr
unfolding ipv6_into_sockaddr6
ipv6_front x y e =
    let p = same_read 19 17 2 x y e (omega arith) in
    let q = same_read 19 1 16 x y e (omega arith) in rw (p, q) refl

addr_len-ipv4 : (y : Addr) → atype y ≡ 1 → addr_len y ≡ pos 7
unfolding addr_len
addr_len-ipv4 y h = rw h refl

addr_len-ipv6 : (y : Addr) → atype y ≡ 4 → addr_len y ≡ pos 19
unfolding addr_len
addr_len-ipv6 y h = rw h refl

-- an IPv4 or an IPv6 address
abbrev pub IsLiteral : Addr → Type 0
IsLiteral a = (atype a ≡ 1) ⊎ (atype a ≡ 4)

module _ (host : Host) (o : Socks5) (t : Trace) where
  pub addr_into_sockaddr6-front :
      (x y : Addr) (n family : ℕ)
      → IsLiteral y
      → addr_len y ≡ pos n
      → take n x ≡ take n y
      → (found : ℕ) × (addr_into_sockaddr6 host x zero_sockaddr family o t
          ≡ ((pos 0, literal y, found), o, t))
  unfolding addr_into_sockaddr6
  addr_into_sockaddr6-front x y n family (inl v) l e =
      let n7 : n ≡ 7 = ground (arith, addr_len-ipv4 y v) in
      let e7 : take 7 x ≡ take 7 y = rw n7 at e in
      let k : atype x ≡ 1 = same_get 7 0 x y e7 (omega arith) ∙ v in
      let s = ipv4_front x y e7 in (2, (rw (addr_into_sockaddr6, k, v, s) refl))
  addr_into_sockaddr6-front x y n family (inr v) l e =
      let n19 : n ≡ 19 = ground (arith, addr_len-ipv6 y v) in
      let e19 : take 19 x ≡ take 19 y = rw n19 at e in
      let k : atype x ≡ 4 = same_get 19 0 x y e19 (omega arith) ∙ v in
      let s = ipv6_front x y e19 in (10, (rw (addr_into_sockaddr6, k, v, s) refl))
