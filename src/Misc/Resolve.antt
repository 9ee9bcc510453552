-- ===== src/Misc/Resolve.antt =====
-- The functions of src/hev-socks5-misc.c that turn a name or an address of the protocol into a
-- `struct sockaddr_in6`. What they write through their pointers is returned: the result, then
-- `*saddr` and `*family`. `inet_pton` and `hev_task_dns_getaddrinfo` are the host's.
use hev_socks5_core.Base.{
  ℕ, ◌+◌, Bytes, [], ◌∷◌, ℤ, pos, minus_one, is_pos, Option, none, some, ◌==◌, take, replicate,
  read_at, write_at, if◌then◌else◌,
}
use hev_socks5_core.Host.{Sockaddr, Host, M, pure, ◌>>=◌, getaddrinfo}
use hev_socks5_core.Proto.AddrType
use hev_socks5_core.Proto.Family
use hev_socks5_core.Misc.Bytes16.{htons_bytes, ntohs_bytes}
use hev_socks5_core.Misc.Addr.{
  Addr, atype, domain_len, c_string, write_mapped, ipv4_into_sockaddr6, ipv6_into_sockaddr6,
}

-- the result, `*saddr` and `*family`
abbrev pub Resolved : Type 0
Resolved = ℤ × Sockaddr × ℕ

module _ (host : Host) where
  -- hev_socks5_name_resolve_ipv4: the first ten bytes are cleared before the name is read
  unfoldable pub name_resolve_ipv4 : Bytes → Sockaddr → ℤ × Sockaddr
  name_resolve_ipv4 name sa =
      let cleared = write_at sa.addr 0 (replicate 10 0) in
      elim (host.inet_pton4 name) [
        | none ↦ (minus_one, record sa { addr = cleared })
        | some v ↦
            (pos 0, record sa { addr = write_at (write_at cleared 12 v) 10 (255 ∷ 255 ∷ []) })
      ]

  -- hev_socks5_name_resolve_ipv6
  unfoldable pub name_resolve_ipv6 : Bytes → Sockaddr → ℤ × Sockaddr
  name_resolve_ipv6 name sa = elim (host.inet_pton6 name) [
    | none ↦ (minus_one, sa)
    | some v ↦ (pos 0, record sa { addr = write_at sa.addr 0 v })
  ]

  -- the `switch` over the family of the first answer
  unfoldable pub resolve_answer : Option (ℕ × Bytes) → Sockaddr → ℕ → Resolved
  resolve_answer none sa family = (minus_one, sa, family)
  resolve_answer (some (found, v)) sa family =
      if found == Family.ipv4
      then (pos 0, record sa { addr = write_mapped sa.addr (take 4 v) }, Family.ipv4)
      else if found == Family.ipv6
      then (pos 0, record sa { addr = write_at sa.addr 0 (take 16 v) }, Family.ipv6)
      else (minus_one, sa, family)

  -- hev_socks5_name_resolve_name
  unfoldable pub name_resolve_name : {S : Type 0} → Bytes → Sockaddr → ℕ → M S Resolved
  unfolding resolve_answer
  name_resolve_name name sa family = do
    answer ← getaddrinfo host name family
    pure (resolve_answer answer sa family)

  -- hev_socks5_name_into_sockaddr6
  unfoldable pub name_into_sockaddr6 : {S : Type 0} → Bytes → ℕ → Sockaddr → ℕ → M S Resolved
  unfolding name_resolve_ipv4 name_resolve_ipv6 name_resolve_name
  name_into_sockaddr6 name port sa family =
      let sa0 : Sockaddr = record sa { family = Family.ipv6; port = htons_bytes port } in
      let (res4, sa4) = name_resolve_ipv4 name sa0 in
      let (res6, sa6) = name_resolve_ipv6 name sa4 in
      if is_pos res4 0
      then pure (pos 0, sa4, Family.ipv4)
      else if is_pos res6 0
      then pure (pos 0, sa6, Family.ipv6)
      else name_resolve_name name sa6 family

  -- hev_socks5_addr_into_sockaddr6
  unfoldable pub addr_into_sockaddr6 : {S : Type 0} → Addr → Sockaddr → ℕ → M S Resolved
  unfolding ipv4_into_sockaddr6 ipv6_into_sockaddr6 name_into_sockaddr6 c_string
  addr_into_sockaddr6 a sa family =
      if atype a == AddrType.ipv4
      then pure (pos 0, ipv4_into_sockaddr6 a sa, Family.ipv4)
      else if atype a == AddrType.ipv6
      then pure (pos 0, ipv6_into_sockaddr6 a sa, Family.ipv6)
      else if atype a == AddrType.name
      then name_into_sockaddr6 (c_string (read_at a 2 (domain_len a)))
          (ntohs_bytes (read_at a (2 + domain_len a) 2)) sa family
      else pure (minus_one, sa, family)
