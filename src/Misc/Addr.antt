-- ===== src/Misc/Addr.antt =====
-- The addresses of the protocol: struct _HevSocks5Addr as its bytes in memory, and the functions
-- of src/hev-socks5-misc.c that measure, build and translate it without the resolver.
use hev_socks5_core.Base.{
  ℕ, zero, suc, ◌+◌, ◌%◌, Bytes, [], ◌∷◌, ◌++◌, ℤ, pos, minus_one, Bool, ◌==◌, get_or, take,
  replicate, bytes_eq, read_at, write_at, if◌then◌else◌,
}
use hev_socks5_core.Host.{Sockaddr}
use hev_socks5_core.Proto.AddrType
use hev_socks5_core.Proto.Family
use hev_socks5_core.Misc.Bytes16.{host_bytes}

-- `memset (&saddr, 0, sizeof (saddr))`
abbrev pub zero_sockaddr : Sockaddr
zero_sockaddr = record { family = 0; port = 0 ∷ 0 ∷ []; addr = replicate 16 0 }

-- struct _HevSocks5Addr is packed: `atype` is the byte 0; `ipv4.addr` and `ipv6.addr` begin at 1,
-- and the port follows; `domain.len` is the byte 1, and `domain.addr` begins at 2.
abbrev pub Addr : Type 0
Addr = Bytes

abbrev pub atype : Addr → ℕ
atype a = get_or a 0 0

abbrev pub domain_len : Addr → ℕ
domain_len a = get_or a 1 0

-- hev_socks5_addr_len
unfoldable pub addr_len : Addr → ℤ
addr_len a =
    if atype a == AddrType.ipv4
    then pos 7
    else if atype a == AddrType.ipv6
    then pos 19
    else if atype a == AddrType.name
    then pos (4 + domain_len a)
    else minus_one

-- `strlen` of bytes that end in memory at their first 0
unfoldable pub strlen : Bytes → ℕ
strlen [] = 0
strlen (zero ∷ bs) = 0
strlen (suc c ∷ bs) = suc (strlen bs)

-- a string that is handed over as a pointer ends at its first 0
unfoldable pub c_string : Bytes → Bytes
unfolding strlen
c_string bs = take (strlen bs) bs

-- `strncpy (dst, name, n)`: the string, padded with 0
unfoldable pub strncpy : ℕ → Bytes → Bytes
unfolding c_string
strncpy n name = take n (c_string name ++ replicate n 0)

-- hev_socks5_addr_from_name, for the memory `m` of `*addr`: 1 + 1 + 258 bytes. The length is
-- stored in a byte. The port is stored as it is given.
unfoldable pub addr_from_name : Addr → Bytes → ℕ → ℤ × Addr
unfolding strncpy
addr_from_name m name port =
    let m1 = write_at (write_at m 0 (AddrType.name ∷ [])) 2 (strncpy 256 name) in
    let m2 = write_at m1 1 ((strlen (read_at m1 2 258) % 256) ∷ []) in
    let m3 = write_at m2 (2 + domain_len m2) (host_bytes port) in (pos (4 + domain_len m3), m3)

-- hev_socks5_addr_from_ipv4, hev_socks5_addr_from_ipv6: the port is stored as it is given.
unfoldable pub addr_from_ipv4 : Bytes → ℕ → ℤ × Addr
addr_from_ipv4 ipv4 port = (pos 7, AddrType.ipv4 ∷ (take 4 ipv4 ++ host_bytes port))

unfoldable pub addr_from_ipv6 : Bytes → ℕ → ℤ × Addr
addr_from_ipv6 ipv6 port = (pos 19, AddrType.ipv6 ∷ (take 16 ipv6 ++ host_bytes port))

-- IN6_IS_ADDR_V4MAPPED
unfoldable pub is_v4mapped : Bytes → Bool
is_v4mapped a = bytes_eq (take 12 a) (replicate 10 0 ++ (255 ∷ 255 ∷ []))

-- hev_socks5_addr_from_sockaddr6
unfoldable pub addr_from_sockaddr6 : Sockaddr → ℤ × Addr
unfolding is_v4mapped
addr_from_sockaddr6 sa =
    if is_v4mapped sa.addr
    then (pos 7, AddrType.ipv4 ∷ (read_at sa.addr 12 4 ++ sa.port))
    else (pos 19, AddrType.ipv6 ∷ (take 16 sa.addr ++ sa.port))

-- the writes of an IPv4 address into `sin6_addr`: memset of the bytes 0 to 9, 0xff at 10 and 11,
-- and the address at 12
abbrev pub write_mapped : Bytes → Bytes → Bytes
write_mapped m ipv4 =
    write_at (write_at (write_at m 0 (replicate 10 0)) 10 (255 ∷ 255 ∷ [])) 12 ipv4

-- hev_socks5_ipv4_into_sockaddr6, hev_socks5_ipv6_into_sockaddr6
unfoldable pub ipv4_into_sockaddr6 : Addr → Sockaddr → Sockaddr
ipv4_into_sockaddr6 a sa = record {
  family = Family.ipv6;
  port = read_at a 5 2;
  addr = write_mapped sa.addr (read_at a 1 4);
}

unfoldable pub ipv6_into_sockaddr6 : Addr → Sockaddr → Sockaddr
ipv6_into_sockaddr6 a sa = record {
  family = Family.ipv6;
  port = read_at a 17 2;
  addr = write_at sa.addr 0 (read_at a 1 16);
}
