-- ===== src/Misc/Text.antt =====
-- hev_socks5_addr_into_str of src/hev-socks5-misc.c, which formats an address for the log.
use hev_socks5_core.Base.{
  ℕ, ◌+◌, ◌≤◌, ◌<◌, ◌≡◌, refl, sym, ap, ◌∙◌, Option, none, some, ◌∷◌, ◌++◌, Bytes, arith, length,
  take, take_all, drop, get_or, read_at, take-append, drop-append, get_or-take, read_at-take, ◌==◌,
  if◌then◌else◌,
}
use hev_socks5_core.Proto.AddrType
use hev_socks5_core.Misc.Addr.{Addr, atype, domain_len, strlen, c_string, addr_from_name}
use hev_socks5_core.Misc.Bytes16.{ntohs_bytes, host_bytes}
use hev_socks5_core.Misc.Name.{addr_from_name-Encodes}

-- inet_ntop for both families, and snprintf with "[%s]:%u": what it writes into a buffer of that
-- size for a string and a number
pub record Format : Type 0 where
  pub inet_ntop4 : Bytes → Bytes
  pub inet_ntop6 : Bytes → Bytes
  pub snprintf : ℕ → Bytes → ℕ → Bytes

-- hev_socks5_addr_into_str; a string ends at its first 0
unfoldable pub addr_into_str : Format → Addr → ℕ → Option Bytes
addr_into_str f a len =
    if atype a == AddrType.ipv4
    then some (f.snprintf len (f.inet_ntop4 (read_at a 1 4)) (ntohs_bytes (read_at a 5 2)))
    else if atype a == AddrType.ipv6
    then some (f.snprintf len (f.inet_ntop6 (read_at a 1 16)) (ntohs_bytes (read_at a 17 2)))
    else if atype a == AddrType.name
    then some (
        f.snprintf len (c_string (read_at a 2 (domain_len a)))
          (ntohs_bytes (read_at a (2 + domain_len a) 2)))
    else none

-- An address that hev_socks5_addr_from_name makes of a name of less than 256 bytes without a 0, in
-- memory of at least 260 bytes, is formatted with that name; the number of the port is that of its two
-- bytes in the order of the network.
pub addr_into_str-addr_from_name :
    (f : Format) (m name : Bytes) (port len : ℕ)
    → 260 ≤ length m
    → strlen name ≡ length name
    → length name < 256
    → addr_into_str f (addr_from_name m name port).1 len
      ≡ some (f.snprintf len name (ntohs_bytes (host_bytes port)))
unfolding addr_into_str c_string
addr_into_str-addr_from_name f m name port len l e h =
    let a = (addr_from_name m name port).1 in
    let n = length name in
    let F = 3 ∷ n ∷ (name ++ host_bytes port) in
    let (_, front, _) = addr_from_name-Encodes m name port l e h in
    let ty : atype a ≡ 3 =
      sym (get_or-take (4 + n) 0 a (omega arith)) ∙ ap (λ b. get_or b 0 0) front in
    let d : domain_len a ≡ n =
      sym (get_or-take (4 + n) 1 a (omega arith)) ∙ ap (λ b. get_or b 1 0) front in
    let r : read_at a 2 n ≡ name =
      sym (read_at-take (4 + n) 2 n a (omega arith))
      ∙ ap (λ b. read_at b 2 n) front
      ∙ take-append name (host_bytes port) in
    let two : 2 + n ≡ length (3 ∷ n ∷ name) = omega arith in
    let p : read_at a (2 + n) 2 ≡ host_bytes port =
      sym (read_at-take (4 + n) (2 + n) 2 a (omega arith))
      ∙ ap (λ b. read_at b (2 + n) 2) front
      ∙ ap (λ k. take 2 (drop k F)) two
      ∙ ap (take 2) (drop-append (3 ∷ n ∷ name) (host_bytes port)) in
    let c : take (strlen name) name ≡ name =
      ap (λ k. take k name) e ∙ take_all name n (omega arith) in
    rw (addr_into_str, ty, d, r, p, c) refl
