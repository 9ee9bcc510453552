-- ===== src/Tests/Names.antt =====
-- A TCP client for a name, and the address that it holds.
use hev_socks5_core.Base.{
  ◌≡◌, refl, true, some, [], ◌∷◌, ◌++◌, Bytes, pos, arith, length, take, replicate,
}
use hev_socks5_core.Host.{allocated}
use hev_socks5_core.Misc.Addr.{strlen, addr_from_name}
use hev_socks5_core.Misc.Bytes16.{host_bytes, ntohs_bytes}
use hev_socks5_core.Misc.Text.{Format, addr_into_str, addr_into_str-addr_from_name}
use hev_socks5_core.Client.New.{tcp_new_name}
use hev_socks5_core.Client.Created.{asks_for, tcp_new_name-made}
use hev_socks5_core.Tests.Worlds.{calm}

abbrev host_name : Bytes
host_name = 97 ∷ 46 ∷ 98 ∷ []

abbrev stack : Bytes
stack = replicate 260 7

host_name-strlen : strlen host_name ≡ length host_name
unfolding strlen
host_name-strlen = refl

tcp_new_name-made_example : tcp_new_name (calm []) 64 (pos 0) stack host_name 443 [] ≡ (
  some (asks_for (3 ∷ length host_name ∷ (host_name ++ host_bytes 443))),
  allocated 7 true ∷ allocated 64 true ∷ [],
)
tcp_new_name-made_example =
    tcp_new_name-made (calm []) 64 (pos 0) stack host_name 443 [] (λ t k. refl) refl (omega arith)
      host_name-strlen (omega arith)

-- the string with the number behind it
abbrev plain : Format
plain = record {
  inet_ntop4 = λ b. b;
  inet_ntop6 = λ b. b;
  snprintf = λ len s port. take len (s ++ (port ∷ []));
}

addr_into_str-addr_from_name_example :
    addr_into_str plain (addr_from_name stack host_name 443).1 64
    ≡ some (plain.snprintf 64 host_name (ntohs_bytes (host_bytes 443)))
addr_into_str-addr_from_name_example =
    addr_into_str-addr_from_name plain stack host_name 443 64 (omega arith) host_name-strlen
      (omega arith)
