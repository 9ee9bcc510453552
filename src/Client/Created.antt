-- ===== src/Client/Created.antt =====
-- What hev_socks5_client_tcp_new_name makes.
use hev_socks5_core.Base.{
  ℕ, ◌+◌, ◌≤◌, ◌<◌, ◌≡◌, refl, ap, ◌∙◌, true, false, none, some, ◌∷◌, ◌++◌, Bytes, ℤ, pos,
  minus_one, length, take, is_neg,
}
use hev_socks5_core.Host.{Host, Trace, allocated}
use hev_socks5_core.Proto.Family
use hev_socks5_core.Misc.Addr.{Addr, addr_len, strlen, addr_from_name}
use hev_socks5_core.Misc.Bytes16.{host_bytes}
use hev_socks5_core.Misc.Name.{addr_from_name-Encodes}
use hev_socks5_core.Socks5
use hev_socks5_core.Socks5.{Socks5, tcp}
use hev_socks5_core.Client.Defs.{Client, tcp_client, construct, allocate, copied, tcp_construct}
use hev_socks5_core.Client.New.{tcp_new, tcp_new_name}

-- a TCP client that is not connected and asks for the address a
abbrev pub asks_for : Addr → Client
asks_for a = record {
  base = record {
    fd = minus_one;
    timeout = minus_one;
    kind = tcp;
    udp_associated = false;
    addr_family = Family.unspec;
  };
  auth_user = none;
  auth_pass = none;
  variant = tcp_client (some a);
}

tcp_new-made :
    (host : Host) (size : ℕ) (base_res : ℤ) (a : Addr) (n : ℕ) (t : Trace)
    → ((t' : Trace) (k : ℕ) → host.on_malloc t' k ≡ true)
    → is_neg base_res ≡ false
    → addr_len a ≡ pos n
    → tcp_new host size base_res a t
      ≡ (some (asks_for (take n a)), allocated n true ∷ allocated size true ∷ t)
unfolding tcp_new tcp_construct construct Socks5.construct allocate copied
tcp_new-made host size base_res a n t m b l =
    rw (m t size, b, l, m (allocated size true ∷ t) n) refl

-- Where each allocation is granted and the base object is made, hev_socks5_client_tcp_new_name with a
-- name of less than 256 characters makes a client that holds the address of type 3 with this name and
-- the port, and nothing else; it has made two allocations.
pub tcp_new_name-made :
    (host : Host) (size : ℕ) (base_res : ℤ) (stack name : Bytes) (port : ℕ) (t : Trace)
    → ((t' : Trace) (k : ℕ) → host.on_malloc t' k ≡ true)
    → is_neg base_res ≡ false
    → 260 ≤ length stack
    → strlen name ≡ length name
    → length name < 256
    → tcp_new_name host size base_res stack name port t ≡ (
      some (asks_for (3 ∷ length name ∷ (name ++ host_bytes port))),
      allocated (4 + length name) true ∷ allocated size true ∷ t,
    )
unfolding tcp_new_name
tcp_new_name-made host size base_res stack name port t m b l e h =
    let (r, a) = addr_from_name stack name port in
    let (res, front, len) = addr_from_name-Encodes stack name port l e h in
    tcp_new-made host size base_res a (4 + length name) t m b (len ∙ res)
    ∙ ap (λ x. (some (asks_for x), allocated (4 + length name) true ∷ allocated size true ∷ t))
        front
