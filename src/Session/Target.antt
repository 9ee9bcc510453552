-- ===== src/Session/Target.antt =====
-- The literal addresses that a client asks for, as the client writes them and as the server reads
-- them.
use hev_socks5_core.Base.{
  ℕ, ◌≡◌, refl, false, some, Bytes, [], ◌∷◌, ◌++◌, pos, arith, length, length-append,
}
use hev_socks5_core.Host.{Host, Trace, Sockaddr}
use hev_socks5_core.Misc.Addr.{
  Addr, is_v4mapped, addr_from_sockaddr6, ipv4_into_sockaddr6, ipv6_into_sockaddr6,
}
use hev_socks5_core.Misc.Resolve.{addr_into_sockaddr6}
use hev_socks5_core.Misc.RoundTrip.{cleared, ipv4-roundtrip, ipv6-roundtrip}
use hev_socks5_core.Server.Defs.{Server}
use hev_socks5_core.Server.Request.{rest_len}
use hev_socks5_core.Client.Messages.{sent_len, response_len}

-- an IPv4 address of four bytes or an IPv6 address, with its port in the order of the network
pub data Target : Type 0 where
  target4 : (a b c d p q : ℕ) → Target
  target6 : (a b : ℕ) (v port : Bytes) → Target

-- the address of the protocol
abbrev pub bytes_of : Target → Addr
bytes_of (target4 a b c d p q) = 1 ∷ a ∷ b ∷ c ∷ d ∷ p ∷ q ∷ []
bytes_of (target6 a b v port) = 4 ∷ a ∷ b ∷ (v ++ port)

-- the address of the socket
abbrev pub sockaddr_of : Target → Sockaddr
sockaddr_of (target4 a b c d p q) = ipv4_into_sockaddr6 (1 ∷ a ∷ b ∷ c ∷ d ∷ p ∷ q ∷ []) cleared
sockaddr_of (target6 a b v port) = ipv6_into_sockaddr6 (4 ∷ a ∷ b ∷ (v ++ port)) cleared

-- an IPv6 address has 16 bytes and a port of two, and is no IPv4 address that is mapped
abbrev pub IsPlain : Target → Type 0
IsPlain (target4 a b c d p q) = Unit {0}
IsPlain (target6 a b v port) =
    (length v ≡ 14) × (length port ≡ 2) × (is_v4mapped (a ∷ b ∷ v) ≡ false)

-- What both sides make of an address.
pub record Shape (a : Addr) (sa : Sockaddr) : Type 0 where
  pub ty : ℕ
  pub len : ℕ
  pub more : Bytes
  pub form : a ≡ ty ∷ len ∷ more
  pub counted : rest_len ty len ≡ some (length more)
  pub written : sent_len a ≡ some (length a)
  pub answered : response_len ty ≡ some (length (len ∷ more))
  pub back : addr_from_sockaddr6 sa ≡ (pos (length a), a)

length6 : (a b : ℕ) (v port : Bytes) → length v ≡ 14 → length port ≡ 2 → length (v ++ port) ≡ 16
length6 a b v port h k = omega (arith, length-append v port)

pub target-Shape : (x : Target) → IsPlain x → Shape (bytes_of x) (sockaddr_of x)
unfolding rest_len sent_len response_len
target-Shape (target4 a b c d p q) h = record {
  ty = 1;
  len = a;
  more = b ∷ c ∷ d ∷ p ∷ q ∷ [];
  form = refl;
  counted = refl;
  written = refl;
  answered = refl;
  back = ipv4-roundtrip a b c d p q;
}
target-Shape (target6 a b v port) (h, k, plain) =
    let l = length6 a b v port h k in
    let l16 : length (a ∷ b ∷ v) ≡ 16 = omega arith in
    record {
      ty = 4;
      len = a;
      more = b ∷ (v ++ port);
      form = refl;
      counted = rw l refl;
      written = rw l refl;
      answered = rw l refl;
      back = rw l (ipv6-roundtrip (a ∷ b ∷ v) port l16 k plain);
    }

module _ (host : Host) (s : Server) (t : Trace) where
  pub addr_into_sockaddr6-target :
      (x : Target) (family : ℕ)
      → (found : ℕ) × (addr_into_sockaddr6 host (bytes_of x) cleared family s t
          ≡ ((pos 0, sockaddr_of x, found), s, t))
  unfolding addr_into_sockaddr6
  addr_into_sockaddr6-target (target4 a b c d p q) family = (2, refl)
  addr_into_sockaddr6-target (target6 a b v port) family = (10, refl)
