-- ===== src/Misc/Answer.antt =====
-- What hev_socks5_name_into_sockaddr6 returns.
use hev_socks5_core.Base.{
  ℕ, zero, suc, ◌+◌, ◌≤◌, ◌≡◌, refl, ap, ◌∙◌, Bytes, [], ◌∷◌, ◌++◌, pos, minus_one, inl, inr, arith,
  Bool-cases, Option-cases, write_at, drop, take_all, length, length-drop, length-write_at, ◌⊎◌,
  append_nil, replicate, Option, none, some, ◌==◌, if◌then◌else◌,
}
use hev_socks5_core.Host.{Host, Sockaddr, Trace}
use hev_socks5_core.Misc.Bytes16.{htons_bytes}
use hev_socks5_core.Misc.Resolve.{
  Resolved, name_resolve_ipv4, name_resolve_ipv6, resolve_answer, name_resolve_name,
  name_into_sockaddr6,
}

-- What a name stands for.
pub data Meaning : Type 0 where
  ipv4 ipv6 : Bytes → Meaning
  nothing : Meaning

-- `::ffff:a.b.c.d`
abbrev pub mapped : Bytes → Bytes
mapped v = 0 ∷ 0 ∷ 0 ∷ 0 ∷ 0 ∷ 0 ∷ 0 ∷ 0 ∷ 0 ∷ 0 ∷ 255 ∷ 255 ∷ v

-- the result, the address of the socket and the family, where `family` was asked for
abbrev pub IsAnswer : Meaning → ℕ → ℕ → Resolved → Type 0
IsAnswer (ipv4 v) port family (res, sa, found) =
    (res ≡ pos 0)
    × (sa ≡ record { family = 10; port = htons_bytes port; addr = mapped v })
    × (found ≡ 2)
IsAnswer (ipv6 v) port family (res, sa, found) =
    (res ≡ pos 0) × (sa ≡ record { family = 10; port = htons_bytes port; addr = v }) × (found ≡ 10)
IsAnswer nothing port family (res, sa, found) =
    (res ≡ minus_one) × (sa.family ≡ 10) × (sa.port ≡ htons_bytes port) × (found ≡ family)

abbrev pub Sized : ℕ → Option Bytes → Type 0
Sized n none = Unit {0}
Sized n (some v) = length v ≡ n

-- an answer of the resolver has the size of its family
abbrev pub SizedAnswer : Option (ℕ × Bytes) → Type 0
SizedAnswer none = Unit {0}
SizedAnswer (some (found, v)) = (found ≡ 2 → length v ≡ 4) × (found ≡ 10 → length v ≡ 16)

-- an answer of another family stands for nothing
abbrev pub looked_up : Option (ℕ × Bytes) → Meaning
looked_up none = nothing
looked_up (some (found, v)) = if found == 2 then ipv4 v else if found == 10 then ipv6 v else nothing

-- a literal is preferred, and an IPv4 literal to an IPv6 one
abbrev pub meaning : Option Bytes → Option Bytes → Option (ℕ × Bytes) → Meaning
meaning (some v) literal6 answer = ipv4 v
meaning none (some v) answer = ipv6 v
meaning none none answer = looked_up answer

drop_all : (n : ℕ) (xs : Bytes) → length xs ≤ n → drop n xs ≡ []
drop_all zero [] h = refl
drop_all zero (x ∷ xs) h = absurd (omega arith)
drop_all (suc n) [] h = refl
drop_all (suc n) (x ∷ xs) h = drop_all n xs (omega arith)

-- memory that is written as a whole
written : (m v : Bytes) → length m ≡ 16 → length v ≡ 16 → write_at m 0 v ≡ v
written m v h k = ap (λ b. v ++ b) (drop_all (0 + length v) m (omega arith)) ∙ append_nil v

abbrev clear10 : Bytes → Bytes
clear10 m = write_at m 0 (replicate 10 0)

tail6 :
    (r v : Bytes)
    → length r ≡ 6
    → length v ≡ 4
    → (write_at (write_at (replicate 10 0 ++ r) 12 v) 10 (255 ∷ 255 ∷ []) ≡ mapped v)
      × (write_at (write_at (replicate 10 0 ++ r) 10 (255 ∷ 255 ∷ [])) 12 v ≡ mapped v)
tail6 [] v h k = absurd (omega arith)
tail6 (x ∷ []) v h k = absurd (omega arith)
tail6 (x ∷ y ∷ s) v h k =
    let front : Bytes = replicate 10 0 in
    let gone = drop_all (12 + length v) (front ++ (x ∷ y ∷ s)) (omega arith) in
    let gone' = drop_all (12 + length v) (front ++ (255 ∷ 255 ∷ s)) (omega arith) in
    (
      ap (λ b. mapped (v ++ b)) gone ∙ ap mapped (append_nil v),
      ap (λ b. mapped (v ++ b)) gone' ∙ ap mapped (append_nil v),
    )

-- both orders in which an IPv4 address is written
mapped_over :
    (m v : Bytes)
    → length m ≡ 16
    → length v ≡ 4
    → (write_at (write_at (clear10 m) 12 v) 10 (255 ∷ 255 ∷ []) ≡ mapped v)
      × (write_at (write_at (clear10 m) 10 (255 ∷ 255 ∷ [])) 12 v ≡ mapped v)
mapped_over m v h k = tail6 (drop 10 m) v (omega (arith, length-drop 10 m (omega arith))) k

module _ (host : Host) (port family : ℕ) where
  abbrev cleared_sa : Bytes → Sockaddr
  cleared_sa m = record { family = 10; port = htons_bytes port; addr = m }

  resolve_answer-IsAnswer :
      (answer : Option (ℕ × Bytes)) (m : Bytes)
      → length m ≡ 16
      → SizedAnswer answer
      → IsAnswer (looked_up answer) port family (resolve_answer host answer (cleared_sa m) family)
  unfolding resolve_answer
  resolve_answer-IsAnswer none m h sized = (refl, refl, refl, refl)
  resolve_answer-IsAnswer (some (found, v)) m h (four, sixteen) = elim (Bool-cases (found == 2)) [
    | inl x ↦
        let k : length v ≡ 4 = four (ground arith) in
        let (_, over) = mapped_over m v h k in
        let all = take_all v 4 (omega arith) in rw (x, resolve_answer, all, over) (refl, refl, refl)
    | inr x ↦ elim (Bool-cases (found == 10)) [
      | inl y ↦
          let k : length v ≡ 16 = sixteen (ground arith) in
          let all = take_all v 16 (omega arith) in
          rw (x, resolve_answer, y, all, written m v h k) (refl, refl, refl)
      | inr y ↦ rw (x, resolve_answer, y) (refl, refl, refl, refl)
    ]
  ]

module _ {S : Type 0} (host : Host) (name : Bytes) (port : ℕ) (sa : Sockaddr) (family : ℕ) (s : S)
    (t : Trace) where
  -- The memory of the address, an IPv6 literal and an IPv6 answer of the resolver have 16 bytes, an
  -- IPv4 literal and an IPv4 answer 4. hev_socks5_name_into_sockaddr6 leaves the object as it is.
  -- Where the name is an IPv4 literal, or it is no literal and the resolver answers with an IPv4
  -- address, it returns 0 with AF_INET and the IPv6 address that this address is mapped to; where
  -- it is another literal, or the resolver answers with an IPv6 address, 0 with AF_INET6 and that
  -- address; otherwise -1 with the family that was asked for. It writes AF_INET6 and the port that
  -- was asked for; a literal is never looked up.
  pub name_into_sockaddr6-IsAnswer :
      length sa.addr ≡ 16
      → Sized 4 (host.inet_pton4 name)
      → Sized 16 (host.inet_pton6 name)
      → SizedAnswer (host.on_getaddrinfo t name family)
      → let answer = host.on_getaddrinfo t name family in
        let (res, s', t') = name_into_sockaddr6 host name port sa family s t in
        (s' ≡ s)
        × IsAnswer (meaning (host.inet_pton4 name) (host.inet_pton6 name) answer) port family res
        × ((t' ≡ t) ⊎ ((host.inet_pton4 name ≡ none) × (host.inet_pton6 name ≡ none)))
  unfolding name_into_sockaddr6 name_resolve_ipv4 name_resolve_ipv6 name_resolve_name
  name_into_sockaddr6-IsAnswer h four sixteen sized =
      let m = clear10 sa.addr in
      let l : length m ≡ 16 = length-write_at sa.addr 0 (replicate 10 0) (omega arith) ∙ h in
      elim (Option-cases (host.inet_pton4 name)) [
        | inl e ↦ elim (Option-cases (host.inet_pton6 name)) [
          | inl f ↦
              let answer = host.on_getaddrinfo t name family in
              rw (e, f, name_into_sockaddr6, name_resolve_ipv4, name_resolve_ipv6, e)
                (refl, resolve_answer-IsAnswer host port family answer m l sized, inr (refl, refl))
          | inr (v, f) ↦
              let k : length v ≡ 16 = rw f at sixteen in
              let w = written m v l k in
              rw (e, f, name_into_sockaddr6, name_resolve_ipv4, name_resolve_ipv6, e, w)
                (refl, (refl, refl, refl), inl refl)
        ]
        | inr (v, e) ↦
            let k : length v ≡ 4 = rw e at four in
            let (over, _) = mapped_over sa.addr v h k in
            rw (e, name_into_sockaddr6, name_resolve_ipv4, over)
              (refl, (refl, refl, refl), inl refl)
      ]
