-- ===== src/Wire.antt =====
-- What a trace says about the byte streams of its connections, and what it means that a connection
-- delivers a stream in order.
use hev_socks5_core.Base.{
  ◌⊎◌, inl, inr, ℕ, zero, suc, ◌+◌, ◌≡◌, refl, ◌∙◌, ap, sym, Bool, true, false, [], ◌∷◌, ◌++◌,
  Bytes, ℤ, pos, negsuc, arith, ◌==◌, length, take, drop, take-append, drop-append, ==_refl,
  if◌then◌else◌,
}
use hev_socks5_core.Host.{Trace, Host, Received, received, got, failed, sent}

abbrev pub eq_ℤ : ℤ → ℤ → Bool
eq_ℤ (pos a) (pos b) = a == b
eq_ℤ (negsuc a) (negsuc b) = a == b
eq_ℤ _ _ = false

pub eq_ℤ_refl : (a : ℤ) → eq_ℤ a a ≡ true
eq_ℤ_refl (pos a) = ==_refl a
eq_ℤ_refl (negsuc a) = ==_refl a

pub Received-cases : (r : Received) → ((b : Bytes) × (r ≡ got b)) ⊎ ((n : ℕ) × (r ≡ failed n))
Received-cases (got b) = inl (b, refl)
Received-cases (failed n) = inr (n, refl)

-- the number of bytes that were read from a descriptor
unfoldable pub consumed : ℤ → Trace → ℕ
consumed fd [] = 0
consumed fd (received fd' n (got bytes) ∷ t) =
    let rest = consumed fd t in if eq_ℤ fd fd' then length bytes + rest else rest
consumed fd (_ ∷ t) = consumed fd t

-- the bytes that were handed over for a descriptor, in order
unfoldable pub outgoing : ℤ → Trace → Bytes
outgoing fd [] = []
outgoing fd (sent fd' bytes res ∷ t) =
    let before = outgoing fd t in if eq_ℤ fd fd' then before ++ bytes else before
outgoing fd (_ ∷ t) = outgoing fd t

-- A connection on which the peer sends `inbox`: a read that waits for all of its bytes
-- (MSG_WAITALL) returns the next ones, and fewer only at the end of the stream.
abbrev pub Streams : Host → ℤ → Bytes → Type 0
Streams host fd inbox =
    (t : Trace) (n : ℕ) → host.on_recv t fd n ≡ got (take n (drop (consumed fd t) inbox))

drop-nil : (n : ℕ) → drop {A = ℕ} n [] ≡ []
drop-nil zero = refl
drop-nil (suc n) = refl

pub drop-add : (n k : ℕ) (xs : Bytes) → drop (n + k) xs ≡ drop n (drop k xs)
drop-add n zero xs = let e : n + zero ≡ n = omega arith in rw e
drop-add n (suc k) [] = drop-nil (n + suc k) ∙ sym (drop-nil n)
drop-add n (suc k) (x ∷ xs) =
    let e : n + suc k ≡ suc (n + k) = omega arith in rw e (drop-add n k xs)

-- Reading the front of what is unread.
module _ (host : Host) (fd : ℤ) (inbox : Bytes) (streams : Streams host fd inbox) where
  pub recv_front :
      (t : Trace) (front rest : Bytes)
      → drop (consumed fd t) inbox ≡ front ++ rest
      → host.on_recv t fd (length front) ≡ got front
  recv_front t front rest e =
      streams t (length front) ∙ ap got (ap (take (length front)) e ∙ take-append front rest)

  pub unread_after :
      (t : Trace) (n : ℕ) (front rest : Bytes)
      → drop (consumed fd t) inbox ≡ front ++ rest
      → drop (consumed fd (received fd n (got front) ∷ t)) inbox ≡ rest
  unfolding consumed
  unread_after t n front rest e = rw (eq_ℤ_refl fd) (
      drop-add (length front) (consumed fd t) inbox
      ∙ ap (drop (length front)) e
      ∙ drop-append front rest)
