-- ===== src/Base/Int.antt =====
-- C's `int`: results and file descriptors, with the operations on them that the code uses.
use Prim.Native.Nat.{ℕ, zero, suc, ◌-◌, ◌%◌, bit_and, bit_or}
use mathlib.Core.Bool.{Bool, true, false}
use hev_socks5_core.Base.Tests.{◌==◌}

-- `negsuc n` is -(n + 1).
pub data ℤ : Type 0 where
  pos : ℕ → ℤ
  negsuc : ℕ → ℤ

-- The result -1 of a call that fails.
abbrev pub minus_one : ℤ
minus_one = negsuc 0

-- x < 0
abbrev pub is_neg : ℤ → Bool
is_neg (pos n) = false
is_neg (negsuc n) = true

-- x <= 0
abbrev pub is_nonpos : ℤ → Bool
is_nonpos (pos n) = n == 0
is_nonpos (negsuc n) = true

-- x == n, for a constant n that is not negative
abbrev pub is_pos : ℤ → ℕ → Bool
is_pos (pos m) n = m == n
is_pos (negsuc m) n = false

-- (uint8_t)x
abbrev pub to_byte : ℤ → ℕ
to_byte (pos n) = n % 256
to_byte (negsuc n) = 255 - n % 256

-- x | y in two's complement: `~a` is `negsuc a`.
unfoldable pub or_ℤ : ℤ → ℤ → ℤ
or_ℤ (pos a) (pos b) = pos (bit_or a b)
or_ℤ (pos a) (negsuc b) = negsuc (b - bit_and b a)
or_ℤ (negsuc a) (pos b) = negsuc (a - bit_and a b)
or_ℤ (negsuc a) (negsuc b) = negsuc (bit_and a b)

-- a - b
infixl 65 ◌⊖◌
abbrev pub ◌⊖◌ : ℕ → ℕ → ℤ
a ⊖ zero = pos a
zero ⊖ suc b = negsuc b
suc a ⊖ suc b = a ⊖ b

-- x & y in two's complement
unfoldable pub and_ℤ : ℤ → ℤ → ℤ
and_ℤ (pos a) (pos b) = pos (bit_and a b)
and_ℤ (pos a) (negsuc b) = pos (a - bit_and a b)
and_ℤ (negsuc a) (pos b) = pos (b - bit_and b a)
and_ℤ (negsuc a) (negsuc b) = negsuc (bit_or a b)

-- x == -1
abbrev pub is_minus_one : ℤ → Bool
is_minus_one (pos n) = false
is_minus_one (negsuc n) = n == 0
