-- ===== src/Misc/Bytes16.antt =====
-- The two bytes of a `uint16_t` in memory: in network order, and in the order of the machine, which
-- is taken to be little-endian.
use hev_socks5_core.Base.{ℕ, ◌*◌, ◌+◌, ◌/◌, ◌%◌, ◌<◌, ◌≡◌, Bytes, [], ◌∷◌, get_or, arith}

-- the memory of `htons (n)`
abbrev pub htons_bytes : ℕ → Bytes
htons_bytes n = (n / 256 % 256) ∷ (n % 256) ∷ []

-- `ntohs` of the number that stands in memory
abbrev pub ntohs_bytes : Bytes → ℕ
ntohs_bytes b = get_or b 0 0 * 256 + get_or b 1 0

-- the memory of n itself
abbrev pub host_bytes : ℕ → Bytes
host_bytes n = (n % 256) ∷ (n / 256 % 256) ∷ []

pub ntohs-htons : (n : ℕ) → n < 65536 → ntohs_bytes (htons_bytes n) ≡ n
ntohs-htons n h = omega arith
