-- ===== src/Logger/Print.antt =====
-- The time of a message, as snprintf prints it in hev_socks5_logger_log.
use hev_socks5_core.Base.{
  ℕ, zero, suc, ◌+◌, ◌-◌, ◌/◌, ◌%◌, ◌<◌, ◌≤◌, ◌≡◌, refl, [], ◌∷◌, ◌++◌, Bytes, ℤ, pos, negsuc, ◌⊖◌,
  ltb, length, length-append, replicate, if◌then◌else◌, arith,
}

-- struct tm
pub record Tm : Type 0 where
  pub tm_year : ℤ
  pub tm_mon : ℤ
  pub tm_mday : ℤ
  pub tm_hour : ℤ
  pub tm_min : ℤ
  pub tm_sec : ℤ

-- n + x
abbrev pub plus : ℕ → ℤ → ℤ
plus n (pos m) = pos (n + m)
plus n (negsuc m) = n ⊖ suc m

-- an `int` that is read as an `unsigned int`
abbrev pub unsigned : ℤ → ℕ
unsigned (pos n) = n % 4294967296
unsigned (negsuc n) = 4294967295 - n % 4294967296

-- the decimal digits of a number of at most `fuel` of them
unfoldable pub digits : ℕ → ℕ → Bytes
digits zero n = []
digits (suc fuel) n =
    let front = digits fuel (n / 10) in
    if ltb n 10 then (48 + n) ∷ [] else front ++ ((48 + n % 10) ∷ [])

-- "%04u" and "%02u": the digits, filled up with 0. An `unsigned int` has at most ten digits.
unfoldable pub padded : ℕ → ℤ → Bytes
unfolding digits
padded width x = let text = digits 10 (unsigned x) in replicate (width - length text) 48 ++ text

-- "[%04u-%02u-%02u %02u:%02u:%02u] "
unfoldable pub timestamp : Tm → Bytes
unfolding padded
timestamp tm =
    91
    ∷ (padded 4 (plus 1900 tm.tm_year)
        ++ (45 ∷ padded 2 (plus 1 tm.tm_mon))
        ++ (45 ∷ padded 2 tm.tm_mday)
        ++ (32 ∷ padded 2 tm.tm_hour)
        ++ (58 ∷ padded 2 tm.tm_min)
        ++ (58 ∷ padded 2 tm.tm_sec)
        ++ (93 ∷ 32 ∷ []))

pub length-replicate : (n x : ℕ) → length (replicate n x) ≡ n
length-replicate zero x = refl
length-replicate (suc n) x = omega (arith, length-replicate n x)

digits-one : (f n : ℕ) → n < 10 → length (digits (suc f) n) ≡ 1
unfolding digits
digits-one f n h = ground arith

digits-two : (f n : ℕ) → n < 100 → length (digits (suc (suc f)) n) ≤ 2
unfolding digits
digits-two f n h =
    let front = digits (suc f) (n / 10) in
    ground (arith, digits-one f (n / 10), length-append front ((48 + n % 10) ∷ []))

digits-three : (f n : ℕ) → n < 1000 → length (digits (suc (suc (suc f))) n) ≤ 3
unfolding digits
digits-three f n h =
    let front = digits (suc (suc f)) (n / 10) in
    ground (arith, digits-two f (n / 10), length-append front ((48 + n % 10) ∷ []))

digits-four : (f n : ℕ) → n < 10000 → length (digits (suc (suc (suc (suc f)))) n) ≤ 4
unfolding digits
digits-four f n h =
    let front = digits (suc (suc (suc f))) (n / 10) in
    ground (arith, digits-three f (n / 10), length-append front ((48 + n % 10) ∷ []))

-- 0 ≤ x < n
abbrev pub Below : ℕ → ℤ → Type 0
Below n (pos m) = m < n
Below n (negsuc m) = ⊥

length-padded :
    (width : ℕ) (x : ℤ) → length (digits 10 (unsigned x)) ≤ width → length (padded width x) ≡ width
unfolding padded
length-padded width x h =
    let text = digits 10 (unsigned x) in
    omega (
      arith,
      length-append (replicate (width - length text) 48) text,
      length-replicate (width - length text) 48,
    )

padded-two : (x : ℤ) → Below 100 x → length (padded 2 x) ≡ 2
padded-two (pos n) h = length-padded 2 (pos n) (digits-two 8 (unsigned (pos n)) (omega arith))
padded-two (negsuc n) h = absurd h

-- the fields that localtime gives, for a year from 1900 to 9999
pub record IsTime (tm : Tm) : Type 0 where
  pub year : Below 8100 tm.tm_year
  pub mon : Below 12 tm.tm_mon
  pub mday : Below 32 tm.tm_mday
  pub hour : Below 24 tm.tm_hour
  pub min : Below 60 tm.tm_min
  pub sec : Below 61 tm.tm_sec

padded-year : (y : ℤ) → Below 8100 y → length (padded 4 (plus 1900 y)) ≡ 4
padded-year (pos n) h =
    length-padded 4 (pos (1900 + n)) (digits-four 6 (unsigned (pos (1900 + n))) (omega arith))
padded-year (negsuc n) h = absurd h

padded-mon : (m : ℤ) → Below 12 m → length (padded 2 (plus 1 m)) ≡ 2
padded-mon (pos n) h = padded-two (pos (1 + n)) (omega arith)
padded-mon (negsuc n) h = absurd h

Below-le : (k n : ℕ) (x : ℤ) → k ≤ n → Below k x → Below n x
Below-le k n (pos m) h b = omega arith
Below-le k n (negsuc m) h b = b

-- A time in a year from 1900 to 9999 has 22 characters.
pub length-timestamp : (tm : Tm) → IsTime tm → length (timestamp tm) ≡ 22
unfolding timestamp
length-timestamp tm h =
    let y = padded 4 (plus 1900 tm.tm_year) in
    let mo : Bytes = 45 ∷ padded 2 (plus 1 tm.tm_mon) in
    let d : Bytes = 45 ∷ padded 2 tm.tm_mday in
    let ho : Bytes = 32 ∷ padded 2 tm.tm_hour in
    let mi : Bytes = 58 ∷ padded 2 tm.tm_min in
    let s : Bytes = 58 ∷ padded 2 tm.tm_sec in
    let last : Bytes = 93 ∷ 32 ∷ [] in
    omega (
      arith,
      padded-year tm.tm_year h.year,
      padded-mon tm.tm_mon h.mon,
      padded-two tm.tm_mday (Below-le 32 100 tm.tm_mday (omega arith) h.mday),
      padded-two tm.tm_hour (Below-le 24 100 tm.tm_hour (omega arith) h.hour),
      padded-two tm.tm_min (Below-le 60 100 tm.tm_min (omega arith) h.min),
      padded-two tm.tm_sec (Below-le 61 100 tm.tm_sec (omega arith) h.sec),
      length-append ((((y ++ mo) ++ d) ++ ho) ++ mi) s,
      length-append (((((y ++ mo) ++ d) ++ ho) ++ mi) ++ s) last,
      length-append (((y ++ mo) ++ d) ++ ho) mi,
      length-append ((y ++ mo) ++ d) ho,
      length-append (y ++ mo) d,
      length-append y mo,
    )
