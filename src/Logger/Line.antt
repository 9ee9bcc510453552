-- ===== src/Logger/Line.antt =====
-- The line that a message makes.
use hev_socks5_core.Base.{
  ℕ, zero, suc, ◌+◌, ◌-◌, ◌≤◌, ◌≡◌, refl, ◌∙◌, ap, sym, true, false, List, [], ◌∷◌, ◌++◌, Bytes,
  leb, ltb, Bool, not, ◌&&◌, ◌||◌, is_neg, length, length-append, take, take-append, take_all,
  length-take, length-write_at, drop, if◌then◌else◌, arith, Bool-cases, inl, inr, append_assoc,
}
use hev_socks5_core.Logger
use hev_socks5_core.Logger.{
  Level, debug, info, warn, error, unset, level_value, Printed, printed, print_failed, LogHost,
  LogTrace, Logger, written, tag, print_into, message, enabled,
}
use hev_socks5_core.Logger.Print.{IsTime, timestamp, length-timestamp}

-- the bytes that writev hands over
unfoldable pub gathered : List (Bytes × ℕ) → Bytes
gathered [] = []
gathered ((m, n) ∷ parts) = take n m ++ gathered parts

-- no part is longer than its memory
unfoldable pub AllWithin : List (Bytes × ℕ) → Type 0
AllWithin [] = Unit {0}
AllWithin ((m, n) ∷ parts) = (n ≤ length m) × AllWithin parts

-- what is shown of a text; where vsnprintf fails, it is what stood in the buffer
abbrev pub shown : Bytes → Printed → Bytes
shown m (printed text) = take 1023 text
shown m print_failed = take 1023 m

length-take_le : (n : ℕ) (xs : Bytes) → length (take n xs) ≤ n
length-take_le zero xs = omega arith
length-take_le (suc n) [] = omega arith
length-take_le (suc n) (x ∷ xs) = omega (arith, length-take_le n xs)

-- snprintf into a block of n + 1 bytes
module _ (m text : Bytes) (n : ℕ) where
  print_into-front : take (length (take n text)) (print_into m (suc n) text) ≡ take n text
  unfolding print_into
  print_into-front =
      let k : suc n - 1 ≡ n = omega arith in
      rw k (
        ap (take (length (take n text)))
          (append_assoc (take n text) (0 ∷ []) (drop (0 + length (take n text ++ (0 ∷ []))) m))
        ∙ take-append (take n text) _)

  length-print_into : length m ≡ suc n → length (print_into m (suc n) text) ≡ suc n
  unfolding print_into
  length-print_into l =
      let k : suc n - 1 ≡ n = omega arith in
      rw k (
        length-write_at m 0 (take n text ++ (0 ∷ []))
          (omega (arith, length-append (take n text) (0 ∷ []), length-take_le n text))
        ∙ l)

  print_into-fits : length text ≤ n → take (length text) (print_into m (suc n) text) ≡ text
  print_into-fits h =
      let whole : take n text ≡ text = take_all text n h in
      ap (λ b. take (length b) (print_into m (suc n) text)) (sym whole) ∙ print_into-front ∙ whole

le_of_leb : (n k : ℕ) → leb (suc n) k ≡ false → k ≤ n
le_of_leb n k h = ground arith

-- the third part
module _ (m : Bytes) (l : length m ≡ 1024) where
  message-shown : (text : Printed) → take (message m text).1 (message m text).0 ≡ shown m text
  unfolding message
  message-shown print_failed = refl
  message-shown (printed text) = elim (Bool-cases (leb 1024 (length text))) [
    | inl long ↦
        let k : length (take 1023 text) ≡ 1023 = length-take 1023 text (ground arith) in
        rw long (ap (λ n. take n (print_into m 1024 text)) (sym k) ∙ print_into-front m text 1023)
    | inr short ↦
        let fits = le_of_leb 1023 (length text) short in
        rw short (print_into-fits m text 1023 fits ∙ sym (take_all text 1023 fits))
  ]

  message-within : (text : Printed) → (message m text).1 ≤ length (message m text).0
  unfolding message
  message-within print_failed = omega arith
  message-within (printed text) =
      let k = length-print_into m text 1023 l in
      elim (Bool-cases (leb 1024 (length text))) [
        | inl long ↦ rw long (omega (arith, k))
        | inr short ↦
            let fits = le_of_leb 1023 (length text) short in rw short (omega (arith, k, fits))
      ]

guard_eq :
    {A : Type 0} (a b : ℕ) (n : Bool) (x y : A)
    → (if ltb a b || n then x else y) ≡ (if leb b a && not n then y else x)
guard_eq a b true x y = ground arith
guard_eq a b false x y = ground arith

tag-four : (level : Level) → (take 4 (tag level) ≡ tag level) × (4 ≤ length (tag level))
unfolding tag
tag-four debug = (refl, omega arith)
tag-four info = (refl, omega arith)
tag-four warn = (refl, omega arith)
tag-four error = (refl, omega arith)
tag-four unset = (refl, omega arith)

-- the four parts of a message
abbrev pub parts_of : LogHost → Level → Printed → LogTrace → List (Bytes × ℕ)
parts_of host level text t =
    let stamp = timestamp (host.local_time t) in
    (print_into (host.stack_ts t) 32 stamp, length stamp)
    ∷ (tag level, 4)
    ∷ message (host.stack_msg t) text
    ∷ ((10 ∷ []), 1)
    ∷ []

pub log_if :
    (host : LogHost) (level : Level) (text : Printed) (l : Logger) (t : LogTrace)
    → Logger.log host level text l t
      ≡ (if enabled level l then written l.fd (parts_of host level text t) ∷ t else t)
unfolding Logger.log enabled
log_if host level text l t =
    guard_eq (level_value level) (level_value l.req_level) (is_neg l.fd) t
      (written l.fd (parts_of host level text t) ∷ t)

-- Where the buffers have their sizes and the year is from 1900 to 9999: hev_socks5_logger_log calls
-- writev once, on the descriptor of the log, where hev_socks5_logger_enabled holds for the level, and
-- does nothing otherwise. The parts that it hands over are no longer than their memory, and they are
-- the time in 22 characters, the four characters of the level, the first 1023 bytes of the text (or,
-- where vsnprintf fails, of what stood in the buffer), and the end of the line.
pub log-line :
    (host : LogHost) (level : Level) (text : Printed) (l : Logger) (t : LogTrace)
    → IsTime (host.local_time t)
    → length (host.stack_ts t) ≡ 32
    → length (host.stack_msg t) ≡ 1024
    → let stamp = timestamp (host.local_time t) in
      (parts : List (Bytes × ℕ)) × (Logger.log host level text l t
        ≡ (if enabled level l then written l.fd parts ∷ t else t))
      × (gathered parts ≡ stamp ++ (tag level ++ (shown (host.stack_msg t) text ++ (10 ∷ []))))
      × AllWithin parts
      × (length stamp ≡ 22)
unfolding gathered AllWithin
log-line host level text l t tm a b =
    let stamp = timestamp (host.local_time t) in
    let n = length-timestamp (host.local_time t) tm in
    let x = print_into-fits (host.stack_ts t) stamp 31 (omega (arith, n)) in
    let y = message-shown (host.stack_msg t) b text in
    let (four, long) = tag-four level in
    (
      parts_of host level text t,
      log_if host level text l t,
      rw (x, four, y) refl,
      (
        omega (arith, length-print_into (host.stack_ts t) stamp 31 a, n),
        (long, (message-within (host.stack_msg t) b text, (omega arith, tt))),
      ),
      n,
    )
