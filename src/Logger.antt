-- ===== src/Logger.antt =====
-- src/hev-socks5-logger.c: where the log goes, and the line of a message.
pub mod Print
pub mod Line
pub mod Life
use hev_socks5_core.Base.{
  ℕ, zero, suc, ◌+◌, ◌-◌, Bool, not, ◌&&◌, ◌||◌, Option, none, some, List, [], ◌∷◌, ◌++◌, Bytes, ℤ,
  pos, minus_one, is_neg, leb, ltb, length, take, write_at, bytes_eq, if◌then◌else◌,
}
use hev_socks5_core.Logger.Print.{Tm, timestamp}

-- enum _HevSocks5LoggerLevel
pub data Level : Type 0 where
  debug info warn error unset : Level

abbrev pub level_value : Level → ℕ
level_value debug = 0
level_value info = 1
level_value warn = 2
level_value error = 3
level_value unset = 4

-- A call to the outside, with its arguments and then its answer. `written` has the memory of each
-- part and the length that is given for it.
pub data LogEvent : Type 0 where
  duplicated : ℕ → ℤ → LogEvent
  log_opened : Bytes → ℤ → LogEvent
  log_closed : ℤ → LogEvent
  written : ℤ → List (Bytes × ℕ) → LogEvent

-- The newest event first.
abbrev pub LogTrace : Type 0
LogTrace = List LogEvent

-- What vsnprintf makes of a format and its arguments: a text, of any length, or a negative result.
pub data Printed : Type 0 where
  printed : Bytes → Printed
  print_failed : Printed

-- dup, open (for appending, and with the mode 0640), localtime, and what stands in the two buffers on
-- the stack
pub record LogHost : Type 0 where
  pub on_dup : LogTrace → ℕ → ℤ
  pub on_open : LogTrace → Bytes → ℤ
  pub local_time : LogTrace → Tm
  pub stack_ts : LogTrace → Bytes
  pub stack_msg : LogTrace → Bytes

-- the static variables `fd` and `req_level`
pub record Logger : Type 0 where
  pub fd : ℤ
  pub req_level : Level

abbrev pub initial : Logger
initial = record { fd = minus_one; req_level = debug }

-- "stdout", "stderr"
abbrev pub stdout : Bytes
stdout = 115 ∷ 116 ∷ 100 ∷ 111 ∷ 117 ∷ 116 ∷ []

abbrev pub stderr : Bytes
stderr = 115 ∷ 116 ∷ 100 ∷ 101 ∷ 114 ∷ 114 ∷ []

-- the descriptor for a path, with the call that makes it
unfoldable pub open_log : LogHost → Bytes → LogTrace → ℤ × LogTrace
open_log host path t =
    if bytes_eq path stdout
    then (host.on_dup t 1, duplicated 1 (host.on_dup t 1) ∷ t)
    else if bytes_eq path stderr
    then (host.on_dup t 2, duplicated 2 (host.on_dup t 2) ∷ t)
    else (host.on_open t path, log_opened path (host.on_open t path) ∷ t)

-- hev_socks5_logger_init
unfoldable pub init : LogHost → Level → Option Bytes → Logger → LogTrace → ℤ × Logger × LogTrace
unfolding open_log
init host level none l t = (pos 0, l, t)
init host level (some path) l t =
    let (fd, t') = open_log host path t in
    (if is_neg fd then minus_one else pos 0, record { fd = fd; req_level = level }, t')

-- hev_socks5_logger_fini
unfoldable pub fini : Logger → LogTrace → Logger × LogTrace
fini l t = (l, if is_neg l.fd then t else log_closed l.fd ∷ t)

-- hev_socks5_logger_enabled
unfoldable pub enabled : Level → Logger → Bool
enabled level l = leb (level_value l.req_level) (level_value level) && not (is_neg l.fd)

-- the `switch` over the level
unfoldable pub tag : Level → Bytes
tag debug = 91 ∷ 68 ∷ 93 ∷ 32 ∷ []
tag info = 91 ∷ 73 ∷ 93 ∷ 32 ∷ []
tag warn = 91 ∷ 87 ∷ 93 ∷ 32 ∷ []
tag error = 91 ∷ 69 ∷ 93 ∷ 32 ∷ []
tag unset = 91 ∷ 63 ∷ 93 ∷ 32 ∷ []

-- snprintf into a block of `size` bytes: the text that fits, and a 0
unfoldable pub print_into : Bytes → ℕ → Bytes → Bytes
print_into m size text = write_at m 0 (take (size - 1) text ++ (0 ∷ []))

-- `msg` and `iov[2].iov_len`: a negative result is a length that is too large
unfoldable pub message : Bytes → Printed → Bytes × ℕ
unfolding print_into
message m (printed text) =
    (print_into m 1024 text, if leb 1024 (length text) then 1023 else length text)
message m print_failed = (m, 1023)

-- hev_socks5_logger_log
unfoldable pub log : LogHost → Level → Printed → Logger → LogTrace → LogTrace
unfolding tag print_into message
log host level text l t =
    if ltb (level_value level) (level_value l.req_level) || is_neg l.fd
    then t
    else let stamp = timestamp (host.local_time t) in
      let ts = print_into (host.stack_ts t) 32 stamp in
      written l.fd (
        (ts, length stamp) ∷ (tag level, 4) ∷ message (host.stack_msg t) text ∷ ((10 ∷ []), 1) ∷ [])
      ∷ t
