-- ===== src/Logger/Life.antt =====
-- The descriptor of the log, from hev_socks5_logger_init to hev_socks5_logger_fini.
use hev_socks5_core.Base.{
  ℕ, ◌+◌, ◌≡◌, refl, Option, none, some, List, [], ◌∷◌, Bytes, ℤ, pos, if◌then◌else◌, arith,
  Bool-cases, inl, inr,
}
use hev_socks5_core.Wire.{eq_ℤ}
use hev_socks5_core.Logger
use hev_socks5_core.Logger.Line.{log_if}
use hev_socks5_core.Logger.{
  Level, level_value, Printed, LogHost, LogTrace, LogEvent, Logger, initial, duplicated, log_opened,
  log_closed, written, open_log, init, fini, enabled,
}

-- how often a descriptor was made, how often it was closed, and how many lines were written to it
unfoldable pub makes : ℤ → LogTrace → ℕ
makes fd [] = 0
makes fd (duplicated _ fd' ∷ t) = (if eq_ℤ fd fd' then 1 else 0) + makes fd t
makes fd (log_opened _ fd' ∷ t) = (if eq_ℤ fd fd' then 1 else 0) + makes fd t
makes fd (_ ∷ t) = makes fd t

unfoldable pub ends : ℤ → LogTrace → ℕ
ends fd [] = 0
ends fd (log_closed fd' ∷ t) = (if eq_ℤ fd fd' then 1 else 0) + ends fd t
ends fd (_ ∷ t) = ends fd t

unfoldable pub lines : ℤ → LogTrace → ℕ
lines fd [] = 0
lines fd (written fd' _ ∷ t) = (if eq_ℤ fd fd' then 1 else 0) + lines fd t
lines fd (_ ∷ t) = lines fd t

-- messages, one after the other
unfoldable pub log_all : LogHost → List (Level × Printed) → Logger → LogTrace → LogTrace
log_all host [] l t = t
log_all host ((level, text) ∷ more) l t = log_all host more l (Logger.log host level text l t)

-- how many of them have a level that is shown
unfoldable pub count_shown : Logger → List (Level × Printed) → ℕ
count_shown l [] = 0
count_shown l ((level, _) ∷ more) = (if enabled level l then 1 else 0) + count_shown l more

module _ (host : LogHost) (l : Logger) (n : ℕ) where
  log-counts :
      (level : Level) (text : Printed) (t : LogTrace)
      → let t' = Logger.log host level text l t in
        (makes (pos n) t' ≡ makes (pos n) t)
        × (ends (pos n) t' ≡ ends (pos n) t)
        × (lines (pos n) t'
            ≡ lines (pos n) t
              + (if eq_ℤ (pos n) l.fd then (if enabled level l then 1 else 0) else 0))
  unfolding makes ends lines
  log-counts level text t = elim (Bool-cases (enabled level l)) [
    | inl e ↦ rw (log_if host level text l t, e) (ground arith)
    | inr e ↦ rw (log_if host level text l t, e) (ground arith)
  ]

  log_all-counts :
      (ms : List (Level × Printed)) (t : LogTrace)
      → let t' = log_all host ms l t in
        (makes (pos n) t' ≡ makes (pos n) t)
        × (ends (pos n) t' ≡ ends (pos n) t)
        × (lines (pos n) t' ≡ lines (pos n) t + (if eq_ℤ (pos n) l.fd then count_shown l ms else 0))
  unfolding log_all count_shown
  log_all-counts [] t = ground arith
  log_all-counts ((level, text) ∷ more) t =
      let t' = Logger.log host level text l t in
      ground (arith, log-counts level text t, log_all-counts more t')

open_log-counts :
    (host : LogHost) (path : Bytes) (n : ℕ) (t : LogTrace)
    → let (fd, t') = open_log host path t in
      (makes (pos n) t' ≡ makes (pos n) t + (if eq_ℤ (pos n) fd then 1 else 0))
      × (ends (pos n) t' ≡ ends (pos n) t)
      × (lines (pos n) t' ≡ lines (pos n) t)
unfolding open_log makes ends lines
open_log-counts host path n t = ground arith

init-counts :
    (host : LogHost) (level : Level) (path : Option Bytes) (n : ℕ) (t : LogTrace)
    → let (_, l, t') = init host level path initial t in
      (makes (pos n) t' ≡ makes (pos n) t + (if eq_ℤ (pos n) l.fd then 1 else 0))
      × (ends (pos n) t' ≡ ends (pos n) t)
      × (lines (pos n) t' ≡ lines (pos n) t)
unfolding init
init-counts host level none n t = ground arith
init-counts host level (some path) n t = open_log-counts host path n t

fini-counts :
    (l : Logger) (n : ℕ) (t : LogTrace)
    → let t' = (fini l t).1 in
      (makes (pos n) t' ≡ makes (pos n) t)
      × (ends (pos n) t' ≡ ends (pos n) t + (if eq_ℤ (pos n) l.fd then 1 else 0))
      × (lines (pos n) t' ≡ lines (pos n) t)
unfolding fini makes ends lines
fini-counts l n t = ground arith

-- The log is set up with a path or without one, any messages are logged, and it is torn down. Each
-- descriptor that was made is closed, and none else; a line is written for each message with a level
-- that hev_socks5_logger_enabled has shown, all of them to the descriptor of the log. The logger then
-- still counts as enabled where it was before.
pub init-log-fini :
    (host : LogHost) (level : Level) (path : Option Bytes) (ms : List (Level × Printed)) (n : ℕ)
    (t : LogTrace)
    → let (_, l, t1) = init host level path initial t in
      let (l', t2) = fini l (log_all host ms l t1) in
      (makes (pos n) t2 + ends (pos n) t ≡ makes (pos n) t + ends (pos n) t2)
      × (lines (pos n) t2 ≡ lines (pos n) t + (if eq_ℤ (pos n) l.fd then count_shown l ms else 0))
      × ((lv : Level) → enabled lv l' ≡ enabled lv l)
unfolding fini
init-log-fini host level path ms n t =
    let (_, l, t1) = init host level path initial t in
    let t2 = log_all host ms l t1 in
    let (m0, e0, w0) = init-counts host level path n t in
    let (m1, e1, w1) = log_all-counts host l n ms t1 in
    let (m2, e2, w2) = fini-counts l n t2 in
    (omega (arith, m0, e0, m1, e1, m2, e2), omega (arith, w0, w1, w2), λ lv. refl)
