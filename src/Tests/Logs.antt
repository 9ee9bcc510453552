-- ===== src/Tests/Logs.antt =====
-- Messages in a log.
use hev_socks5_core.Base.{
  ◌+◌, ◌≡◌, refl, some, List, [], ◌∷◌, ◌++◌, Bytes, ℕ, pos, length, replicate, arith, if◌then◌else◌,
}
use hev_socks5_core.Wire.{eq_ℤ}
use hev_socks5_core.Logger
use hev_socks5_core.Logger.{
  Level, debug, info, warn, error, Printed, printed, LogHost, Logger, initial, stderr, init, fini,
  written, tag, enabled, open_log, log_closed, duplicated,
}
use hev_socks5_core.Logger.Print.{Tm, IsTime, timestamp, padded, digits, length-replicate}
use hev_socks5_core.Logger.Line.{gathered, AllWithin, shown, log-line}
use hev_socks5_core.Logger.Life.{makes, ends, lines, log_all, count_shown, init-log-fini}

-- 2021-02-03 04:05:06
abbrev dawn : Tm
dawn = record {
  tm_year = pos 121;
  tm_mon = pos 1;
  tm_mday = pos 3;
  tm_hour = pos 4;
  tm_min = pos 5;
  tm_sec = pos 6;
}

abbrev quill : LogHost
quill = record {
  on_dup = λ t n. pos (n + 10);
  on_open = λ t path. pos 20;
  local_time = λ t. dawn;
  stack_ts = λ t. replicate 32 7;
  stack_msg = λ t. replicate 1024 7;
}

abbrev to_stderr : Logger
to_stderr = record { fd = pos 12; req_level = info }

IsTime-dawn : IsTime dawn
IsTime-dawn = record {
  year = omega arith;
  mon = omega arith;
  mday = omega arith;
  hour = omega arith;
  min = omega arith;
  sec = omega arith;
}

-- "[2021-02-03 04:05:06] "
timestamp-dawn :
    timestamp dawn
    ≡ 91 ∷ 50 ∷ 48 ∷ 50 ∷ 49 ∷ 45 ∷ 48 ∷ 50 ∷ 45 ∷ 48 ∷ 51 ∷ 32 ∷ 48 ∷ 52 ∷ 58 ∷ 48 ∷ 53 ∷ 58 ∷ 48
      ∷ 54 ∷ 93 ∷ 32 ∷ []
unfolding timestamp padded digits
timestamp-dawn = refl

log-line_example :
    (parts : List (Bytes × ℕ)) × (Logger.log quill warn (printed (104 ∷ 105 ∷ [])) to_stderr []
      ≡ (if enabled warn to_stderr then written (pos 12) parts ∷ [] else []))
    × (gathered parts
        ≡ timestamp dawn
          ++ (tag warn ++ (shown (replicate 1024 7) (printed (104 ∷ 105 ∷ [])) ++ (10 ∷ []))))
    × AllWithin parts
    × (length (timestamp dawn) ≡ 22)
log-line_example =
    log-line quill warn (printed (104 ∷ 105 ∷ [])) to_stderr [] IsTime-dawn (length-replicate 32 7)
      (length-replicate 1024 7)

-- a message that is shown, and one that is not
abbrev two_messages : List (Level × Printed)
two_messages = (error, printed (104 ∷ [])) ∷ (debug, printed []) ∷ []

init-log-fini_example :
    let (_, l, t1) = init quill info (some stderr) initial [] in
    let (l', t2) = fini l (log_all quill two_messages l t1) in
    (makes (pos 12) t2 + ends (pos 12) [] ≡ makes (pos 12) [] + ends (pos 12) t2)
    × (lines (pos 12) t2
        ≡ lines (pos 12) [] + (if eq_ℤ (pos 12) l.fd then count_shown l two_messages else 0))
    × ((lv : Level) → enabled lv l' ≡ enabled lv l)
init-log-fini_example = init-log-fini quill info (some stderr) two_messages 12 []

-- of two descriptors that two calls of hev_socks5_logger_init make, one is closed
init_twice :
    let (_, l, t1) = init quill info (some stderr) initial [] in
    let (_, l', t2) = init quill info (some Logger.stdout) l t1 in
    (fini l' t2).1 ≡ log_closed (pos 11) ∷ duplicated 1 (pos 11) ∷ duplicated 2 (pos 12) ∷ []
unfolding init open_log fini
init_twice = refl
