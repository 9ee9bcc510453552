-- ===== src/Udp/Final.antt =====
-- A closed association stays closed.
use hev_socks5_core.Base.{◌≡◌, refl, true, ℤ, pos, minus_one, is_nonpos, is_pos}
use hev_socks5_core.Host.{Host, Trace, YieldType, waitio}
use hev_socks5_core.Misc.Yielder.{wait_for, io_yielder}
use hev_socks5_core.Socks5
use hev_socks5_core.Socks5.{Socks5, udp_in_udp}
use hev_socks5_core.Udp.Defs.{is_closed, task_io_yielder}
use hev_socks5_core.Udp.Closed.{task_io_yielder-closed}

set_timeout_final : (o : Socks5) (z : ℤ) → o.timeout ≡ pos 0 → Socks5.set_timeout z o ≡ o
unfolding Socks5.set_timeout
set_timeout_final o z e =
    let b : is_pos o.timeout 0 ≡ true = rw e refl in rw (Socks5.set_timeout, b) refl

io_yielder_final :
    (host : Host) (o : Socks5) (t : Trace)
    → o.timeout ≡ pos 0
    → is_nonpos (host.on_sleep t (pos 0)) ≡ true
    → (io_yielder host waitio o t).0 ≡ minus_one
unfolding io_yielder wait_for
io_yielder_final host o t e h = simp e (rw h refl)

-- The yielder finds that the connection of an association has ended or failed. It returns -1, and
-- from then on no call of hev_socks5_set_timeout changes the object, and hev_socks5_task_io_yielder
-- refuses to wait, where a sleep of no time has no time left.
pub task_io_yielder-final :
    (host : Host) (o : Socks5) (t t2 : Trace) (type : YieldType) (z : ℤ)
    → o.kind ≡ udp_in_udp
    → is_closed (host.on_probe t o.fd) ≡ true
    → is_nonpos (host.on_sleep t2 (pos 0)) ≡ true
    → let (res, o', _) = task_io_yielder host type o t in
      (res ≡ minus_one)
      × (Socks5.set_timeout z o' ≡ o')
      × ((io_yielder host waitio o' t2).0 ≡ minus_one)
task_io_yielder-final host o t t2 type z k c h =
    let (res, o', t') = task_io_yielder host type o t in
    let (r, zero_left) = task_io_yielder-closed host o t type k c in
    (r, set_timeout_final o' z zero_left, io_yielder_final host o' t2 zero_left h)
