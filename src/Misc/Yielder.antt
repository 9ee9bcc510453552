-- ===== src/Misc/Yielder.antt =====
-- hev_socks5_task_io_yielder of src/hev-socks5-misc.c, which a blocking call of the library is
-- given. HevTaskSystem calls it each time that the call would block.
use hev_socks5_core.Base.{ℤ, pos, negsuc, minus_one, is_nonpos, if◌then◌else◌}
use hev_socks5_core.Host.{
  Host, YieldType, yield, waitio, yielded, M, pure, self, ◌>>=◌, ◌>>◌, emit, sleep,
}
use hev_socks5_core.Socks5.{Socks5}

module _ (host : Host) where
  -- HEV_TASK_WAITIO, over `self->timeout`
  unfoldable pub wait_for : ℤ → M Socks5 ℤ
  wait_for (negsuc n) = do emit (yielded waitio); pure (pos 0)
  wait_for (pos n) = do
    left ← sleep host (pos n)
    if is_nonpos left then pure minus_one else pure (pos 0)

  unfoldable pub io_yielder : YieldType → M Socks5 ℤ
  unfolding wait_for
  io_yielder yield = do emit (yielded yield); pure (pos 0)
  io_yielder waitio = do o ← self; wait_for o.timeout
