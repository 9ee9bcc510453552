-- ===== src/Tcp.antt =====
-- src/hev-socks5-tcp.c: the relay of a TCP connection.
use hev_socks5_core.Base.{ℤ, pos, minus_one, is_neg, if◌then◌else◌}
use hev_socks5_core.Host.{Host, M, pure, self, ◌>>=◌, ◌>>◌, emit, spliced}
use hev_socks5_core.Misc.Socket.{watch}
use hev_socks5_core.Socks5.{Socks5}

-- hev_socks5_tcp_splicer. The copying itself is hev_task_io_splice, the event `spliced`.
unfoldable pub tcp_splicer : Host → ℤ → M Socks5 ℤ
tcp_splicer host fd = do
  o ← self
  if is_neg o.fd then pure minus_one else do watch host fd; emit (spliced o.fd fd); pure (pos 0)
