-- ===== src/Misc/Socket.antt =====
-- hev_socks5_socket of src/hev-socks5-misc.c, and the library's settings.
use hev_socks5_core.Base.{◌*◌, ℤ, pos, minus_one, is_neg, if◌then◌else◌}
use hev_socks5_core.Host.{
  SocketType, stream, dgram, v6only, rcvbuf, Config, Host, M, pure, ◌>>=◌, ◌>>◌, socket, setsockopt,
  add_fd, mod_fd, close,
}

-- the initial values of the static variables
unfoldable pub default_config : Config
default_config = record {
  connect_timeout = pos 10000;
  tcp_timeout = pos 300000;
  udp_timeout = pos 60000;
  task_stack_size = pos 8192;
  udp_recv_buffer_size = pos (512 * 1024);
  udp_copy_buffer_nums = pos 10;
}

unfoldable pub set_connect_timeout : ℤ → Config → Config
set_connect_timeout timeout c = record c { connect_timeout = timeout }

unfoldable pub set_tcp_timeout : ℤ → Config → Config
set_tcp_timeout timeout c = record c { tcp_timeout = timeout }

unfoldable pub set_udp_timeout : ℤ → Config → Config
set_udp_timeout timeout c = record c { udp_timeout = timeout }

unfoldable pub set_task_stack_size : ℤ → Config → Config
set_task_stack_size size c = record c { task_stack_size = size }

unfoldable pub set_udp_recv_buffer_size : ℤ → Config → Config
set_udp_recv_buffer_size size c = record c { udp_recv_buffer_size = size }

unfoldable pub set_udp_copy_buffer_nums : ℤ → Config → Config
set_udp_copy_buffer_nums nums c = record c { udp_copy_buffer_nums = nums }

abbrev pub get_connect_timeout : Config → ℤ
get_connect_timeout c = c.connect_timeout

abbrev pub get_tcp_timeout : Config → ℤ
get_tcp_timeout c = c.tcp_timeout

abbrev pub get_udp_timeout : Config → ℤ
get_udp_timeout c = c.udp_timeout

abbrev pub get_task_stack_size : Config → ℤ
get_task_stack_size c = c.task_stack_size

abbrev pub get_udp_copy_buffer_nums : Config → ℤ
get_udp_copy_buffer_nums c = c.udp_copy_buffer_nums

module _ (host : Host) {S : Type 0} where
  -- the `if (type == SOCK_DGRAM)` at the end, whose result is dropped
  unfoldable pub grow_buffer : SocketType → ℤ → M S ℤ
  grow_buffer stream fd = pure fd
  grow_buffer dgram fd = do setsockopt host fd (rcvbuf host.config.udp_recv_buffer_size); pure fd

  -- `if (hev_task_add_fd (task, fd, …) < 0) hev_task_mod_fd (task, fd, …)`
  unfoldable pub watch : ℤ → M S (Unit {0})
  watch fd = do
    added ← add_fd host fd
    if is_neg added then (do mod_fd host fd; pure tt) else pure tt

  -- hev_socks5_socket
  unfoldable pub socks5_socket : SocketType → M S ℤ
  unfolding grow_buffer watch
  socks5_socket ty = do
    fd ← socket host ty
    if is_neg fd then pure minus_one else do
      res ← setsockopt host fd v6only
      if is_neg res then (do close fd; pure minus_one) else do watch fd; grow_buffer ty fd
