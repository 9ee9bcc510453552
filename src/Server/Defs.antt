-- ===== src/Server/Defs.antt =====
-- The server object of src/hev-socks5-server.h, and the functions that set it up and tear it down.
use hev_socks5_core.Base.{ℕ, ℤ, pos, minus_one, is_neg, if◌then◌else◌}
use hev_socks5_core.Host.{
  M, pure, self, modify, ◌>>=◌, ◌>>◌, del_fd, close, object_ref, object_unref,
}
use hev_socks5_core.User.{User}
use hev_socks5_core.Authenticator.{Tree}
use hev_socks5_core.Socks5
use hev_socks5_core.Socks5.{Socks5, no_type}

-- The union of `obj`, `user` and `auth`: the authenticator at an address with the tree that is
-- searched, until a user has been accepted; then that user.
pub data Holder : Type 0 where
  nothing : Holder
  auth : ℕ → Tree → Holder
  user : User → Holder

pub record Server : Type 0 where
  pub base : Socks5
  pub open base use *
  pub fds0 : ℤ
  pub fds1 : ℤ
  pub obj : Holder

-- hev_socks5_server_construct
unfoldable pub construct : ℤ → ℤ → Server → ℤ × Server
unfolding Socks5.construct
construct base_res fd s =
    let (res, b) = Socks5.construct base_res no_type s.base in
    if is_neg res
    then (res, record s { base = b })
    else (pos 0, record s { base = record b { fd = fd }; fds0 = minus_one; fds1 = minus_one })

-- hev_object_unref of the member `obj`, if there is one
unfoldable pub release : Holder → M Server (Unit {0})
release nothing = pure tt
release (auth id tree) = object_unref id
release (user u) = object_unref u.id

-- hev_socks5_server_set_auth
unfoldable pub set_auth : ℕ → Tree → M Server (Unit {0})
unfolding release
set_auth id tree = do
  s ← self
  release s.obj
  object_ref id
  modify (λ (s : Server). record s { obj = auth id tree })

-- `hev_task_del_fd (task, fd); close (fd);`
unfoldable pub drop_fd : {S : Type 0} → ℤ → M S (Unit {0})
drop_fd fd = do del_fd fd; close fd

-- the same under `if (fd >= 0)`
unfoldable pub drop_open : {S : Type 0} → ℤ → M S (Unit {0})
unfolding drop_fd
drop_open fd = if is_neg fd then pure tt else drop_fd fd

-- hev_socks5_server_destruct, with hev_socks5_destruct at its end
unfoldable pub destruct : M Server (Unit {0})
unfolding drop_open release
destruct = do s ← self; drop_open s.fds0; drop_open s.fds1; release s.obj; drop_open s.fd

-- hev_socks5_set_timeout and hev_socks5_set_addr_family of the base object
unfoldable pub set_timeout : ℤ → M Server (Unit {0})
unfolding Socks5.set_timeout
set_timeout timeout = modify (λ (s : Server). record s { base = Socks5.set_timeout timeout s.base })

unfoldable pub set_addr_family : ℕ → M Server (Unit {0})
unfolding Socks5.set_addr_family
set_addr_family family =
    modify (λ (s : Server). record s { base = Socks5.set_addr_family family s.base })
