-- ===== src/Socks5.antt =====
-- src/hev-socks5.c: the object that servers and clients extend.
use hev_socks5_core.Base.{ℕ, Bool, false, ℤ, pos, minus_one, is_neg, is_pos, if◌then◌else◌}
use hev_socks5_core.Host.{M, pure, ◌>>◌, del_fd, close, Sockaddr}
use hev_socks5_core.Proto.Family

-- enum _HevSocks5Type
pub data Kind : Type 0 where
  no_type tcp udp_in_tcp udp_in_udp : Kind

pub record Socks5 : Type 0 where
  pub fd : ℤ
  pub timeout : ℤ
  pub kind : Kind
  pub udp_associated : Bool
  pub addr_family : ℕ

-- memory that is cleared
abbrev pub zero_base : Socks5
zero_base = record {
  fd = pos 0;
  timeout = pos 0;
  kind = no_type;
  udp_associated = false;
  addr_family = 0;
}

-- hev_socks5_set_timeout: a timeout of 0 is final
unfoldable pub set_timeout : ℤ → Socks5 → Socks5
set_timeout timeout o = if is_pos o.timeout 0 then o else record o { timeout = timeout }

-- hev_socks5_set_addr_family
unfoldable pub set_addr_family : ℕ → Socks5 → Socks5
set_addr_family family o = record o { addr_family = family }

-- hev_socks5_bind, the `binder` that the class has unless an application overrides it
unfoldable pub default_binder : ℤ → Sockaddr → ℤ
default_binder sock dest = pos 0

-- hev_socks5_construct, on memory that is cleared; `base_res` is the result of
-- hev_object_construct.
unfoldable pub construct : ℤ → Kind → Socks5 → ℤ × Socks5
construct base_res kind o = if is_neg base_res then (base_res, o) else (
  pos 0,
  record {
    fd = minus_one;
    timeout = minus_one;
    kind = kind;
    udp_associated = o.udp_associated;
    addr_family = Family.unspec;
  },
)

-- hev_socks5_destruct, for the part that concerns the descriptor
unfoldable pub destruct : M Socks5 (Unit {0})
destruct o = (if is_neg o.fd then pure tt else do del_fd o.fd; close o.fd) o
