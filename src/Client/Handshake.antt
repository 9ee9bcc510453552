-- ===== src/Client/Handshake.antt =====
-- Connecting to a server, and the two orders of a handshake: src/hev-socks5-client.c.
use hev_socks5_core.Base.{ℕ, Bool, Bytes, ℤ, pos, minus_one, is_neg, is_pos, if◌then◌else◌}
use hev_socks5_core.Host.{
  Host, Sockaddr, stream, M, pure, self, modify, ◌>>=◌, ◌>>◌, binder, connect,
}
use hev_socks5_core.Proto.Method
use hev_socks5_core.Misc.Resolve.{name_into_sockaddr6}
use hev_socks5_core.Misc.Socket.{
  socks5_socket, get_connect_timeout, get_udp_timeout, get_tcp_timeout,
}
use hev_socks5_core.Socks5.{Kind, no_type, tcp, udp_in_tcp, udp_in_udp}
use hev_socks5_core.Client.Defs.{Client, set_timeout, set_addr_family}
use hev_socks5_core.Client.Upstream.{give_up}
use hev_socks5_core.Misc.Addr.{zero_sockaddr}
use hev_socks5_core.Client.Messages.{
  write_auth_methods, write_auth_creds, write_request, read_auth_method, read_auth_creds,
  read_response,
}

unfoldable pub set_fd : ℤ → M Client (Unit {0})
set_fd fd = modify (λ (c : Client). record c { base = record c.base { fd = fd } })

-- `res = f (self); if (res < 0) return -1;` before the rest
infixr 5 ◌then_try◌
abbrev pub ◌then_try◌ : M Client ℤ → M Client ℤ → M Client ℤ
m then_try rest = do res ← m; if is_neg res then pure minus_one else rest

module _ (host : Host) where
  -- hev_socks5_client_connect, behind the resolver
  unfoldable pub connect_to : Sockaddr → ℕ → M Client ℤ
  connect_to sa family = do
    fd ← socks5_socket host stream
    if is_neg fd then pure minus_one else do
      hooked ← binder host fd sa
      if is_neg hooked then give_up host fd else do
        connected ← connect host fd sa
        if is_neg connected
            then give_up host fd
            else do set_fd fd; set_addr_family family; pure (pos 0)

  -- hev_socks5_client_connect
  unfoldable pub client_connect : Bytes → ℕ → M Client ℤ
  client_connect addr port = do
    set_timeout (get_connect_timeout host.config)
    c ← self
    (res, sa, family) ← name_into_sockaddr6 host addr port zero_sockaddr c.addr_family
    if is_neg res then pure minus_one else connect_to sa family

  -- hev_socks5_client_handshake_standard, behind the answer of a method
  unfoldable pub standard_auth : ℤ → M Client ℤ
  standard_auth method =
      if is_pos method Method.user
      then (write_auth_creds host then_try read_auth_creds host)
      else if is_pos method Method.no_auth
      then pure (pos 0)
      else pure minus_one

  -- the end of hev_socks5_client_handshake_standard
  unfoldable pub standard_request : M Client ℤ
  standard_request = write_request host then_try read_response host then_try pure (pos 0)

  -- hev_socks5_client_handshake_standard, behind the methods
  unfoldable pub standard_answered : M Client ℤ
  standard_answered = do
    method ← read_auth_method host
    if is_neg method then pure minus_one else (standard_auth method then_try standard_request)

  -- hev_socks5_client_handshake_standard
  unfoldable pub handshake_standard : M Client ℤ
  handshake_standard = write_auth_methods host then_try standard_answered

  -- hev_socks5_client_handshake_pipeline, behind the answer of a method
  unfoldable pub pipeline_auth : ℤ → M Client ℤ
  pipeline_auth method =
      if is_pos method Method.user
      then read_auth_creds host
      else if is_pos method Method.no_auth
      then pure (pos 0)
      else pure minus_one

  -- hev_socks5_client_handshake_pipeline, behind its messages
  unfoldable pub pipeline_answers : M Client ℤ
  pipeline_answers = do
    method ← read_auth_method host
    if is_neg method
        then pure minus_one
        else (pipeline_auth method then_try read_response host then_try pure (pos 0))

  -- hev_socks5_client_handshake_pipeline
  unfoldable pub handshake_pipeline : M Client ℤ
  handshake_pipeline =
      write_auth_methods host
      then_try write_auth_creds host
      then_try write_request host
      then_try pipeline_answers

  -- the `switch` at the end of hev_socks5_client_handshake
  unfoldable pub settle : Kind → M Client (Unit {0})
  settle no_type = pure tt
  settle tcp = pure tt
  settle udp_in_tcp = set_timeout (get_udp_timeout host.config)
  settle udp_in_udp = set_timeout (get_udp_timeout host.config)

  -- hev_socks5_client_handshake
  unfoldable pub handshake : Bool → M Client ℤ
  handshake pipeline = do
    set_timeout (get_tcp_timeout host.config)
    res ← (if pipeline then handshake_pipeline else handshake_standard)
    c ← self
    settle c.kind
    pure res
