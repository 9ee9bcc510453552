-- ===== src/Server/Handshake.antt =====
-- The commands, the handshake and its order in src/hev-socks5-server.c.
use hev_socks5_core.Base.{
  ℕ, not, none, some, [], ◌∷◌, ℤ, pos, minus_one, is_neg, ◌||◌, ◌==◌, replicate, if◌then◌else◌,
}
use hev_socks5_core.Host.{
  Sockaddr, Host, stream, dgram, reuseaddr, M, pure, self, modify, ◌>>=◌, ◌>>◌, setsockopt, binder,
  connect, bind, getsockname,
}
use hev_socks5_core.Proto.Cmd
use hev_socks5_core.Proto.Rep
use hev_socks5_core.Misc.Socket.{socks5_socket, get_connect_timeout, get_tcp_timeout}
use hev_socks5_core.Socks5.{Kind, tcp, udp_in_tcp, udp_in_udp}
use hev_socks5_core.Server.Defs.{Server, drop_fd, set_timeout}
use hev_socks5_core.Server.Negotiate.{server_auth}
use hev_socks5_core.Server.Request.{Request, read_request, write_response}

unfoldable pub set_fds0 : ℤ → M Server (Unit {0})
set_fds0 fd = modify (λ (s : Server). record s { fds0 = fd })

unfoldable pub set_fds1 : ℤ → M Server (Unit {0})
set_fds1 fd = modify (λ (s : Server). record s { fds1 = fd })

unfoldable pub set_kind : Kind → M Server (Unit {0})
set_kind kind = modify (λ (s : Server). record s { base = record s.base { kind = kind } })

-- `hev_task_del_fd (…); close (fd); return -1;`
unfoldable pub give_up : ℤ → M Server ℤ
unfolding drop_fd
give_up fd = do drop_fd fd; pure minus_one

module _ (host : Host) where
  -- hev_socks5_server_connect
  unfoldable pub server_connect : Sockaddr → M Server ℤ
  server_connect addr = do
    fd ← socks5_socket host stream
    if is_neg fd then pure minus_one else do
      hooked ← binder host fd addr
      if is_neg hooked then give_up fd else do
        set_timeout (get_connect_timeout host.config)
        res ← connect host fd addr
        if is_neg res
            then give_up fd
            else do set_timeout (get_tcp_timeout host.config); set_fds0 fd; pure (pos 0)

  -- hev_socks5_server_udp_bind, the `binder` of the server's class: the result and `*src`
  unfoldable pub udp_bind : ℤ → Sockaddr → M Server (ℤ × Sockaddr)
  udp_bind sock src = do
    s ← self
    local ← getsockname host s.fd
    elim local [
      | none ↦ pure (minus_one, src)
      | some name ↦ do
        let any : Sockaddr = record name { port = 0 ∷ 0 ∷ [] }
        res ← bind host sock any
        if is_neg res then pure (minus_one, any) else do
          got ← getsockname host sock
          elim got [ none ↦ pure (minus_one, any) | some there ↦ pure (pos 0, there) ]
    ]

  -- hev_socks5_server_bind with an address, from its second socket on
  unfoldable pub bind_second : Sockaddr → M Server (ℤ × Sockaddr)
  bind_second addr = do
    fd ← socks5_socket host dgram
    if is_neg fd then pure (minus_one, addr) else do
      reuse ← setsockopt host fd reuseaddr
      if is_neg reuse then (do res ← give_up fd; pure (res, addr)) else do
        (res, addr') ← udp_bind fd addr
        if is_neg res
            then (do r ← give_up fd; pure (r, addr'))
            else do set_fds1 fd; pure (pos 0, addr')

  -- hev_socks5_server_bind (self, &addr)
  unfoldable pub bind_addr : Sockaddr → M Server (ℤ × Sockaddr)
  bind_addr addr = do
    fd ← socks5_socket host dgram
    if is_neg fd then pure (minus_one, addr) else do set_fds0 fd; bind_second addr

  -- hev_socks5_server_bind (self, NULL)
  unfoldable pub bind_null : M Server ℤ
  bind_null = do
    fd ← socks5_socket host dgram
    if is_neg fd then pure minus_one else do set_fds0 fd; pure (pos 0)

  -- the `switch` over `cmd` in hev_socks5_server_handshake: `rep` and `addr` behind it
  unfoldable pub serve : ℕ → Sockaddr → M Server (ℕ × Sockaddr)
  serve cmd addr =
      if cmd == Cmd.connect
      then (do
        res ← server_connect addr
        set_kind tcp
        pure (if is_neg res then Rep.host else Rep.succ, addr))
      else if cmd == Cmd.udp_asc
      then (do
        (res, addr') ← bind_addr addr
        set_kind udp_in_udp
        pure (if is_neg res then Rep.fail else Rep.succ, addr'))
      else if cmd == Cmd.fwd_udp
      then (do
        res ← bind_null
        set_kind udp_in_tcp
        pure (if is_neg res then Rep.fail else Rep.succ, addr))
      else pure (Rep.impl, addr)

  -- `if (rep == HEV_SOCKS5_RES_REP_SUCC) switch (cmd) …`; an uninitialised `cmd` reaches the default
  unfoldable pub dispatch : Request → M Server (ℕ × Sockaddr)
  dispatch r =
      if not (r.rep == Rep.succ)
      then pure (r.rep, r.addr)
      else elim r.cmd [ none ↦ pure (Rep.impl, r.addr) | some cmd ↦ serve cmd r.addr ]

  -- the end of hev_socks5_server_handshake
  unfoldable pub reply : ℕ → Sockaddr → M Server ℤ
  reply rep addr = do
    res ← write_response host rep addr
    if is_neg res || not (rep == Rep.succ) then pure minus_one else pure (pos 0)

  -- hev_socks5_server_handshake, behind hev_socks5_server_auth
  unfoldable pub answer_request : M Server ℤ
  answer_request = do
    r ← read_request host Rep.succ (record { family = 0; port = 0 ∷ 0 ∷ []; addr = replicate 16 0 })
    if is_neg r.res then pure minus_one else do (rep, addr) ← dispatch r; reply rep addr

  -- hev_socks5_server_handshake
  unfoldable pub handshake : M Server ℤ
  handshake = do
    set_timeout (get_tcp_timeout host.config)
    res ← server_auth host
    if is_neg res then pure minus_one else answer_request
