-- ===== src/Client/Messages.antt =====
-- The messages of a client: src/hev-socks5-client.c.
use hev_socks5_core.Base.{
  ℕ, ◌+◌, ◌%◌, not, Option, none, some, Bytes, [], ◌∷◌, ◌++◌, ℤ, pos, minus_one, is_neg, is_nonpos,
  ◌==◌, get_or, take, if◌then◌else◌,
}
use hev_socks5_core.Host.{
  Host, M, pure, self, ◌>>=◌, ◌>>◌, exactly, recv, send, emit, freed, faulted,
}
use hev_socks5_core.Proto.{version_5, auth_version_1}
use hev_socks5_core.Proto.Method
use hev_socks5_core.Proto.Cmd
use hev_socks5_core.Proto.Rep
use hev_socks5_core.Proto.AddrType
use hev_socks5_core.Misc.Addr.{Addr, atype, domain_len, strlen}
use hev_socks5_core.Socks5.{Kind, no_type, tcp, udp_in_tcp, udp_in_udp}
use hev_socks5_core.Client.Defs.{Client}
use hev_socks5_core.Client.Upstream.{get_upstream_addr, set_upstream_addr}

-- `auth.methods[0]`: the credentials are used only if both are there
unfoldable pub offered_method : Option Bytes → Option Bytes → ℕ
offered_method (some name) (some pass) = Method.user
offered_method _ _ = Method.no_auth

-- the four buffers of hev_socks5_client_write_auth_creds; each length is stored in a byte
unfoldable pub creds_bytes : Bytes → Bytes → Bytes
unfolding strlen
creds_bytes name pass =
    (auth_version_1 ∷ (strlen name % 256) ∷ take (strlen name % 256) name)
    ++ ((strlen pass % 256) ∷ take (strlen pass % 256) pass)

-- the `switch` over the type of the object
unfoldable pub command_of : Kind → Option ℕ
command_of no_type = none
command_of tcp = some Cmd.connect
command_of udp_in_tcp = some Cmd.fwd_udp
command_of udp_in_udp = some Cmd.udp_asc

-- the `switch` over `addr->atype`
unfoldable pub sent_len : Addr → Option ℕ
sent_len a =
    if atype a == AddrType.ipv4
    then some 7
    else if atype a == AddrType.ipv6
    then some 19
    else if atype a == AddrType.name
    then some (4 + domain_len a)
    else none

-- the `switch` over `res.addr.atype`
unfoldable pub response_len : ℕ → Option ℕ
response_len t = if t == AddrType.ipv4 then some 6 else if t == AddrType.ipv6 then some 18 else none

module _ (host : Host) where
  unfoldable pub send_all : Bytes → M Client ℤ
  send_all bytes = do
    c ← self
    res ← send host c.fd bytes
    if is_nonpos res then pure minus_one else pure (pos 0)

  -- hev_socks5_client_write_auth_methods
  unfoldable pub write_auth_methods : M Client ℤ
  unfolding send_all offered_method
  write_auth_methods = do
    c ← self
    send_all (version_5 ∷ 1 ∷ offered_method c.auth_user c.auth_pass ∷ [])

  unfoldable pub send_creds : Option Bytes → Option Bytes → M Client ℤ
  unfolding send_all creds_bytes
  send_creds (some name) (some pass) = send_all (creds_bytes name pass)
  send_creds _ _ = pure (pos 0)

  -- hev_socks5_client_write_auth_creds
  unfoldable pub write_auth_creds : M Client ℤ
  unfolding send_creds
  write_auth_creds = do c ← self; send_creds c.auth_user c.auth_pass

  -- hev_socks5_client_write_request, with its address
  unfoldable pub send_request : ℕ → Option Addr → M Client ℤ
  send_request cmd none = do emit faulted; pure minus_one
  send_request cmd (some addr) = elim (sent_len addr) [
    | none ↦ pure minus_one
    | some n ↦ do
      res ← send_all (version_5 ∷ cmd ∷ 0 ∷ take n addr)
      if is_neg res then pure minus_one else do emit freed; pure (pos 0)
  ]

  -- hev_socks5_client_write_request
  unfoldable pub write_request : M Client ℤ
  write_request = do
    c ← self
    elim (command_of c.kind) [
      | none ↦ pure minus_one
      | some cmd ↦ do addr ← get_upstream_addr host; send_request cmd addr
    ]

  -- hev_socks5_client_read_auth_method
  unfoldable pub read_auth_method : M Client ℤ
  read_auth_method = do
    c ← self
    head ← recv host c.fd 2
    elim (exactly 2 head) [
      | none ↦ pure minus_one
      | some h ↦
          if not (get_or h 0 0 == version_5) then pure minus_one else pure (pos (get_or h 1 0))
    ]

  -- hev_socks5_client_read_auth_creds
  unfoldable pub read_auth_creds : M Client ℤ
  read_auth_creds = do
    c ← self
    head ← recv host c.fd 2
    elim (exactly 2 head) [
      | none ↦ pure minus_one
      | some h ↦
          if not (get_or h 0 0 == auth_version_1)
          then pure minus_one
          else if not (get_or h 1 0 == Rep.succ)
          then pure minus_one
          else pure (pos 0)
    ]

  -- hev_socks5_client_read_response, behind the first four bytes `h`
  unfoldable pub read_bound_addr : Bytes → M Client ℤ
  unfolding response_len set_upstream_addr
  read_bound_addr h = elim (response_len (get_or h 3 0)) [
    | none ↦ pure minus_one
    | some n ↦ do
      c ← self
      rest ← recv host c.fd n
      elim (exactly n rest) [
        | none ↦ pure minus_one
        | some r ↦ do
          res ← set_upstream_addr host (get_or h 3 0 ∷ r)
          if is_neg res then pure minus_one else pure (pos 0)
      ]
  ]

  -- hev_socks5_client_read_response
  unfoldable pub read_response : M Client ℤ
  unfolding read_bound_addr
  read_response = do
    c ← self
    head ← recv host c.fd 4
    elim (exactly 4 head) [
      | none ↦ pure minus_one
      | some h ↦
          if not (get_or h 0 0 == version_5)
          then pure minus_one
          else if not (get_or h 1 0 == Rep.succ)
          then pure minus_one
          else read_bound_addr h
    ]
