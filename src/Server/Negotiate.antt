-- ===== src/Server/Negotiate.antt =====
-- The negotiation of a method and of the credentials in src/hev-socks5-server.c.
use hev_socks5_core.Base.{
  ℕ, ◌+◌, not, Option, none, some, Bytes, [], ◌∷◌, ℤ, pos, minus_one, is_neg, is_nonpos, is_pos,
  to_byte, or_ℤ, ◌==◌, get_or, take, if◌then◌else◌,
}
use hev_socks5_core.Host.{
  Host, M, pure, self, modify, ◌>>=◌, ◌>>◌, exactly, recv, send, object_ref, object_unref, emit,
  faulted,
}
use hev_socks5_core.Proto.{version_5}
use hev_socks5_core.Proto.Method
use hev_socks5_core.User
use hev_socks5_core.User.{User}
use hev_socks5_core.Authenticator
use hev_socks5_core.Server.Defs.{Server, Holder, nothing, auth, user}

-- `if (self->auth)` chooses the method that is asked for
unfoldable pub required_method : Holder → ℕ
required_method nothing = Method.no_auth
required_method _ = Method.user

-- the loop over `auth.methods`
unfoldable pub select_method : ℕ → Bytes → ℤ
select_method method [] = minus_one
select_method method (m ∷ ms) = if m == method then pos method else select_method method ms

-- hev_socks5_authenticator_get (self->auth, …). With an accepted user in the union, which is what a
-- second handshake of one object finds there, the search reads a user as an authenticator.
unfoldable pub find_user : Holder → Bytes → M Server (Option User)
find_user (auth id tree) name = pure (Authenticator.get tree name)
find_user _ name = do emit faulted; pure none

-- the end of hev_socks5_server_read_auth_user: the union takes the user
unfoldable pub accept : Holder → User → M Server ℤ
accept (auth id tree) u = do
  object_ref u.id
  object_unref id
  modify (λ (s : Server). record s { obj = user u })
  pure (pos 0)
accept _ u = pure minus_one

module _ (host : Host) where
  -- hev_socks5_server_read_auth_method
  unfoldable pub read_auth_method : M Server ℤ
  unfolding required_method select_method
  read_auth_method = do
    s ← self
    head ← recv host s.fd 2
    elim (exactly 2 head) [
      | none ↦ pure minus_one
      | some h ↦ if not (get_or h 0 0 == version_5) then pure minus_one else do
        methods ← recv host s.fd (get_or h 1 0)
        elim (exactly (get_or h 1 0) methods) [
          | none ↦ pure minus_one
          | some ms ↦ pure (select_method (required_method s.obj) ms)
        ]
    ]

  -- the result of a send: -1 unless something was sent
  unfoldable pub send_all : Bytes → M Server ℤ
  send_all bytes = do
    s ← self
    res ← send host s.fd bytes
    if is_nonpos res then pure minus_one else pure (pos 0)

  -- hev_socks5_server_write_auth_method
  unfoldable pub write_auth_method : ℤ → M Server ℤ
  unfolding send_all
  write_auth_method method = send_all (version_5 ∷ to_byte method ∷ [])

  -- hev_socks5_server_read_auth_user, from the search on
  unfoldable pub check_user : Bytes → Bytes → M Server ℤ
  check_user name pass = do
    s ← self
    found ← find_user s.obj name
    elim found [
      | none ↦ pure minus_one
      | some u ↦ if is_neg (User.check u pass) then pure minus_one else accept s.obj u
    ]

  -- hev_socks5_server_read_auth_user, behind the name of `nlen` bytes and the byte `plen`
  unfoldable pub read_pass : ℕ → Bytes → M Server ℤ
  unfolding check_user
  read_pass nlen block = if get_or block nlen 0 == 0 then pure minus_one else do
    s ← self
    pass ← recv host s.fd (get_or block nlen 0)
    elim (exactly (get_or block nlen 0) pass) [
      | none ↦ pure minus_one
      | some p ↦ check_user (take nlen block) p
    ]

  -- hev_socks5_server_read_auth_user
  unfoldable pub read_auth_user : M Server ℤ
  unfolding read_pass
  read_auth_user = do
    s ← self
    head ← recv host s.fd 2
    elim (exactly 2 head) [
      | none ↦ pure minus_one
      | some h ↦
          if not (get_or h 0 0 == 1)
          then pure minus_one
          else if get_or h 1 0 == 0
          then pure minus_one
          else do
            name ← recv host s.fd (get_or h 1 0 + 1)
            elim (exactly (get_or h 1 0 + 1) name) [
              | none ↦ pure minus_one
              | some block ↦ read_pass (get_or h 1 0) block
            ]
    ]

  -- hev_socks5_server_write_auth_user
  unfoldable pub write_auth_user : ℤ → M Server ℤ
  unfolding send_all
  write_auth_user auth_res = send_all (1 ∷ to_byte auth_res ∷ [])

  -- the case HEV_SOCKS5_AUTH_METHOD_USER of hev_socks5_server_auth
  unfoldable pub auth_user : M Server ℤ
  unfolding read_auth_user write_auth_user or_ℤ
  auth_user = do
    res ← read_auth_user
    written ← write_auth_user res
    if is_neg (or_ℤ res written) then pure minus_one else pure (pos 0)

  -- hev_socks5_server_auth
  unfoldable pub server_auth : M Server ℤ
  unfolding read_auth_method write_auth_method auth_user
  server_auth = do
    method ← read_auth_method
    res ← write_auth_method method
    if is_neg res
        then pure minus_one
        else if is_pos method Method.no_auth
        then pure (pos 0)
        else if is_pos method Method.user
        then auth_user
        else pure minus_one
