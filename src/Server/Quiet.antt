-- ===== src/Server/Quiet.antt =====
-- What authentication sends, and what it leaves as it is.
use hev_socks5_core.Base.{pos, minus_one, is_nonpos, if◌then◌else◌, ◌∷◌, ◌≡◌, Bytes, arith}
use hev_socks5_core.Host.{sent, Host, Trace}
use hev_socks5_core.Server.Defs.{Server}
use hev_socks5_core.Server.Negotiate.{read_auth_method, send_all}

module _ (host : Host) (s : Server) (t : Trace) where
  pub read_auth_method_self : (read_auth_method host s t).1 ≡ s
  unfolding read_auth_method
  read_auth_method_self = ground arith

  -- a message is handed over whole, and only its result is looked at
  pub send_all-run :
      (bytes : Bytes)
      → send_all host bytes s t ≡ (
        if is_nonpos (host.on_send t s.fd bytes) then minus_one else pos 0,
        s,
        sent s.fd bytes (host.on_send t s.fd bytes) ∷ t,
      )
  unfolding send_all
  send_all-run bytes = ground arith
