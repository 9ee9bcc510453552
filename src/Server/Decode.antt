-- ===== src/Server/Decode.antt =====
-- The server reads what a client writes.
use hev_socks5_core.Base.{ℕ, ◌≡◌, some, Bytes, [], ◌∷◌, ◌++◌, length, drop, ==_refl}
use hev_socks5_core.Host.{Sockaddr, Host, Trace, received, got, exactly}
use hev_socks5_core.Wire.{consumed, Streams, recv_front, unread_after}
use hev_socks5_core.Server.Defs.{Server}
use hev_socks5_core.Server.Request.{rest_len, finish_request, read_addr, read_request}

pub exactly-length : (bytes : Bytes) → exactly (length bytes) (got bytes) ≡ some bytes
exactly-length bytes = rw (==_refl (length bytes))

-- a request for the command `cmd`, with the address of type `ty`
abbrev pub request_bytes : ℕ → ℕ → Bytes → Bytes
request_bytes cmd ty addr = 5 ∷ cmd ∷ 0 ∷ ty ∷ addr

module _ (host : Host) (inbox : Bytes) (s : Server) (streams : Streams host s.fd inbox) where
  read_addr-request :
      (t : Trace) (cmd rep ty len : ℕ) (more rest : Bytes) (sa : Sockaddr)
      → drop (consumed s.fd t) inbox ≡ more ++ rest
      → rest_len ty len ≡ some (length more)
      → read_addr host (5 ∷ cmd ∷ 0 ∷ ty ∷ len ∷ []) rep sa s t
        ≡ finish_request host cmd rep
            (ty ∷ len ∷ more)
            sa
            s
            (received s.fd (length more) (got more) ∷ t)
  unfolding read_addr
  read_addr-request t cmd rep ty len more rest sa e n =
      rw (n, read_addr, recv_front host s.fd inbox streams t more rest e, exactly-length more)

  -- Where the unread bytes begin with a request, hev_socks5_server_read_request takes exactly the
  -- request off the stream, and goes on with its command and its address.
  pub read_request-request :
      (t : Trace) (cmd rep ty len : ℕ) (more rest : Bytes) (sa : Sockaddr)
      → drop (consumed s.fd t) inbox ≡ request_bytes cmd ty (len ∷ more) ++ rest
      → rest_len ty len ≡ some (length more)
      → let front = 5 ∷ cmd ∷ 0 ∷ ty ∷ len ∷ [] in
        let t' = received s.fd (length more) (got more) ∷ received s.fd 5 (got front) ∷ t in
        (read_request host rep sa s t ≡ finish_request host cmd rep (ty ∷ len ∷ more) sa s t')
        × (drop (consumed s.fd t') inbox ≡ rest)
  unfolding read_request
  read_request-request t cmd rep ty len more rest sa e n =
      let front : Bytes = 5 ∷ cmd ∷ 0 ∷ ty ∷ len ∷ [] in
      let t1 : Trace = received s.fd 5 (got front) ∷ t in
      let e1 = unread_after host s.fd inbox streams t 5 front (more ++ rest) e in
      (
        rw (recv_front host s.fd inbox streams t front (more ++ rest) e)
            (read_addr-request t1 cmd rep ty len more rest sa e1 n),
        unread_after host s.fd inbox streams t1 (length more) more rest e1,
      )
