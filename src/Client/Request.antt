-- ===== src/Client/Request.antt =====
-- The request of a client: what it sends, what becomes of the address, and what a server reads.
use hev_socks5_core.Base.{
  ℕ, suc, ◌+◌, ◌≤◌, ◌≡◌, refl, ◌∙◌, sym, ap, [], ◌∷◌, ◌++◌, Bytes, none, some, pos, minus_one,
  is_nonpos, arith, if◌then◌else◌, Bool-cases, inl, inr, ◌==◌, take, drop, length, length-take,
}
use hev_socks5_core.Host.{Host, Sockaddr, Trace, sent, freed, received, got}
use hev_socks5_core.Wire.{consumed, Streams}
use hev_socks5_core.Misc.Addr.{Addr}
use hev_socks5_core.Socks5.{tcp}
use hev_socks5_core.Server.Defs.{Server}
use hev_socks5_core.Server.Request.{rest_len, finish_request, read_request}
use hev_socks5_core.Server.Decode.{read_request-request}
use hev_socks5_core.Client.Defs.{Client, tcp_client}
use hev_socks5_core.Client.Upstream.{set_variant, upstream_of, get_upstream_addr}
use hev_socks5_core.Client.Messages.{command_of, sent_len, send_all, send_request, write_request}

-- the message for the command `cmd` and the first n bytes of an address
abbrev pub request_message : ℕ → ℕ → Addr → Bytes
request_message cmd n a = 5 ∷ cmd ∷ 0 ∷ take n a

-- a TCP client after its address was taken
abbrev pub spent : Client → Client
spent c = record c { variant = tcp_client none }

module _ (host : Host) (c : Client) (t : Trace) where
  pub send_all-run :
      (b : Bytes)
      → send_all host b c t ≡ (
        if is_nonpos (host.on_send t c.fd b) then minus_one else pos 0,
        c,
        sent c.fd b (host.on_send t c.fd b) ∷ t,
      )
  unfolding send_all
  send_all-run b = ground arith

  send_request-run :
      (cmd : ℕ) (a : Addr) (n : ℕ)
      → sent_len a ≡ some n
      → let message = request_message cmd n a in
        let r = host.on_send t c.fd message in
        send_request host cmd (some a) c t ≡ (
          if is_nonpos r
          then (minus_one, c, sent c.fd message r ∷ t)
          else (pos 0, c, freed ∷ sent c.fd message r ∷ t))
  unfolding send_request
  send_request-run cmd a n l =
      let message : Bytes = request_message cmd n a in
      elim (Bool-cases (is_nonpos (host.on_send t c.fd message))) [
        | inl bad ↦ rw (l, send_request, send_all-run message, bad) refl
        | inr good ↦ rw (l, send_request, send_all-run message, good) refl
      ]

module _ (host : Host) (c : Client) (t : Trace) where
  -- For a TCP client that holds an address of a known type, of n bytes,
  -- hev_socks5_client_write_request sends one message with the command CONNECT and these bytes, and
  -- the client holds the address no more. If the send has a positive result, the result is 0 and the
  -- address is freed; otherwise the result is -1 and the address is not freed.
  pub write_request-tcp :
      (a : Addr) (n : ℕ)
      → c.kind ≡ tcp
      → c.variant ≡ tcp_client (some a)
      → sent_len a ≡ some n
      → let message = request_message 1 n a in
        let r = host.on_send t c.fd message in
        write_request host c t ≡ (
          if is_nonpos r
          then (minus_one, spent c, sent c.fd message r ∷ t)
          else (pos 0, spent c, freed ∷ sent c.fd message r ∷ t))
  unfolding write_request get_upstream_addr upstream_of set_variant command_of
  write_request-tcp a n k v l =
      let connect : command_of c.kind ≡ some 1 = rw k refl in
      rw (connect, write_request, v) (send_request-run host (spent c) t 1 a n l)

-- what the client counts from the type on, the server counts behind the first byte
sent_len-rest_len :
    (ty len n : ℕ) (more : Bytes)
    → sent_len (ty ∷ len ∷ more) ≡ some n
    → (k : ℕ) × (n ≡ suc (suc k)) × (rest_len ty len ≡ some k)
unfolding sent_len rest_len
sent_len-rest_len ty len n more e = elim (Bool-cases (ty == 1)) [
  | inl x ↦ (5, ground arith, ground arith)
  | inr x ↦ elim (Bool-cases (ty == 4)) [
    | inl y ↦ (17, ground arith, ground arith)
    | inr y ↦ elim (Bool-cases (ty == 3)) [
      | inl z ↦ (2 + len, ground arith, ground arith)
      | inr z ↦ absurd (ground arith)
    ]
  ]
]

-- Where the unread bytes of a server begin with the message that a client sends for a command and an
-- address of a known type, of n bytes, hev_socks5_server_read_request takes exactly this message off
-- the stream, and goes on with that command and that address.
pub request-roundtrip :
    (host : Host) (inbox : Bytes) (s : Server) (t : Trace)
    → Streams host s.fd inbox
    → (cmd rep ty len n : ℕ) (more rest : Bytes) (sa : Sockaddr)
    → sent_len (ty ∷ len ∷ more) ≡ some n
    → n ≤ length (ty ∷ len ∷ more)
    → drop (consumed s.fd t) inbox ≡ request_message cmd n (ty ∷ len ∷ more) ++ rest
    → (t' : Trace) × (read_request host rep sa s t
        ≡ finish_request host cmd rep (take n (ty ∷ len ∷ more)) sa s t')
      × (drop (consumed s.fd t') inbox ≡ rest)
request-roundtrip host inbox s t streams cmd rep ty len n more rest sa e h unread =
    let (k, two, r) = sent_len-rest_len ty len n more e in
    let l : length (take k more) ≡ k = length-take k more (omega arith) in
    let same : take n (ty ∷ len ∷ more) ≡ ty ∷ len ∷ take k more =
      ap (λ m. take m (ty ∷ len ∷ more)) two in
    let start : drop (consumed s.fd t) inbox ≡ (5 ∷ cmd ∷ 0 ∷ ty ∷ len ∷ take k more) ++ rest =
      unread ∙ ap (λ b. (5 ∷ cmd ∷ 0 ∷ b) ++ rest) same in
    let (run, left) =
      read_request-request host inbox s streams t cmd rep ty len (take k more) rest sa start
        (r ∙ ap some (sym l)) in
    let t1 : Trace = received s.fd 5 (got (5 ∷ cmd ∷ 0 ∷ ty ∷ len ∷ [])) ∷ t in
    let t2 : Trace = received s.fd (length (take k more)) (got (take k more)) ∷ t1 in
    (t2, run ∙ ap (λ b. finish_request host cmd rep b sa s t2) (sym same), left)
