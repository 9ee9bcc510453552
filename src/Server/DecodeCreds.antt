-- ===== src/Server/DecodeCreds.antt =====
-- The server reads the credentials that a client writes.
use mathlib.Core.List.{append_assoc}
use hev_socks5_core.Base.{
  ℕ, ◌+◌, ◌%◌, ◌<◌, ◌≡◌, refl, ◌∙◌, sym, ap, false, some, Bytes, [], ◌∷◌, ◌++◌, arith, ◌==◌, length,
  drop, get_or, take-append, take_all, length-append,
}
use hev_socks5_core.Host.{Host, Trace, received, got, exactly}
use hev_socks5_core.Misc.Addr.{strlen}
use hev_socks5_core.Wire.{consumed, Streams, recv_front, unread_after}
use hev_socks5_core.Client.Messages.{creds_bytes}
use hev_socks5_core.Server.Defs.{Server}
use hev_socks5_core.Server.Negotiate.{check_user, read_pass, read_auth_user}
use hev_socks5_core.Server.Decode.{exactly-length}

get_or-append : (xs : Bytes) (y : ℕ) (ys : Bytes) → get_or (xs ++ (y ∷ ys)) (length xs) 0 ≡ y
get_or-append [] y ys = refl
get_or-append (x ∷ xs) y ys = get_or-append xs y ys

-- a C string of at most 255 characters, and not an empty one
pub record IsShort (bytes : Bytes) : Type 0 where
  pub ended : strlen bytes ≡ length bytes
  pub pos_len : 0 < length bytes
  pub fits : length bytes < 256

pub creds_bytes-short :
    (name pass : Bytes)
    → IsShort name
    → IsShort pass
    → creds_bytes name pass ≡ (1 ∷ length name ∷ name) ++ (length pass ∷ pass)
unfolding creds_bytes
creds_bytes-short name pass n p =
    let en : strlen name % 256 ≡ length name = omega (arith, n.ended, n.fits) in
    let ep : strlen pass % 256 ≡ length pass = omega (arith, p.ended, p.fits) in
    rw
      (en, ep, take_all name (length name) (omega arith), take_all pass (length pass) (omega arith))

-- what is read together: the name, and the length of the password
abbrev pub block : Bytes → Bytes → Bytes
block name pass = name ++ (length pass ∷ [])

module _ (host : Host) (inbox : Bytes) (s : Server) (streams : Streams host s.fd inbox)
    (name pass : Bytes) where
  read_pass-creds :
      (t : Trace) (rest : Bytes)
      → drop (consumed s.fd t) inbox ≡ pass ++ rest
      → 0 < length pass
      → read_pass host (length name) (block name pass) s t
        ≡ check_user host name pass s (received s.fd (length pass) (got pass) ∷ t)
  unfolding read_pass
  read_pass-creds t rest e h =
      let nonzero : (length pass == 0) ≡ false = ground arith in
      let plen = get_or-append name (length pass) [] in
      rw
        (
          plen,
          read_pass,
          nonzero,
          recv_front host s.fd inbox streams t pass rest e,
          plen,
          exactly-length pass,
          take-append name,
        )
        refl

  -- Where the unread bytes begin with what hev_socks5_client_write_auth_creds sends for a name and a
  -- password of 1 to 255 characters, hev_socks5_server_read_auth_user takes exactly these off the
  -- stream, and checks that name and that password.
  pub read_auth_user-creds :
      (t : Trace) (rest : Bytes)
      → IsShort name
      → IsShort pass
      → drop (consumed s.fd t) inbox ≡ creds_bytes name pass ++ rest
      → let head = 1 ∷ length name ∷ [] in
        let t1 = received s.fd 2 (got head) ∷ t in
        let t2 = received s.fd (length name + 1) (got (block name pass)) ∷ t1 in
        let t3 = received s.fd (length pass) (got pass) ∷ t2 in
        (read_auth_user host s t ≡ check_user host name pass s t3)
        × (drop (consumed s.fd t3) inbox ≡ rest)
  unfolding read_auth_user
  read_auth_user-creds t rest n p e =
      let head : Bytes = 1 ∷ length name ∷ [] in
      let t1 : Trace = received s.fd 2 (got head) ∷ t in
      let t2 : Trace = received s.fd (length name + 1) (got (block name pass)) ∷ t1 in
      let e0 : drop (consumed s.fd t) inbox ≡ head ++ (block name pass ++ (pass ++ rest)) =
        e
        ∙ ap (λ b. b ++ rest) (creds_bytes-short name pass n p)
        ∙ ap (λ b. 1 ∷ length name ∷ b)
            (append_assoc name (length pass ∷ pass) rest
              ∙ sym (append_assoc name (length pass ∷ []) (pass ++ rest))) in
      let e1 =
        unread_after host s.fd inbox streams t 2 head (block name pass ++ (pass ++ rest)) e0 in
      let e2 =
        unread_after host s.fd inbox streams t1 (length name + 1) (block name pass) (pass ++ rest)
          e1 in
      let some_name : (length name == 0) ≡ false = ground (arith, n.pos_len) in
      let l : length (block name pass) ≡ length name + 1 =
        omega (arith, length-append name (length pass ∷ [])) in
      let r : host.on_recv t1 s.fd (length name + 1) ≡ got (block name pass) =
        rw (← l) (recv_front host s.fd inbox streams t1 (block name pass) (pass ++ rest) e1) in
      let x : exactly (length name + 1) (got (block name pass)) ≡ some (block name pass) =
        rw (← l) (exactly-length (block name pass)) in
      (
        rw
            (
              recv_front host s.fd inbox streams t head (block name pass ++ (pass ++ rest)) e0,
              read_auth_user,
              some_name,
              r,
              x,
            )
            (read_pass-creds t2 rest e2 p.pos_len),
        unread_after host s.fd inbox streams t2 (length pass) pass rest e2,
      )
