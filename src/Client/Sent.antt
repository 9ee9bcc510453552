-- ===== src/Client/Sent.antt =====
-- What the handshakes of a client send, against RFC 1928 and RFC 1929.
use hev_socks5_core.Base.{
  suc, ◌+◌, ◌≡◌, refl, ◌∙◌, ap, false, [], ◌∷◌, ◌++◌, Bytes, Option, none, some, is_neg, arith,
  length, length-append, take_all,
}
use hev_socks5_core.Host.{Host, Trace}
use hev_socks5_core.Wire.{outgoing}
use hev_socks5_core.Socks5.{tcp}
use hev_socks5_core.Client.Defs.{Client, tcp_client}
use hev_socks5_core.Client.Messages.{offered_method, sent_len}
use hev_socks5_core.Client.Request.{request_message}
use hev_socks5_core.Client.Pipeline.{greeting, creds_of, handshake_pipeline-out}
use hev_socks5_core.Client.Handshake.{handshake_pipeline}
use hev_socks5_core.Server.DecodeCreds.{IsShort, creds_bytes-short}

-- an address of the protocol
pub data Dest : Type 0 where
  dest4 dest6 dest_name : Bytes → Bytes → Dest

-- the type, the length of a name, the address and the port
abbrev pub encoded : Dest → Bytes
encoded (dest4 v port) = 1 ∷ (v ++ port)
encoded (dest6 v port) = 4 ∷ (v ++ port)
encoded (dest_name name port) = 3 ∷ length name ∷ (name ++ port)

-- 4 bytes, 16 bytes or a name; the port has 2 bytes
abbrev pub HasSizes : Dest → Type 0
HasSizes (dest4 v port) = (length v ≡ 4) × (length port ≡ 2)
HasSizes (dest6 v port) = (length v ≡ 16) × (length port ≡ 2)
HasSizes (dest_name name port) = length port ≡ 2

-- one method: 2 (name and password) where both are set, or else 0
abbrev pub hello : Option Bytes → Option Bytes → Bytes
hello (some name) (some pass) = 5 ∷ 1 ∷ 2 ∷ []
hello (some name) none = 5 ∷ 1 ∷ 0 ∷ []
hello none pass = 5 ∷ 1 ∷ 0 ∷ []

-- the version 1, and the name and the password, each behind its length
abbrev pub login : Option Bytes → Option Bytes → Bytes
login (some name) (some pass) = 1 ∷ length name ∷ (name ++ (length pass ∷ pass))
login (some name) none = []
login none pass = []

-- 1 to 255 characters each, where both are set
abbrev pub FitLogin : Option Bytes → Option Bytes → Type 0
FitLogin (some name) (some pass) = IsShort name × IsShort pass
FitLogin (some name) none = Unit {0}
FitLogin none pass = Unit {0}

sent_len-encoded : (x : Dest) → HasSizes x → sent_len (encoded x) ≡ some (length (encoded x))
unfolding sent_len
sent_len-encoded (dest4 v port) (l, p) =
    let n : length (v ++ port) ≡ 6 = length-append v port ∙ omega arith in rw n refl
sent_len-encoded (dest6 v port) (l, p) =
    let n : length (v ++ port) ≡ 18 = length-append v port ∙ omega arith in rw n refl
sent_len-encoded (dest_name name port) p =
    let n : 4 + length name ≡ suc (suc (length (name ++ port))) =
      omega (arith, length-append name port) in
    ap some n

hello_lem : (name pass : Option Bytes) → 5 ∷ 1 ∷ offered_method name pass ∷ [] ≡ hello name pass
unfolding offered_method
hello_lem (some name) (some pass) = refl
hello_lem (some name) none = refl
hello_lem none pass = refl

greeting-hello : (c : Client) → greeting c ≡ hello c.auth_user c.auth_pass
greeting-hello c = hello_lem c.auth_user c.auth_pass

creds_of-login :
    (name pass : Option Bytes) → FitLogin name pass → creds_of name pass ≡ login name pass
creds_of-login (some name) (some pass) (n, p) = creds_bytes-short name pass n p
creds_of-login (some name) none h = refl
creds_of-login none pass h = refl

request-encoded :
    (x : Dest) → request_message 1 (length (encoded x)) (encoded x) ≡ 5 ∷ 1 ∷ 0 ∷ encoded x
request-encoded x =
    ap (λ b. 5 ∷ 1 ∷ 0 ∷ b) (take_all (encoded x) (length (encoded x)) (omega arith))

module _ (host : Host) (c : Client) (t : Trace) (x : Dest) where
  -- For a TCP client that holds an IPv4 address, an IPv6 address or a name with a port, of the
  -- sizes of the protocol, and whose name and password have 1 to 255 characters each where both are
  -- set: if the pipelined handshake returns 0, the bytes sent to the server are the message with
  -- one method (2 if both are set, or else 0), the lengths and the characters of the name and the
  -- password if both are set, and the request with the command CONNECT and the address, in this
  -- order.
  pub handshake_pipeline-sends :
      HasSizes x
      → FitLogin c.auth_user c.auth_pass
      → c.kind ≡ tcp
      → c.variant ≡ tcp_client (some (encoded x))
      → is_neg (handshake_pipeline host c t).0 ≡ false
      → outgoing c.fd (handshake_pipeline host c t).2
        ≡ ((outgoing c.fd t ++ hello c.auth_user c.auth_pass) ++ login c.auth_user c.auth_pass)
          ++ (5 ∷ 1 ∷ 0 ∷ encoded x)
  handshake_pipeline-sends sizes fits k v e =
      let out =
        handshake_pipeline-out host c t (encoded x) (length (encoded x)) k v
          (sent_len-encoded x sizes) e in
      let h = greeting-hello c in
      let l = creds_of-login c.auth_user c.auth_pass fits in out ∙ rw (h, l, request-encoded x) refl
