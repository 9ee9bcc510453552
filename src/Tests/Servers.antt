-- ===== src/Tests/Servers.antt =====
-- Runs of a server.
use hev_socks5_core.Base.{
  ◌+◌, ◌≡◌, refl, false, true, some, [], ◌∷◌, ◌++◌, Bytes, ℤ, pos, minus_one, is_neg, take, drop,
  get_or, replicate, arith,
}
use hev_socks5_core.Host.{Sockaddr, Trace, received, sent, got}
use hev_socks5_core.Socks5.{no_type}
use hev_socks5_core.Sockets.{sockets, opens, closes}
use hev_socks5_core.User
use hev_socks5_core.User.{User, compare_names}
use hev_socks5_core.Authenticator
use hev_socks5_core.Wire.{consumed, Streams}
use hev_socks5_core.Client.Messages.{creds_bytes}
use hev_socks5_core.Misc.Addr.{strlen}
use hev_socks5_core.Misc.Resolve.{addr_into_sockaddr6}
use hev_socks5_core.Misc.Socket.{socks5_socket, default_config}
use hev_socks5_core.Socks5
use hev_socks5_core.Server.Defs.{
  construct, Server, auth, nothing, user, set_timeout, set_addr_family, destruct,
}
use hev_socks5_core.Server.Negotiate.{
  find_user, accept, read_auth_method, send_all, write_auth_method, check_user, read_pass,
  read_auth_user, auth_user, server_auth,
}
use hev_socks5_core.Server.Request.{finish_request, read_addr, read_request, write_response}
use hev_socks5_core.Server.Handshake.{
  set_fds0, set_kind, server_connect, serve, dispatch, reply, answer_request, handshake,
}
use hev_socks5_core.Server.Decode.{request_bytes}
use hev_socks5_core.Server.DecodeCreds.{IsShort, block, read_auth_user-creds}
use hev_socks5_core.Server.Transcript.{checked, server_auth-accepts}
use hev_socks5_core.Server.Descriptors.{is_fd}
use hev_socks5_core.Server.Lifetime.{handshake-destruct}
use hev_socks5_core.Server.Outcome.{Serving, Replied, handshake-success}
use hev_socks5_core.Server.Run.{run, zero_server, server_new}
use hev_socks5_core.Server.Run.Balance.{run-destruct}
use hev_socks5_core.Server.Run.Gate.{run-gate}
use hev_socks5_core.Misc.Socket.{watch}
use hev_socks5_core.Tests.Worlds.{calm, two_users}

-- a server with an authenticator, and one without
abbrev guarded : Server
guarded = record {
  base = record {
    fd = pos 3;
    timeout = minus_one;
    kind = no_type;
    udp_associated = false;
    addr_family = 0;
  };
  fds0 = minus_one;
  fds1 = minus_one;
  obj = auth 9 two_users;
}

abbrev open_to_all : Server
open_to_all = record guarded { obj = nothing }

-- 127.0.0.1, port 80
abbrev home : Bytes
home = 127 ∷ 0 ∷ 0 ∷ 1 ∷ 0 ∷ 80 ∷ []

abbrev home_request : Bytes
home_request = request_bytes 1 1 home

abbrev guarded_inbox : Bytes
guarded_inbox = 5 ∷ 1 ∷ 2 ∷ 1 ∷ 1 ∷ 97 ∷ 2 ∷ 98 ∷ 99 ∷ home_request

abbrev nowhere : Sockaddr
nowhere = record { family = 0; port = 0 ∷ 0 ∷ []; addr = replicate 16 0 }

streams : (inbox : Bytes) (fd : ℤ) → Streams (calm inbox) fd inbox
streams inbox fd t n = refl

abbrev alice_creds : Bytes
alice_creds = creds_bytes (97 ∷ []) (98 ∷ 99 ∷ [])

creds_unread : drop (consumed (pos 3) []) alice_creds ≡ alice_creds ++ []
unfolding consumed creds_bytes strlen
creds_unread = refl

IsShort-a : IsShort (97 ∷ [])
unfolding strlen
IsShort-a = record { ended = refl; pos_len = ground arith; fits = ground arith }

IsShort-bc : IsShort (98 ∷ 99 ∷ [])
unfolding strlen
IsShort-bc = record { ended = refl; pos_len = ground arith; fits = ground arith }

read_auth_user-creds_example :
    let creds = creds_bytes (97 ∷ []) (98 ∷ 99 ∷ []) in
    let t1 = received (pos 3) 2 (got (1 ∷ 1 ∷ [])) ∷ [] in
    let t2 = received (pos 3) 2 (got (block (97 ∷ []) (98 ∷ 99 ∷ []))) ∷ t1 in
    let t3 = received (pos 3) 2 (got (98 ∷ 99 ∷ [])) ∷ t2 in
    (read_auth_user (calm creds) guarded []
      ≡ check_user (calm creds) (97 ∷ []) (98 ∷ 99 ∷ []) guarded t3)
    × (drop (consumed (pos 3) t3) creds ≡ [])
read_auth_user-creds_example =
    read_auth_user-creds (calm alice_creds) alice_creds guarded (streams alice_creds (pos 3))
      (97 ∷ []) (98 ∷ 99 ∷ []) [] [] IsShort-a IsShort-bc creds_unread

-- the whole handshake of a guarded server succeeds
guarded_accepts : is_neg (server_auth (calm guarded_inbox) guarded []).0 ≡ false
unfolding server_auth auth_user read_auth_user read_auth_method write_auth_method send_all
    check_user read_pass consumed find_user accept Authenticator.get User.check User.compare_names
guarded_accepts = refl

server_auth-accepts_example :
    (u : User) × (head b : Bytes) × (r : ℤ) × (t' : Trace) × (Authenticator.get two_users
        (take (get_or head 1 0) b)
      ≡ some u)
    × ((server_auth (calm guarded_inbox) guarded []).1 ≡ record guarded { obj = user u })
    × ((server_auth (calm guarded_inbox) guarded []).2
        ≡ sent (pos 3) (1 ∷ 0 ∷ []) r ∷ checked (pos 3) 9 u head b t')
server_auth-accepts_example =
    server_auth-accepts (calm guarded_inbox) guarded 9 two_users refl [] guarded_accepts

handshake-destruct_example :
    let (_, s1, t1) = handshake (calm guarded_inbox) guarded [] in
    let (_, _, t2) = destruct s1 t1 in
    closes (pos 3) t2 + opens (pos 3) [] ≡ closes (pos 3) [] + opens (pos 3) t2 + is_fd 3 (pos 3)
handshake-destruct_example = handshake-destruct (calm guarded_inbox) 3 guarded [] refl refl

run-destruct_example :
    let (_, s1, t1) = run (calm guarded_inbox) 1 guarded [] in
    let (_, _, t2) = destruct s1 t1 in
    closes (pos 3) t2 + opens (pos 3) [] ≡ closes (pos 3) [] + opens (pos 3) t2 + is_fd 3 (pos 3)
run-destruct_example = run-destruct (calm guarded_inbox) 3 1 guarded [] refl refl

guarded_serves : is_neg (handshake (calm guarded_inbox) guarded []).0 ≡ false
unfolding handshake answer_request server_auth auth_user read_auth_user read_auth_method
    write_auth_method send_all check_user read_pass consumed find_user accept Authenticator.get
    User.check User.compare_names set_timeout read_request read_addr finish_request dispatch serve
    server_connect reply write_response addr_into_sockaddr6 socks5_socket set_fds0 set_kind
    set_addr_family
guarded_serves = refl

handshake-success_example :
    Serving (handshake (calm guarded_inbox) guarded []).1
    × Replied
        (handshake (calm guarded_inbox) guarded []).1
        (handshake (calm guarded_inbox) guarded []).2
handshake-success_example = handshake-success (calm guarded_inbox) guarded [] guarded_serves

-- a client that offers no method but 0 is turned away
abbrev timed : Server
timed = (set_timeout default_config.tcp_timeout guarded []).1

turned_away : is_neg (server_auth (calm (5 ∷ 1 ∷ 0 ∷ [])) timed []).0 ≡ true
unfolding server_auth read_auth_method write_auth_method send_all consumed set_timeout
turned_away = refl

-- the same client, with its descriptor registered first
abbrev registered : Trace
registered = (watch (calm (5 ∷ 1 ∷ 0 ∷ [])) guarded.fd guarded []).2

turned_away-registered :
    is_neg
      (server_auth
        (calm (5 ∷ 1 ∷ 0 ∷ []))
        (set_timeout default_config.tcp_timeout guarded registered).1
        registered).0
    ≡ true
unfolding server_auth read_auth_method write_auth_method send_all consumed set_timeout watch
turned_away-registered = refl

run-gate_example :
    let host = calm (5 ∷ 1 ∷ 0 ∷ []) in
    let (res, s', t') = run host 1 guarded [] in
    (res ≡ some minus_one)
    × (sockets t' ≡ sockets (watch host guarded.fd guarded []).2)
    × (s'.fds0 ≡ guarded.fds0)
    × (s'.fds1 ≡ guarded.fds1)
run-gate_example = run-gate (calm (5 ∷ 1 ∷ 0 ∷ [])) 1 guarded [] turned_away-registered

abbrev fresh : Server
fresh = (construct (pos 0) (pos 3) zero_server).1

server_new-fresh : (server_new (calm guarded_inbox) 64 (pos 0) (pos 3) []).0 ≡ some fresh
unfolding server_new construct Socks5.construct
server_new-fresh = refl
