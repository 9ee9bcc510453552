-- ===== src/Tests/Sessions.antt =====
-- A client and a server that are connected to each other.
use hev_socks5_core.Base.{
  ◌≡◌, refl, false, true, some, [], ◌∷◌, Bytes, pos, minus_one, drop, arith, subst, sym, ℤ, or_ℤ,
}
use hev_socks5_core.Misc.Addr.{strlen, addr_from_sockaddr6, ipv4_into_sockaddr6, is_v4mapped}
use hev_socks5_core.Misc.Resolve.{addr_into_sockaddr6}
use hev_socks5_core.Misc.Socket.{socks5_socket, watch, grow_buffer, default_config}
use hev_socks5_core.Socks5
use hev_socks5_core.Socks5.{tcp, no_type}
use hev_socks5_core.Wire.{consumed, outgoing, Streams}
use hev_socks5_core.User
use hev_socks5_core.Authenticator
use hev_socks5_core.Client.Defs.{Client, tcp_client}
use hev_socks5_core.Client.Handshake.{handshake as client_handshake}
use hev_socks5_core.Server.Defs.{Server, auth, user, set_timeout, drop_fd, set_addr_family}
use hev_socks5_core.Server.Negotiate.{
  server_auth, find_user, accept, auth_user, check_user, read_auth_method, read_auth_user,
  read_pass, required_method, select_method, send_all, write_auth_method, write_auth_user,
}
use hev_socks5_core.Server.Request.{
  read_request, read_addr, finish_request, write_response, rest_len,
}
use hev_socks5_core.Client.Messages.{offered_method, creds_bytes}
use hev_socks5_core.Server.Handshake.{
  handshake as server_handshake, answer_request, reply, dispatch, give_up, serve, server_connect,
  set_fds0, set_kind,
}
use hev_socks5_core.Server.DecodeCreds.{IsShort}
use hev_socks5_core.Session.Accept.{Takes}
use hev_socks5_core.Session.Target.{Target, target4, bytes_of, sockaddr_of}
use hev_socks5_core.Session.Serve.{Reaches}
use hev_socks5_core.Session.Request.{Answered}
use hev_socks5_core.Session.Agreed.{Agrees, by_password}
use hev_socks5_core.Session.Asked.{Fresh, messages, handshake-messages}
use hev_socks5_core.Session.Orders.{handshake-orders}
use hev_socks5_core.Session.Meet.{handshakes-meet}
use hev_socks5_core.Tests.Worlds.{calm, alice, two_users}

-- 10.0.0.1, port 443
abbrev goal : Target
goal = target4 10 0 0 1 1 187

abbrev alice_client : Client
alice_client = record {
  base = record {
    fd = pos 9;
    timeout = minus_one;
    kind = tcp;
    udp_associated = false;
    addr_family = 0;
  };
  auth_user = some alice.name;
  auth_pass = some alice.pass;
  variant = tcp_client (some (bytes_of goal));
}

abbrev strict_server : Server
strict_server = record {
  base = record {
    fd = pos 3;
    timeout = minus_one;
    kind = no_type;
    udp_associated = false;
    addr_family = 0;
  };
  fds0 = minus_one;
  fds1 = minus_one;
  obj = auth 5 two_users;
}

-- what each sends
abbrev asks : Bytes
asks = 5 ∷ 1 ∷ 2 ∷ 1 ∷ 1 ∷ 97 ∷ 2 ∷ 98 ∷ 99 ∷ 5 ∷ 1 ∷ 0 ∷ 1 ∷ 10 ∷ 0 ∷ 0 ∷ 1 ∷ 1 ∷ 187 ∷ []

abbrev tells : Bytes
tells = 5 ∷ 2 ∷ 1 ∷ 0 ∷ 5 ∷ 0 ∷ 0 ∷ 1 ∷ 10 ∷ 0 ∷ 0 ∷ 1 ∷ 1 ∷ 187 ∷ []

calm-Takes : (inbox : Bytes) (fd : ℤ) → Takes (calm inbox) fd
calm-Takes inbox fd t b bs = ground arith

asked_by : outgoing (pos 9) (client_handshake (calm tells) true alice_client []).2 ≡ asks
unfolding outgoing offered_method creds_bytes strlen
asked_by =
    handshake-messages (calm tells) alice_client (calm-Takes tells (pos 9)) goal tt refl refl []
      refl

told_by : outgoing (pos 3) (server_handshake (calm asks) strict_server []).2 ≡ tells
unfolding outgoing consumed server_handshake server_auth set_timeout find_user accept answer_request
    read_request read_addr finish_request addr_into_sockaddr6 reply write_response or_ℤ
    addr_from_sockaddr6 ipv4_into_sockaddr6 is_v4mapped grow_buffer socks5_socket watch drop_fd
    set_addr_family dispatch give_up serve server_connect set_fds0 set_kind auth_user check_user
    read_auth_method read_auth_user read_pass required_method select_method send_all
    write_auth_method write_auth_user rest_len Socks5.set_addr_family Socks5.set_timeout
    Authenticator.get User.compare_names User.check User.checker User.memcmp default_config
told_by = refl

IsShort-name : IsShort alice.name
unfolding strlen
IsShort-name = record { ended = refl; pos_len = ground arith; fits = ground arith }

IsShort-pass : IsShort alice.pass
unfolding strlen
IsShort-pass = record { ended = refl; pos_len = ground arith; fits = ground arith }

alice_found : Authenticator.get two_users alice.name ≡ some alice
unfolding Authenticator.get User.compare_names User.memcmp
alice_found = refl

abbrev alice_agrees : Agrees (some alice.name) (some alice.pass) (auth 5 two_users)
alice_agrees = by_password 5 two_users alice refl alice_found IsShort-name IsShort-pass refl refl

calm-Reaches : Reaches (calm asks) (sockaddr_of goal)
calm-Reaches = record {
  opens = λ t. refl;
  configures = λ t fd o. refl;
  binds = λ t fd. refl;
  connects = λ t fd. refl;
}

client_reads :
    Streams
      (calm tells)
      (pos 9)
      (outgoing (pos 3) (server_handshake (calm asks) strict_server []).2)
client_reads = subst (Streams (calm tells) (pos 9)) (sym told_by) (λ t n. refl)

server_reads :
    Streams
      (calm asks)
      (pos 3)
      (outgoing (pos 9) (client_handshake (calm tells) true alice_client []).2)
server_reads = subst (Streams (calm asks) (pos 3)) (sym asked_by) (λ t n. refl)

nothing-Fresh : (fd : ℤ) → Fresh fd []
unfolding consumed outgoing
nothing-Fresh fd = (refl, refl)

handshakes-meet_example :
    let (rc, c', tc') = client_handshake (calm tells) true alice_client [] in
    let (rs, s', ts') = server_handshake (calm asks) strict_server [] in
    (rc ≡ pos 0)
    × (rs ≡ pos 0)
    × (s'.kind ≡ tcp)
    × (s'.obj ≡ user alice)
    × Answered (pos 3) goal ts'
    × (drop (consumed (pos 9) tc') (outgoing (pos 3) ts') ≡ [])
    × (drop (consumed (pos 3) ts') (outgoing (pos 9) tc') ≡ [])
handshakes-meet_example =
    handshakes-meet (calm tells) (calm asks) alice_client strict_server goal [] [] alice_agrees tt
      refl refl (calm-Takes tells (pos 9)) (calm-Takes asks (pos 3)) calm-Reaches
      (nothing-Fresh (pos 9)) (nothing-Fresh (pos 3)) client_reads server_reads

handshake-orders_example :
    let (r1, c1, t1) = client_handshake (calm tells) true alice_client [] in
    let (r2, c2, t2) = client_handshake (calm tells) false alice_client [] in
    (r1 ≡ pos 0)
    × (r2 ≡ pos 0)
    × (c1 ≡ c2)
    × (outgoing (pos 9) t1 ≡ messages alice_client goal)
    × (outgoing (pos 9) t2 ≡ messages alice_client goal)
    × (drop (consumed (pos 9) t1) tells ≡ [])
    × (drop (consumed (pos 9) t2) tells ≡ [])
unfolding consumed outgoing
handshake-orders_example =
    handshake-orders (calm tells) tells alice_client goal [] alice_agrees tt refl refl
      (calm-Takes tells (pos 9)) (λ t n. refl) refl refl
