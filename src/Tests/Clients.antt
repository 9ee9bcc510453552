-- ===== src/Tests/Clients.antt =====
-- Runs of a client, of the resolver and of the translation of addresses.
use hev_socks5_core.Base.{
  ◌+◌, ◌≡◌, ◌⊎◌, ◌≤◌, refl, false, true, none, some, [], ◌∷◌, ◌++◌, Bytes, pos, minus_one, is_neg,
  length, take, drop, arith,
}
use hev_socks5_core.Host.{Trace}
use hev_socks5_core.Misc.Socket.{socks5_socket, default_config}
use hev_socks5_core.Socks5
use hev_socks5_core.Socks5.{tcp, no_type}
use hev_socks5_core.Sockets.{opens, closes}
use hev_socks5_core.Wire.{consumed, outgoing, Streams}
use hev_socks5_core.Misc.Addr.{strlen, Addr}
use hev_socks5_core.Misc.Resolve.{name_into_sockaddr6}
use hev_socks5_core.Misc.Answer.{ipv4, IsAnswer, name_into_sockaddr6-IsAnswer}
use hev_socks5_core.Misc.RoundTrip.{cleared}
use hev_socks5_core.Server.Defs.{Server, nothing}
use hev_socks5_core.Server.Request.{finish_request, read_request}
use hev_socks5_core.Client.Defs.{Client, tcp_client, set_timeout, set_addr_family, destruct}
use hev_socks5_core.Client.Upstream.{set_variant, upstream_of, get_upstream_addr, set_upstream_addr}
use hev_socks5_core.Client.Messages.{
  sent_len, send_all, offered_method, command_of, write_auth_methods, write_auth_creds, send_creds,
  creds_bytes, send_request, write_request, read_auth_method, read_response, read_bound_addr,
  response_len,
}
use hev_socks5_core.Client.Handshake.{
  client_connect, connect_to, pipeline_answers, set_fd, handshake, handshake_pipeline,
  pipeline_auth, settle,
}
use hev_socks5_core.Client.Request.{request_message, request-roundtrip}
use hev_socks5_core.Client.Sent.{dest4, FitLogin, handshake_pipeline-sends}
use hev_socks5_core.Client.Lifetime.{connect-handshake-destruct}
use hev_socks5_core.Tests.Worlds.{calm}

-- 127.0.0.1, port 80
abbrev home : Addr
home = 1 ∷ 127 ∷ 0 ∷ 0 ∷ 1 ∷ 0 ∷ 80 ∷ []

abbrev fresh : Client
fresh = record {
  base = record {
    fd = minus_one;
    timeout = minus_one;
    kind = tcp;
    udp_associated = false;
    addr_family = 0;
  };
  auth_user = none;
  auth_pass = none;
  variant = tcp_client (some home);
}

-- what a server answers: the method 0, and a reply with an IPv4 address
abbrev answers : Bytes
answers = 5 ∷ 0 ∷ 5 ∷ 0 ∷ 0 ∷ 1 ∷ 127 ∷ 0 ∷ 0 ∷ 1 ∷ 0 ∷ 80 ∷ []

connect-handshake-destruct_example :
    let (_, c1, t1) = client_connect (calm answers) (120 ∷ []) 1080 fresh [] in
    let (_, c2, t2) = handshake (calm answers) true c1 t1 in
    let (_, _, u1) = destruct c1 t1 in
    let (_, _, u2) = destruct c2 t2 in
    (closes (pos 8) u1 + opens (pos 8) [] ≡ closes (pos 8) [] + opens (pos 8) u1)
    × (closes (pos 8) u2 + opens (pos 8) [] ≡ closes (pos 8) [] + opens (pos 8) u2)
connect-handshake-destruct_example =
    connect-handshake-destruct (calm answers) 8 fresh [] (120 ∷ []) 1080 true refl refl

home_len : sent_len home ≡ some 7
unfolding sent_len
home_len = refl

abbrev listener : Server
listener = record {
  base = record {
    fd = pos 3;
    timeout = minus_one;
    kind = no_type;
    udp_associated = false;
    addr_family = 0;
  };
  fds0 = minus_one;
  fds1 = minus_one;
  obj = nothing;
}

abbrev home_request : Bytes
home_request = request_message 1 7 home

home-Streams : Streams (calm home_request) (pos 3) home_request
home-Streams t n = refl

home_enough : 7 ≤ length home
home_enough = ground arith

home_unread : drop (consumed (pos 3) []) home_request ≡ home_request ++ []
unfolding consumed
home_unread = refl

request-roundtrip_example :
    (t' : Trace) × (read_request (calm home_request) 0 cleared listener []
      ≡ finish_request (calm home_request) 1 0 (take 7 home) cleared listener t')
    × (drop (consumed (pos 3) t') home_request ≡ [])
request-roundtrip_example =
    request-roundtrip (calm home_request) home_request listener [] home-Streams 1 0 1 127 7
      (0 ∷ 0 ∷ 1 ∷ 0 ∷ 80 ∷ []) [] cleared home_len home_enough home_unread

-- the resolver answers with 1.2.3.4
name_into_sockaddr6-IsAnswer_example :
    let (answer, c', t') = name_into_sockaddr6 (calm []) (120 ∷ []) 80 cleared 0 fresh [] in
    (c' ≡ fresh)
    × IsAnswer (ipv4 (1 ∷ 2 ∷ 3 ∷ 4 ∷ [])) 80 0 answer
    × ((t' ≡ [])
        ⊎ (((calm []).inet_pton4 (120 ∷ []) ≡ none) × ((calm []).inet_pton6 (120 ∷ []) ≡ none)))
name_into_sockaddr6-IsAnswer_example =
    name_into_sockaddr6-IsAnswer (calm []) (120 ∷ []) 80 cleared 0 fresh [] refl tt tt
      (λ e. refl, λ e. absurd (omega (arith, e)))

-- the pipelined handshake of that client succeeds
pipeline_succeeds :
    let (_, c1, t1) = client_connect (calm answers) (120 ∷ []) 1080 fresh [] in
    (handshake (calm answers) true c1 t1).0 ≡ pos 0
unfolding handshake pipeline_answers connect_to handshake_pipeline write_auth_methods
    write_auth_creds set_timeout client_connect name_into_sockaddr6 socks5_socket set_addr_family
    set_fd write_request command_of default_config send_request get_upstream_addr sent_len
    read_auth_method pipeline_auth settle offered_method read_bound_addr read_response send_all
    send_creds set_upstream_addr upstream_of set_variant consumed response_len Socks5.set_timeout
    Socks5.set_addr_family
pipeline_succeeds = refl

-- the same client, when it is connected
abbrev joined : Client
joined = record fresh {
  base = record {
    fd = pos 9;
    timeout = minus_one;
    kind = tcp;
    udp_associated = false;
    addr_family = 0;
  };
  auth_user = some (97 ∷ []);
  auth_pass = some (98 ∷ []);
}

joined_succeeds : is_neg (handshake_pipeline (calm answers) joined []).0 ≡ false
unfolding handshake_pipeline pipeline_answers write_auth_methods write_auth_creds write_request
    command_of send_request get_upstream_addr sent_len read_auth_method pipeline_auth offered_method
    read_bound_addr read_response send_all send_creds creds_bytes strlen set_upstream_addr
    upstream_of set_variant consumed response_len
joined_succeeds = refl

joined_fits : FitLogin joined.auth_user joined.auth_pass
unfolding strlen
joined_fits = (
  record { ended = refl; pos_len = ground arith; fits = ground arith },
  record { ended = refl; pos_len = ground arith; fits = ground arith },
)

handshake_pipeline-sends_example :
    outgoing (pos 9) (handshake_pipeline (calm answers) joined []).2
    ≡ ((outgoing (pos 9) [] ++ (5 ∷ 1 ∷ 2 ∷ [])) ++ (1 ∷ 1 ∷ 97 ∷ 1 ∷ 98 ∷ []))
      ++ (5 ∷ 1 ∷ 0 ∷ home)
handshake_pipeline-sends_example =
    handshake_pipeline-sends (calm answers) joined [] (dest4 (127 ∷ 0 ∷ 0 ∷ 1 ∷ []) (0 ∷ 80 ∷ []))
      (refl, refl) joined_fits refl refl joined_succeeds

-- a server that asks for the credentials
abbrev strict_answers : Bytes
strict_answers = 5 ∷ 2 ∷ 1 ∷ 0 ∷ 5 ∷ 0 ∷ 0 ∷ 1 ∷ 127 ∷ 0 ∷ 0 ∷ 1 ∷ 0 ∷ 80 ∷ []
