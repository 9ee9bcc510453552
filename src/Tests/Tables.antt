-- ===== src/Tests/Tables.antt =====
-- The classes, used by an application.
use hev_socks5_core.Base.{◌≡◌, refl, some, List, [], ◌∷◌}
use hev_socks5_core.Classes.{
  foreign, null, ObjectClass, Statics, zero_statics, hev_object, hev_object_atomic, client_class,
  client_tcp_class, client_udp_class, server_class, hev_socks5_client_tcp_destruct,
  hev_socks5_client_udp_destruct, hev_socks5_server_destruct, hev_socks5_client_udp_get_fd,
  hev_socks5_server_get_fd, hev_socks5_tcp_splicer, hev_socks5_udp_splicer, hev_socks5_bind,
  ask_tcp, ask_udp, tcp_splice, udp_splice, iface_of_client_tcp, iface_of_client_udp,
  iface_of_server, unless_named, socks5_class,
}
use hev_socks5_core.Classes.Use.{
  Use, use_server, use_client_udp, bind_socks5, bind_client, step, run_uses, run_uses-splices,
}
use hev_socks5_core.Classes.Inherit.{taken, bound-taken}

abbrev object_type : ObjectClass
object_type = record { name = some hev_object; destruct = foreign 0; iface = null }

abbrev atomic_type : ObjectClass
atomic_type = record { name = some hev_object_atomic; destruct = foreign 1; iface = null }

-- a UDP client is used before the application sets a binder for clients, and then a server
abbrev uses : List Use
uses = use_client_udp ∷ bind_client (foreign 2) ∷ use_server ∷ []

run_uses-splices_example :
    let st = run_uses object_type atomic_type uses zero_statics in
    let c = (client_tcp_class object_type atomic_type st).client_tcp in
    let d = (client_udp_class object_type atomic_type st).client_udp in
    let s = (server_class object_type atomic_type st).server in
    ((tcp_splice (iface_of_client_tcp c ask_tcp) ≡ some hev_socks5_tcp_splicer)
      × (c.base.base.object.destruct ≡ hev_socks5_client_tcp_destruct))
    × ((udp_splice (iface_of_client_udp d ask_udp) ≡ some hev_socks5_udp_splicer)
        × (d.udp.get_fd ≡ hev_socks5_client_udp_get_fd)
        × (d.base.base.object.destruct ≡ hev_socks5_client_udp_destruct))
    × ((tcp_splice (iface_of_server s ask_tcp) ≡ some hev_socks5_tcp_splicer)
        × (udp_splice (iface_of_server s ask_udp) ≡ some hev_socks5_udp_splicer)
        × (s.udp.get_fd ≡ hev_socks5_server_get_fd)
        × (s.base.object.destruct ≡ hev_socks5_server_destruct))
run_uses-splices_example = run_uses-splices object_type atomic_type uses

-- the server was used before
abbrev served : Statics
served = server_class object_type atomic_type zero_statics

bound-taken_example :
    let bound = step object_type atomic_type (bind_socks5 (foreign 3)) served in
    let of_client = taken served.client.base.object.name served.client.base.binder (foreign 3) in
    let c = served.client_tcp.base.base in
    let d = served.client_udp.base.base in
    ((client_class object_type atomic_type bound).client.base.binder ≡ of_client)
    × ((client_tcp_class object_type atomic_type bound).client_tcp.base.base.binder
        ≡ taken c.object.name c.binder of_client)
    × ((client_udp_class object_type atomic_type bound).client_udp.base.base.binder
        ≡ taken d.object.name d.binder of_client)
    × ((server_class object_type atomic_type bound).server.base.binder
        ≡ taken served.server.base.object.name served.server.base.binder (foreign 3))
bound-taken_example = bound-taken object_type atomic_type served (foreign 3)

-- a new client has the application's binder, and the server has the one of the library
bound_runs :
    let bound = step object_type atomic_type (bind_socks5 (foreign 3)) served in
    ((client_tcp_class object_type atomic_type bound).client_tcp.base.base.binder ≡ foreign 3)
    × ((server_class object_type atomic_type bound).server.base.binder ≡ hev_socks5_bind)
unfolding step server_class client_tcp_class client_class socks5_class unless_named zero_statics
bound_runs = (refl, refl)
