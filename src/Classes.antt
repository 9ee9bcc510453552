-- ===== src/Classes.antt =====
-- The classes of the objects: hev_socks5_class and the other functions that hand a class out. Each
-- has a static table, which is filled in on the first call with a copy of its parent's table and its
-- own functions.
pub mod Sound
pub mod Use
pub mod Inherit
use hev_socks5_core.Base.{ℕ, Option, none, some, List, [], ◌∷◌}

-- What a slot of a table points to: a function of the library, or one of HevObject or of the
-- application.
pub data Function : Type 0 where
  hev_socks5_destruct hev_socks5_client_destruct hev_socks5_client_tcp_destruct
        hev_socks5_client_udp_destruct :
      Function
  hev_socks5_server_destruct hev_socks5_user_destruct hev_socks5_authenticator_destruct : Function
  hev_socks5_client_tcp_iface hev_socks5_client_udp_iface hev_socks5_server_iface : Function
  hev_socks5_bind hev_socks5_server_udp_bind : Function
  hev_socks5_client_tcp_get_upstream_addr hev_socks5_client_tcp_set_upstream_addr : Function
  hev_socks5_client_udp_get_upstream_addr hev_socks5_client_udp_set_upstream_addr : Function
  hev_socks5_client_udp_get_fd hev_socks5_server_get_fd hev_socks5_tcp_splicer
        hev_socks5_udp_splicer hev_socks5_user_checker :
      Function
  null : Function
  foreign : ℕ → Function

-- "HevSocks5" and the like
pub data ClassName : Type 0 where
  hev_object hev_object_atomic hev_socks5 hev_socks5_client hev_socks5_client_tcp : ClassName
  hev_socks5_client_udp hev_socks5_server hev_socks5_user hev_socks5_authenticator : ClassName

-- the members of HevObjectClass that the library sets
pub record ObjectClass : Type 0 where
  pub name : Option ClassName
  pub destruct : Function
  pub iface : Function

pub record Socks5Class : Type 0 where
  pub object : ObjectClass
  pub binder : Function

pub record TcpIface : Type 0 where
  pub splicer : Function

pub record UdpIface : Type 0 where
  pub get_fd : Function
  pub splicer : Function

pub record ClientClass : Type 0 where
  pub base : Socks5Class
  pub get_upstream_addr : Function
  pub set_upstream_addr : Function

pub record ClientTcpClass : Type 0 where
  pub base : ClientClass
  pub tcp : TcpIface

pub record ClientUdpClass : Type 0 where
  pub base : ClientClass
  pub udp : UdpIface

-- The server's class has a second `binder`, for the sockets of an association.
pub record ServerClass : Type 0 where
  pub base : Socks5Class
  pub binder : Function
  pub tcp : TcpIface
  pub udp : UdpIface

pub record UserClass : Type 0 where
  pub object : ObjectClass
  pub checker : Function

-- the static tables; that of an authenticator adds nothing to HevObjectClass
pub record Statics : Type 0 where
  pub socks5 : Socks5Class
  pub client : ClientClass
  pub client_tcp : ClientTcpClass
  pub client_udp : ClientUdpClass
  pub server : ServerClass
  pub user : UserClass
  pub authenticator : ObjectClass
  pub tcp_type : TcpIface
  pub udp_type : UdpIface

-- hev_socks5_tcp_iface and hev_socks5_udp_iface: the tables that the others are copies of
abbrev pub tcp_iface : TcpIface
tcp_iface = record { splicer = hev_socks5_tcp_splicer }

abbrev pub udp_iface : UdpIface
udp_iface = record { get_fd = null; splicer = hev_socks5_udp_splicer }

-- static memory is cleared
abbrev zero_object : ObjectClass
zero_object = record { name = none; destruct = null; iface = null }

abbrev zero_socks5 : Socks5Class
zero_socks5 = record { object = zero_object; binder = null }

abbrev zero_client : ClientClass
zero_client = record { base = zero_socks5; get_upstream_addr = null; set_upstream_addr = null }

abbrev zero_tcp : TcpIface
zero_tcp = record { splicer = null }

abbrev zero_udp : UdpIface
zero_udp = record { get_fd = null; splicer = null }

unfoldable pub zero_statics : Statics
zero_statics = record {
  socks5 = zero_socks5;
  client = zero_client;
  client_tcp = record { base = zero_client; tcp = zero_tcp };
  client_udp = record { base = zero_client; udp = zero_udp };
  server = record { base = zero_socks5; binder = null; tcp = zero_tcp; udp = zero_udp };
  user = record { object = zero_object; checker = null };
  authenticator = zero_object;
  tcp_type = tcp_iface;
  udp_type = udp_iface;
}

-- `if (!okptr->name)` around what fills a table in
unfoldable pub unless_named : Option ClassName → Statics → Statics → Statics
unless_named none filled st = filled
unless_named (some _) filled st = st

-- `okptr->name = …; okptr->destruct = …;` on a copied table
abbrev pub renamed : ClassName → Function → ObjectClass → ObjectClass
renamed name destruct o = record o { name = some name; destruct = destruct }

-- what is filled in, behind the call for the parent's table
abbrev pub fill_client : Statics → Statics
fill_client st =
    let b = st.socks5 in
    record st {
      client = record st.client {
        base = record b { object = renamed hev_socks5_client hev_socks5_client_destruct b.object };
      };
    }

abbrev pub fill_client_tcp : Statics → Statics
fill_client_tcp st =
    let b = st.client.base in
    let o = renamed hev_socks5_client_tcp hev_socks5_client_tcp_destruct b.object in
    record st {
      client_tcp = record {
        base = record {
          base = record b { object = record o { iface = hev_socks5_client_tcp_iface } };
          get_upstream_addr = hev_socks5_client_tcp_get_upstream_addr;
          set_upstream_addr = hev_socks5_client_tcp_set_upstream_addr;
        };
        tcp = st.tcp_type;
      };
    }

abbrev pub fill_client_udp : Statics → Statics
fill_client_udp st =
    let b = st.client.base in
    let o = renamed hev_socks5_client_udp hev_socks5_client_udp_destruct b.object in
    record st {
      client_udp = record {
        base = record {
          base = record b { object = record o { iface = hev_socks5_client_udp_iface } };
          get_upstream_addr = hev_socks5_client_udp_get_upstream_addr;
          set_upstream_addr = hev_socks5_client_udp_set_upstream_addr;
        };
        udp = record st.udp_type { get_fd = hev_socks5_client_udp_get_fd };
      };
    }

abbrev pub fill_server : Statics → Statics
fill_server st =
    let b = st.socks5 in
    let o = renamed hev_socks5_server hev_socks5_server_destruct b.object in
    record st {
      server = record {
        base = record b { object = record o { iface = hev_socks5_server_iface } };
        binder = hev_socks5_server_udp_bind;
        tcp = st.tcp_type;
        udp = record st.udp_type { get_fd = hev_socks5_server_get_fd };
      };
    }

-- HEV_OBJECT_TYPE and HEV_OBJECT_ATOMIC_TYPE are not part of the repository.
module _ (root atomic : ObjectClass) where
  -- hev_socks5_class
  unfoldable pub socks5_class : Statics → Statics
  unfolding unless_named
  socks5_class st =
      unless_named st.socks5.object.name
        (record st {
          socks5 = record {
            object = renamed hev_socks5 hev_socks5_destruct root;
            binder = hev_socks5_bind;
          };
        })
        st

  -- hev_socks5_client_class
  unfoldable pub client_class : Statics → Statics
  unfolding socks5_class
  client_class st = unless_named st.client.base.object.name (fill_client (socks5_class st)) st

  -- hev_socks5_client_tcp_class
  unfoldable pub client_tcp_class : Statics → Statics
  unfolding client_class
  client_tcp_class st =
      unless_named st.client_tcp.base.base.object.name (fill_client_tcp (client_class st)) st

  -- hev_socks5_client_udp_class
  unfoldable pub client_udp_class : Statics → Statics
  unfolding client_class
  client_udp_class st =
      unless_named st.client_udp.base.base.object.name (fill_client_udp (client_class st)) st

  -- hev_socks5_server_class
  unfoldable pub server_class : Statics → Statics
  unfolding socks5_class
  server_class st = unless_named st.server.base.object.name (fill_server (socks5_class st)) st

  -- hev_socks5_user_class
  unfoldable pub user_class : Statics → Statics
  user_class st =
      unless_named st.user.object.name
        (record st {
          user = record {
            object = renamed hev_socks5_user hev_socks5_user_destruct atomic;
            checker = hev_socks5_user_checker;
          };
        })
        st

  -- hev_socks5_authenticator_class
  unfoldable pub authenticator_class : Statics → Statics
  authenticator_class st =
      unless_named st.authenticator.name
        (record st {
          authenticator = renamed hev_socks5_authenticator hev_socks5_authenticator_destruct atomic;
        })
        st

-- what an interface is asked for: HEV_SOCKS5_TCP_TYPE, HEV_SOCKS5_UDP_TYPE, or another
pub data IfaceType : Type 0 where
  ask_tcp ask_udp ask_other : IfaceType

pub data Table : Type 0 where
  tcp_table : TcpIface → Table
  udp_table : UdpIface → Table

-- hev_socks5_server_iface; `none` is NULL
unfoldable pub iface_of_server : ServerClass → IfaceType → Option Table
iface_of_server c ask_tcp = some (tcp_table c.tcp)
iface_of_server c ask_udp = some (udp_table c.udp)
iface_of_server c ask_other = none

-- hev_socks5_client_tcp_iface and hev_socks5_client_udp_iface do not look at what is asked for
unfoldable pub iface_of_client_tcp : ClientTcpClass → IfaceType → Option Table
iface_of_client_tcp c ty = some (tcp_table c.tcp)

unfoldable pub iface_of_client_udp : ClientUdpClass → IfaceType → Option Table
iface_of_client_udp c ty = some (udp_table c.udp)

-- The function that hev_socks5_tcp_splice calls: the first member of what it is given. NULL is not
-- tested for.
unfoldable pub tcp_splice : Option Table → Option Function
tcp_splice none = none
tcp_splice (some (tcp_table i)) = some i.splicer
tcp_splice (some (udp_table i)) = some i.get_fd

-- The function that hev_socks5_udp_splice calls: the second member.
unfoldable pub udp_splice : Option Table → Option Function
udp_splice none = none
udp_splice (some (tcp_table i)) = none
udp_splice (some (udp_table i)) = some i.splicer
