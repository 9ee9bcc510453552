-- ===== src/Classes/Sound.antt =====
-- The tables, whatever the order in which the classes are used and their binders replaced.
use hev_socks5_core.Base.{◌≡◌, refl, Option, none, some}
use hev_socks5_core.Classes.{
  hev_socks5_destruct, hev_socks5_client_destruct, hev_socks5_client_tcp_destruct,
  hev_socks5_client_udp_destruct, hev_socks5_server_destruct, hev_socks5_user_destruct,
  hev_socks5_authenticator_destruct, hev_socks5_client_tcp_iface, hev_socks5_client_udp_iface,
  hev_socks5_server_iface, hev_socks5_server_udp_bind, hev_socks5_client_tcp_get_upstream_addr,
  hev_socks5_client_tcp_set_upstream_addr, hev_socks5_client_udp_get_upstream_addr,
  hev_socks5_client_udp_set_upstream_addr, hev_socks5_client_udp_get_fd, hev_socks5_server_get_fd,
  hev_socks5_tcp_splicer, hev_socks5_udp_splicer, hev_socks5_user_checker, ClassName, hev_socks5,
  hev_socks5_client, hev_socks5_client_tcp, hev_socks5_client_udp, hev_socks5_server,
  hev_socks5_user, hev_socks5_authenticator, ObjectClass, ClientTcpClass, ClientUdpClass,
  ServerClass, Statics, zero_statics, unless_named, socks5_class, client_class, client_tcp_class,
  client_udp_class, server_class, user_class, authenticator_class,
}

-- a table that is filled in has this name, and what is said of it
abbrev pub Filled : Option ClassName → ClassName → Type 0 → Type 0
Filled none name P = Unit {0}
Filled (some n) name P = (n ≡ name) × P

abbrev pub IsClientTcp : ClientTcpClass → Type 0
IsClientTcp c =
    (c.base.base.object.destruct ≡ hev_socks5_client_tcp_destruct)
    × (c.base.base.object.iface ≡ hev_socks5_client_tcp_iface)
    × (c.base.get_upstream_addr ≡ hev_socks5_client_tcp_get_upstream_addr)
    × (c.base.set_upstream_addr ≡ hev_socks5_client_tcp_set_upstream_addr)
    × (c.tcp.splicer ≡ hev_socks5_tcp_splicer)

abbrev pub IsClientUdp : ClientUdpClass → Type 0
IsClientUdp c =
    (c.base.base.object.destruct ≡ hev_socks5_client_udp_destruct)
    × (c.base.base.object.iface ≡ hev_socks5_client_udp_iface)
    × (c.base.get_upstream_addr ≡ hev_socks5_client_udp_get_upstream_addr)
    × (c.base.set_upstream_addr ≡ hev_socks5_client_udp_set_upstream_addr)
    × (c.udp.get_fd ≡ hev_socks5_client_udp_get_fd)
    × (c.udp.splicer ≡ hev_socks5_udp_splicer)

abbrev pub IsServer : ServerClass → Type 0
IsServer c =
    (c.base.object.destruct ≡ hev_socks5_server_destruct)
    × (c.base.object.iface ≡ hev_socks5_server_iface)
    × (c.binder ≡ hev_socks5_server_udp_bind)
    × (c.tcp.splicer ≡ hev_socks5_tcp_splicer)
    × (c.udp.get_fd ≡ hev_socks5_server_get_fd)
    × (c.udp.splicer ≡ hev_socks5_udp_splicer)

-- Each table is cleared or has its own name and its own functions.
abbrev pub IsSound : Statics → Type 0
IsSound st =
    Filled st.socks5.object.name hev_socks5 (st.socks5.object.destruct ≡ hev_socks5_destruct)
    × Filled st.client.base.object.name hev_socks5_client
        (st.client.base.object.destruct ≡ hev_socks5_client_destruct)
    × Filled st.client_tcp.base.base.object.name hev_socks5_client_tcp (IsClientTcp st.client_tcp)
    × Filled st.client_udp.base.base.object.name hev_socks5_client_udp (IsClientUdp st.client_udp)
    × Filled st.server.base.object.name hev_socks5_server (IsServer st.server)
    × Filled st.user.object.name hev_socks5_user (
        (st.user.object.destruct ≡ hev_socks5_user_destruct)
        × (st.user.checker ≡ hev_socks5_user_checker))
    × Filled st.authenticator.name hev_socks5_authenticator
        (st.authenticator.destruct ≡ hev_socks5_authenticator_destruct)
    × (st.tcp_type.splicer ≡ hev_socks5_tcp_splicer)
    × (st.udp_type.splicer ≡ hev_socks5_udp_splicer)

pub zero_statics-IsSound : IsSound zero_statics
unfolding zero_statics
zero_statics-IsSound = (tt, tt, tt, tt, tt, tt, tt, refl, refl)

unless_named-IsSound :
    (o : Option ClassName) (filled st : Statics)
    → IsSound filled
    → IsSound st
    → IsSound (unless_named o filled st)
unfolding unless_named
unless_named-IsSound none filled st f h = f
unless_named-IsSound (some n) filled st f h = h

module _ (root atomic : ObjectClass) where
  pub socks5_class-IsSound : (st : Statics) → IsSound st → IsSound (socks5_class root atomic st)
  unfolding socks5_class
  socks5_class-IsSound st h =
      let (_, c, ct, cu, s, u, a, ti, ui) = h in
      unless_named-IsSound st.socks5.object.name _ st ((refl, refl), c, ct, cu, s, u, a, ti, ui) h

  pub client_class-IsSound : (st : Statics) → IsSound st → IsSound (client_class root atomic st)
  unfolding client_class
  client_class-IsSound st h =
      let (b, _, ct, cu, s, u, a, ti, ui) = socks5_class-IsSound st h in
      unless_named-IsSound st.client.base.object.name _ st
        (b, (refl, refl), ct, cu, s, u, a, ti, ui) h

  pub client_tcp_class-IsSound :
      (st : Statics) → IsSound st → IsSound (client_tcp_class root atomic st)
  unfolding client_tcp_class
  client_tcp_class-IsSound st h =
      let (b, c, _, cu, s, u, a, ti, ui) = client_class-IsSound st h in
      unless_named-IsSound st.client_tcp.base.base.object.name _ st
        (b, c, (refl, (refl, refl, refl, refl, ti)), cu, s, u, a, ti, ui) h

  pub client_udp_class-IsSound :
      (st : Statics) → IsSound st → IsSound (client_udp_class root atomic st)
  unfolding client_udp_class
  client_udp_class-IsSound st h =
      let (b, c, ct, _, s, u, a, ti, ui) = client_class-IsSound st h in
      unless_named-IsSound st.client_udp.base.base.object.name _ st
        (b, c, ct, (refl, (refl, refl, refl, refl, refl, ui)), s, u, a, ti, ui) h

  pub server_class-IsSound : (st : Statics) → IsSound st → IsSound (server_class root atomic st)
  unfolding server_class
  server_class-IsSound st h =
      let (b, c, ct, cu, _, u, a, ti, ui) = socks5_class-IsSound st h in
      unless_named-IsSound st.server.base.object.name _ st
        (b, c, ct, cu, (refl, (refl, refl, refl, ti, refl, ui)), u, a, ti, ui) h

  pub user_class-IsSound : (st : Statics) → IsSound st → IsSound (user_class root atomic st)
  unfolding user_class
  user_class-IsSound st h =
      let (b, c, ct, cu, s, _, a, ti, ui) = h in
      unless_named-IsSound st.user.object.name _ st
        (b, c, ct, cu, s, (refl, (refl, refl)), a, ti, ui) h

  pub authenticator_class-IsSound :
      (st : Statics) → IsSound st → IsSound (authenticator_class root atomic st)
  unfolding authenticator_class
  authenticator_class-IsSound st h =
      let (b, c, ct, cu, s, u, _, ti, ui) = h in
      unless_named-IsSound st.authenticator.name _ st (b, c, ct, cu, s, u, (refl, refl), ti, ui) h
