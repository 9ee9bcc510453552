-- ===== src/Classes/Use.antt =====
-- An application that uses the classes in some order, and sets binders of its own.
use hev_socks5_core.Base.{◌≡◌, refl, ap, Option, none, some, List, [], ◌∷◌, Option-cases, inl, inr}
use hev_socks5_core.Classes.{
  Function, hev_socks5_client_udp_get_fd, hev_socks5_server_get_fd, hev_socks5_tcp_splicer,
  hev_socks5_udp_splicer, ClassName, hev_socks5_client_tcp, hev_socks5_client_udp,
  hev_socks5_server, hev_socks5_client_tcp_destruct, hev_socks5_client_udp_destruct,
  hev_socks5_server_destruct, ObjectClass, Statics, zero_statics, unless_named, socks5_class,
  client_class, client_tcp_class, client_udp_class, server_class, user_class, authenticator_class,
  ask_tcp, ask_udp, iface_of_server, iface_of_client_tcp, iface_of_client_udp, tcp_splice,
  udp_splice,
}
use hev_socks5_core.Classes.Sound.{
  IsSound, Filled, IsClientTcp, IsClientUdp, IsServer, zero_statics-IsSound, socks5_class-IsSound,
  client_class-IsSound, client_tcp_class-IsSound, client_udp_class-IsSound, server_class-IsSound,
  user_class-IsSound, authenticator_class-IsSound,
}

-- A class is asked for, or its `binder` is set, which is on the table that the class function returns.
pub data Use : Type 0 where
  use_socks5 use_client use_client_tcp use_client_udp use_server use_user use_authenticator : Use
  bind_socks5 bind_client bind_client_tcp bind_client_udp bind_server : Function → Use

module _ (root atomic : ObjectClass) where
  unfoldable pub step : Use → Statics → Statics
  step use_socks5 st = socks5_class root atomic st
  step use_client st = client_class root atomic st
  step use_client_tcp st = client_tcp_class root atomic st
  step use_client_udp st = client_udp_class root atomic st
  step use_server st = server_class root atomic st
  step use_user st = user_class root atomic st
  step use_authenticator st = authenticator_class root atomic st
  step (bind_socks5 f) st =
      let st1 = socks5_class root atomic st in
      record st1 { socks5 = record st1.socks5 { binder = f } }
  step (bind_client f) st =
      let st1 = client_class root atomic st in
      record st1 { client = record st1.client { base = record st1.client.base { binder = f } } }
  step (bind_client_tcp f) st =
      let st1 = client_tcp_class root atomic st in
      let b = st1.client_tcp.base in
      record st1 {
        client_tcp = record st1.client_tcp {
          base = record b { base = record b.base { binder = f } };
        };
      }
  step (bind_client_udp f) st =
      let st1 = client_udp_class root atomic st in
      let b = st1.client_udp.base in
      record st1 {
        client_udp = record st1.client_udp {
          base = record b { base = record b.base { binder = f } };
        };
      }
  step (bind_server f) st =
      let st1 = server_class root atomic st in
      record st1 { server = record st1.server { base = record st1.server.base { binder = f } } }

  unfoldable pub run_uses : List Use → Statics → Statics
  unfolding step
  run_uses [] st = st
  run_uses (u ∷ us) st = run_uses us (step u st)

  step-IsSound : (u : Use) (st : Statics) → IsSound st → IsSound (step u st)
  unfolding step
  step-IsSound use_socks5 st h = socks5_class-IsSound root atomic st h
  step-IsSound use_client st h = client_class-IsSound root atomic st h
  step-IsSound use_client_tcp st h = client_tcp_class-IsSound root atomic st h
  step-IsSound use_client_udp st h = client_udp_class-IsSound root atomic st h
  step-IsSound use_server st h = server_class-IsSound root atomic st h
  step-IsSound use_user st h = user_class-IsSound root atomic st h
  step-IsSound use_authenticator st h = authenticator_class-IsSound root atomic st h
  step-IsSound (bind_socks5 f) st h = socks5_class-IsSound root atomic st h
  step-IsSound (bind_client f) st h = client_class-IsSound root atomic st h
  step-IsSound (bind_client_tcp f) st h = client_tcp_class-IsSound root atomic st h
  step-IsSound (bind_client_udp f) st h = client_udp_class-IsSound root atomic st h
  step-IsSound (bind_server f) st h = server_class-IsSound root atomic st h

  run_uses-IsSound : (us : List Use) (st : Statics) → IsSound st → IsSound (run_uses us st)
  unfolding run_uses
  run_uses-IsSound [] st h = h
  run_uses-IsSound (u ∷ us) st h = run_uses-IsSound us (step u st) (step-IsSound u st h)

-- a table is filled in, once it has been asked for
pub unless_named-some :
    (name : Statics → Option ClassName) (filled st : Statics) (n : ClassName)
    → name filled ≡ some n
    → (m : ClassName) × (name (unless_named (name st) filled st) ≡ some m)
unfolding unless_named
unless_named-some name filled st n h = elim (Option-cases (name st)) [
  | inl e ↦ (n, rw e h)
  | inr (m, e) ↦ (m, rw (e) e)
]

of_Filled :
    (o : Option ClassName) (name m : ClassName) (P : Type 0) → Filled o name P → o ≡ some m → P
of_Filled none name m P h e = absurd (cc e)
of_Filled (some n) name m P h e = h.1

module _ (root atomic : ObjectClass) (st : Statics) (h : IsSound st) where
  client_tcp_class-filled : IsClientTcp (client_tcp_class root atomic st).client_tcp
  unfolding client_tcp_class
  client_tcp_class-filled =
      let (m, e) =
        unless_named-some (λ (x : Statics). x.client_tcp.base.base.object.name) _ st
          hev_socks5_client_tcp refl in
      of_Filled _ hev_socks5_client_tcp m _ (client_tcp_class-IsSound root atomic st h).2 e

  client_udp_class-filled : IsClientUdp (client_udp_class root atomic st).client_udp
  unfolding client_udp_class
  client_udp_class-filled =
      let (m, e) =
        unless_named-some (λ (x : Statics). x.client_udp.base.base.object.name) _ st
          hev_socks5_client_udp refl in
      of_Filled _ hev_socks5_client_udp m _ (client_udp_class-IsSound root atomic st h).3 e

  server_class-filled : IsServer (server_class root atomic st).server
  unfolding server_class
  server_class-filled =
      let (m, e) =
        unless_named-some (λ (x : Statics). x.server.base.object.name) _ st hev_socks5_server
          refl in
      of_Filled _ hev_socks5_server m _ (server_class-IsSound root atomic st h).4 e

-- Whatever classes the application has used, in whatever order, and whatever binders it has set:
-- hev_socks5_tcp_splice on a TCP client and on a server calls hev_socks5_tcp_splicer, and
-- hev_socks5_udp_splice on a UDP client and on a server calls hev_socks5_udp_splicer, which finds the
-- descriptor by the function of that class. Each of these classes has its own destructor.
pub run_uses-splices :
    (root atomic : ObjectClass) (us : List Use)
    → let st = run_uses root atomic us zero_statics in
      let c = (client_tcp_class root atomic st).client_tcp in
      let d = (client_udp_class root atomic st).client_udp in
      let s = (server_class root atomic st).server in
      ((tcp_splice (iface_of_client_tcp c ask_tcp) ≡ some hev_socks5_tcp_splicer)
        × (c.base.base.object.destruct ≡ hev_socks5_client_tcp_destruct))
      × ((udp_splice (iface_of_client_udp d ask_udp) ≡ some hev_socks5_udp_splicer)
          × (d.udp.get_fd ≡ hev_socks5_client_udp_get_fd)
          × (d.base.base.object.destruct ≡ hev_socks5_client_udp_destruct))
      × ((tcp_splice (iface_of_server s ask_tcp) ≡ some hev_socks5_tcp_splicer)
          × (udp_splice (iface_of_server s ask_udp) ≡ some hev_socks5_udp_splicer)
          × (s.udp.get_fd ≡ hev_socks5_server_get_fd)
          × (s.base.object.destruct ≡ hev_socks5_server_destruct))
unfolding tcp_splice udp_splice iface_of_client_tcp iface_of_client_udp iface_of_server
run_uses-splices root atomic us =
    let st = run_uses root atomic us zero_statics in
    let h = run_uses-IsSound root atomic us zero_statics zero_statics-IsSound in
    let (cd, _, _, _, ct) = client_tcp_class-filled root atomic st h in
    let (dd, _, _, _, dg, du) = client_udp_class-filled root atomic st h in
    let (sd, _, _, t, g, u) = server_class-filled root atomic st h in
    ((ap some ct, cd), (ap some du, dg, dd), (ap some t, ap some u, g, sd))
