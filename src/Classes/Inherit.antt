-- ===== src/Classes/Inherit.antt =====
-- What a class takes from its parent, and when.
use hev_socks5_core.Base.{◌≡◌, refl, ◌∙◌, ap, Option, none, some}
use hev_socks5_core.Classes.{
  Function, ClassName, hev_socks5, ObjectClass, Statics, unless_named, socks5_class, client_class,
  client_tcp_class, client_udp_class, server_class, fill_client, fill_client_tcp, fill_client_udp,
  fill_server,
}
use hev_socks5_core.Classes.Use.{step, bind_socks5, unless_named-some}

-- what a table keeps, or takes over on its first use
abbrev pub taken : Option ClassName → Function → Function → Function
taken none own new = new
taken (some _) own new = own

unless_named-taken :
    (f : Statics → Function) (o : Option ClassName) (filled st : Statics)
    → f (unless_named o filled st) ≡ taken o (f st) (f filled)
unfolding unless_named
unless_named-taken f none filled st = refl
unless_named-taken f (some n) filled st = refl

unless_named_idle :
    (o : Option ClassName) (n : ClassName) (filled st : Statics)
    → o ≡ some n
    → unless_named o filled st ≡ st
unfolding unless_named
unless_named_idle none n filled st e = cc
unless_named_idle (some m) n filled st e = refl

-- a part that is filled in as it was
unless_named_same {ℓ} :
    {A : Type ℓ} (f : Statics → A) (o : Option ClassName) (filled st : Statics)
    → f filled ≡ f st
    → f (unless_named o filled st) ≡ f st
unfolding unless_named
unless_named_same f none filled st e = e
unless_named_same f (some n) filled st e = refl

module _ (root atomic : ObjectClass) (st : Statics) (f : Function) where
  abbrev bound : Statics
  bound = step root atomic (bind_socks5 f) st

  -- the base class is not filled in again
  socks5_class-bound : socks5_class root atomic bound ≡ bound
  unfolding step socks5_class
  socks5_class-bound =
      let (n, e) = unless_named-some (λ (x : Statics). x.socks5.object.name) _ st hev_socks5 refl in
      unless_named_idle _ n _ bound e

  bound_tables :
      (bound.client ≡ st.client)
      × (bound.client_tcp ≡ st.client_tcp)
      × (bound.client_udp ≡ st.client_udp)
      × (bound.server ≡ st.server)
  unfolding step socks5_class
  bound_tables = (
    unless_named_same (λ (x : Statics). x.client) _ _ st refl,
    unless_named_same (λ (x : Statics). x.client_tcp) _ _ st refl,
    unless_named_same (λ (x : Statics). x.client_udp) _ _ st refl,
    unless_named_same (λ (x : Statics). x.server) _ _ st refl,
  )

  bound_binder : (socks5_class root atomic bound).socks5.binder ≡ f
  unfolding step
  bound_binder = ap (λ (x : Statics). x.socks5.binder) socks5_class-bound

  client_binder :
      (client_class root atomic bound).client.base.binder
      ≡ taken st.client.base.object.name st.client.base.binder f
  unfolding client_class
  client_binder =
      unless_named-taken (λ (x : Statics). x.client.base.binder) bound.client.base.object.name
        (fill_client (socks5_class root atomic bound)) bound
      ∙ (λ i.
          taken (bound_tables.0 i).base.object.name (bound_tables.0 i).base.binder (bound_binder i))

  -- The application sets the `binder` of the base class. A class that is first used later takes it
  -- over, directly or from its parent, if that is first used later too; a class that was used before
  -- keeps the one that it has.
  pub bound-taken :
      let of_client = taken st.client.base.object.name st.client.base.binder f in
      let c = st.client_tcp.base.base in
      let d = st.client_udp.base.base in
      ((client_class root atomic bound).client.base.binder ≡ of_client)
      × ((client_tcp_class root atomic bound).client_tcp.base.base.binder
          ≡ taken c.object.name c.binder of_client)
      × ((client_udp_class root atomic bound).client_udp.base.base.binder
          ≡ taken d.object.name d.binder of_client)
      × ((server_class root atomic bound).server.base.binder
          ≡ taken st.server.base.object.name st.server.base.binder f)
  unfolding client_tcp_class client_udp_class server_class
  bound-taken =
      let (_, t, u, s) = bound_tables in
      (
        client_binder,
        unless_named-taken (λ (x : Statics). x.client_tcp.base.base.binder)
              bound.client_tcp.base.base.object.name
              (fill_client_tcp (client_class root atomic bound)) bound
            ∙ (λ i. taken (t i).base.base.object.name (t i).base.base.binder (client_binder i)),
        unless_named-taken (λ (x : Statics). x.client_udp.base.base.binder)
              bound.client_udp.base.base.object.name
              (fill_client_udp (client_class root atomic bound)) bound
            ∙ (λ i. taken (u i).base.base.object.name (u i).base.base.binder (client_binder i)),
        unless_named-taken (λ (x : Statics). x.server.base.binder) bound.server.base.object.name
              (fill_server (socks5_class root atomic bound)) bound
            ∙ (λ i. taken (s i).base.object.name (s i).base.binder (bound_binder i)),
      )
