-- ===== src/Routes/Install.antt =====
-- hcloud/routes.go: a successful addition leaves the wanted route at the API.
use hcloud_cloud_controller.Common.{
  ℕ, String, true, Option, none, some, [], ◌∷◌, ◌≡◌, refl, sym, ◌∙◌, ap, inl, inr, arith, Result,
  Result-cases, Bool-cases, ok, err, Exec, ◌>>=◌, continue, continue_elim, ==-refl, Eq-string,
  nat_eq, length,
}
use hcloud_cloud_controller.Kube.{Node}
use hcloud_cloud_controller.ProviderId.{Bytes}
use hcloud_cloud_controller.Cache.{Source}
use hcloud_cloud_controller.Routes.{
  Ip, IpNet, NetworkRoute, Network, Client, State, RouteError, api, call, set_network,
  reload_network, find_route, finish_add, add, delete, replace, upsert_route, ip_equal, bytes_eq,
  Route, create_route, create_parsed, create_via, is_target_address, warn_cidr_mismatch,
  resolve_route_target, is_ipv4,
}
use hcloud_cloud_controller.Routes.Upsert.{Puts, Shows, RouteLaws, gateway_of}

nat_eq_refl : (n : ℕ) → nat_eq n n ≡ true
nat_eq_refl n = ground arith

bytes_eq_refl : (s : Bytes) → bytes_eq s s ≡ true
unfolding bytes_eq
bytes_eq_refl [] = refl
bytes_eq_refl (c ∷ s) = rw (nat_eq_refl c) (bytes_eq_refl s)

ip_equal_refl : (ip : Ip) → ip_equal ip ip ≡ true
unfolding ip_equal
ip_equal_refl ip = rw (nat_eq_refl (length ip)) (bytes_eq_refl ip)

module _ {W E Server Act : Type 0} (client : Client W E Server Act) (view : W → String → Option Ip)
    (laws : RouteLaws view client) where
  -- The API has a route to the destination by this gateway, in either form of the address.
  abbrev pub Routed : String → Ip → W → Type 0
  Routed d gateway w = (g : Ip) × (view w d ≡ some g) × (ip_equal g gateway ≡ true)

  abbrev pub Installed :
      {A : Type 0} → String → Ip → Result (RouteError E) A × State W Server → Type 0
  Installed d gateway (ok _, s) = Routed d gateway s.world
  Installed d gateway (err _, s) = Unit

  -- A bind whose last step installs the route.
  Installed-bind :
      {A B : Type 0} (d : String) (gateway : Ip) (m : Exec (State W Server) (RouteError E) A)
      (f : A → Exec (State W Server) (RouteError E) B) (s : State W Server)
      → ((a : A) (s' : State W Server) → Installed d gateway (f a s'))
      → Installed d gateway ((m >>= f) s)
  Installed-bind d gateway m f s h =
      continue_elim (λ x. Installed d gateway x) (m s).0 f (m s).1 (λ a _. h a (m s).1) (λ _ _. tt)

  after_wait :
      (d : String) (gateway : Ip) (a : Act) (s : State W Server)
      → Routed d gateway s.world
      → Installed d gateway (call client (client.wait_for a) s)
  unfolding call
  after_wait d gateway a s (g, e, same) = elim (Result-cases (client.wait_for a s.world).0) [
    | inl (u, r) ↦ rw r (g, laws.wait_for a s.world d ∙ e, same)
    | inr (c, r) ↦ rw r tt
  ]

  finish_add-Installed :
      (gateway : Ip) (d : String) (w : W) (x : Result E Act × W) (s : State W Server)
      → Puts view d (some gateway) w x
      → Installed d gateway (finish_add client x.0 (record s { world = x.1 }))
  unfolding finish_add
  finish_add-Installed gateway d w (ok a, w') s h =
      after_wait d gateway a (record s { world = w' })
        (gateway, rw (h d, ==-refl d) refl, ip_equal_refl gateway)
  finish_add-Installed gateway d w (err e, w') s h = tt

  add-Installed :
      (gateway : Ip) (cidr : IpNet) (s : State W Server)
      → Installed (client.cidr_string cidr) gateway (add client gateway cidr s)
  unfolding add
  add-Installed gateway cidr s =
      let r : NetworkRoute = record { destination = cidr; gateway = gateway } in
      finish_add-Installed gateway (client.cidr_string cidr) s.world
        (client.add_route s.network r s.world) s (laws.add s.network r s.world)

  replace-Installed :
      (gateway : Ip) (cidr : IpNet) (found : Option NetworkRoute) (s : State W Server)
      → view s.world (client.cidr_string cidr) ≡ gateway_of view found
      → Installed (client.cidr_string cidr) gateway (replace client gateway cidr found s)
  unfolding replace
  replace-Installed gateway cidr none s e = add-Installed gateway cidr s
  replace-Installed gateway cidr (some r) s e = elim (Bool-cases (ip_equal r.gateway gateway)) [
    | inl there ↦ rw there (r.gateway, e, there)
    | inr stale ↦ rw stale (
        Installed-bind (client.cidr_string cidr) gateway (delete client r)
          (λ _. add client gateway cidr) s (λ _. add-Installed gateway cidr))
  ]

  after_answer :
      (gateway : Ip) (cidr : IpNet) (s : State W Server) (x : Result E (Option Network) × W)
      → Shows view client x
      → Installed (client.cidr_string cidr) gateway (
          continue {E = RouteError E}
            (continue {E = RouteError E}
              (elim x.0 [ ok a ↦ ok a | err e ↦ err (api e) ])
              (set_network client)
              (record s { world = x.1 })).0
            (λ _. λ s.
              replace client gateway cidr
                (find_route client (client.cidr_string cidr) s.network.routes)
                s)
            (continue {E = RouteError E}
              (elim x.0 [ ok a ↦ ok a | err e ↦ err (api e) ])
              (set_network client)
              (record s { world = x.1 })).1)
  unfolding set_network
  after_answer gateway cidr s (err e, w) h = tt
  after_answer gateway cidr s (ok none, w) h = tt
  after_answer gateway cidr s (ok (some n), w) h =
      replace-Installed gateway cidr (find_route client (client.cidr_string cidr) n.routes) _
        (h (client.cidr_string cidr))

  upsert_route-Installed :
      (gateway : Ip) (cidr : IpNet) (s : State W Server)
      → Installed (client.cidr_string cidr) gateway (upsert_route client gateway cidr s)
  unfolding upsert_route reload_network call
  upsert_route-Installed gateway cidr s =
      after_answer gateway cidr s (client.get_network s.network.id s.world)
        (laws.shows s.network.id s.world)

  outcome :
      (d : String) (gateway : Ip) (x : Result (RouteError E) (Unit {0}) × State W Server)
      (s : State W Server)
      → Installed d gateway x
      → x ≡ (ok tt, s)
      → Routed d gateway s.world
  outcome d gateway (ok u, s') s h e =
      let e' : s' ≡ s = ap (λ (x : Result (RouteError E) (Unit {0}) × State W Server). x.1) e in
      rw (sym e') h
  outcome d gateway (err c, s') s h e =
      absurd (let e' = ap (λ (x : Result (RouteError E) (Unit {0}) × State W Server). x.0) e in cc)

  -- If `upsertRoute` succeeds, the API then has a route to the destination whose gateway is the
  -- given address; given that the API shows the routes that it has, and that an accepted call adds
  -- or deletes its route.
  pub upsert_route_installs :
      (gateway : Ip) (cidr : IpNet) (s s' : State W Server)
      → upsert_route client gateway cidr s ≡ (ok tt, s')
      → (g : Ip) × (view s'.world (client.cidr_string cidr) ≡ some g) × (ip_equal g gateway ≡ true)
  upsert_route_installs gateway cidr s s' e =
      outcome (client.cidr_string cidr) gateway (upsert_route client gateway cidr s) s'
        (upsert_route-Installed gateway cidr s) e

  -- The outcome of `CreateRoute`: some target address is the gateway of a route that the API has.
  abbrev CreatedVia : Route → IpNet → Result (RouteError E) (Unit {0}) × State W Server → Type 0
  CreatedVia route cidr (ok _, s) =
      (gateway : Ip) × (is_target_address client gateway route.target_node_addresses ≡ true)
      × Routed (client.cidr_string cidr) gateway s.world
  CreatedVia route cidr (err _, s) = Unit

  with_address :
      (route : Route) (cidr : IpNet) (gateway : Ip)
      (x : Result (RouteError E) (Unit {0}) × State W Server)
      → is_target_address client gateway route.target_node_addresses ≡ true
      → Installed (client.cidr_string cidr) gateway x
      → CreatedVia route cidr x
  with_address route cidr gateway (ok u, s) t h = (gateway, t, h)
  with_address route cidr gateway (err e, s) t h = tt

  module _ (src : Source W E Server) (cluster_cidr : IpNet) where
    create_via-Created :
        (route : Route) (cidr : IpNet) (target : Node × Ip) (s : State W Server)
        → CreatedVia route cidr (create_via client src cluster_cidr route cidr target s)
    unfolding create_via
    create_via-Created route cidr (node, gateway) s =
        elim (Bool-cases (is_target_address client gateway route.target_node_addresses)) [
          | inl listed ↦ rw listed (
              with_address route cidr gateway _ listed (
                Installed-bind (client.cidr_string cidr) gateway
                  (warn_cidr_mismatch client cluster_cidr cidr node)
                  (λ _. upsert_route client gateway cidr) s
                  (λ _. upsert_route-Installed gateway cidr)))
          | inr unlisted ↦ rw unlisted tt
        ]

    create_parsed-Created :
        (route : Route) (ip : Ip) (cidr : IpNet) (s : State W Server)
        → CreatedVia route cidr (create_parsed client src cluster_cidr route (some (ip, cidr)) s)
    unfolding create_parsed
    create_parsed-Created route ip cidr s = elim (Bool-cases (is_ipv4 ip)) [
      | inl v4 ↦
          let m = resolve_route_target client src cluster_cidr route.target_node s in
          rw v4 (
            continue_elim (λ x. CreatedVia route cidr x) m.0
              (create_via client src cluster_cidr route cidr) m.1
              (λ target _. create_via-Created route cidr target m.1) (λ _ _. tt))
      | inr v6 ↦ rw v6 tt
    ]

    created :
        (route : Route) (cidr : IpNet) (x : Result (RouteError E) (Unit {0}) × State W Server)
        (s : State W Server)
        → CreatedVia route cidr x
        → x ≡ (ok tt, s)
        → CreatedVia route cidr (ok tt, s)
    created route cidr (ok u, s') s h e =
        let e' : s' ≡ s = ap (λ (x : Result (RouteError E) (Unit {0}) × State W Server). x.1) e in
        rw (sym e') h
    created route cidr (err c, s') s h e =
        absurd
          (let e' = ap (λ (x : Result (RouteError E) (Unit {0}) × State W Server). x.0) e in cc)

    -- If `CreateRoute` succeeds, the API then has a route to the destination whose gateway is one
    -- of the internal IP addresses that the route lists for its node; given that the API shows the
    -- routes that it has, and that an accepted call adds or deletes its route.
    pub create_route_installs :
        (route : Route) (ip : Ip) (cidr : IpNet) (s s' : State W Server)
        → client.parse_cidr route.destination_cidr ≡ some (ip, cidr)
        → create_route client src cluster_cidr route s ≡ (ok tt, s')
        → (gateway : Ip) × (is_target_address client gateway route.target_node_addresses ≡ true)
          × (g : Ip) × (view s'.world (client.cidr_string cidr) ≡ some g)
          × (ip_equal g gateway ≡ true)
    unfolding create_route
    create_route_installs route ip cidr s s' parsed e =
        let (gateway, listed, (g, found, same)) =
          created route cidr (create_parsed client src cluster_cidr route (some (ip, cidr)) s) s'
            (create_parsed-Created route ip cidr s) (rw parsed at e) in
        (gateway, listed, g, found, same)
