-- ===== src/Routes/Deletion.antt =====
-- hcloud/routes.go: `DeleteRoute`.
use hcloud_cloud_controller.Common.{
  String, Option, none, some, List, [], ◌≡◌, refl, sym, ◌∙◌, ap, inl, inr, Result, Result-cases,
  Bool-cases, ok, err, continue, ==-refl, Eq-string,
}
use hcloud_cloud_controller.Routes.{
  Ip, IpNet, NetworkRoute, Client, State, RouteError, api, call, find_route, find_gateway, delete,
  is_unspecified, ip_equal, Route, delete_route, delete_parsed,
}
use hcloud_cloud_controller.Routes.Upsert.{Puts, RouteLaws}

module _ {W E Server Act : Type 0} (client : Client W E Server Act) where
  find_gateway-absent :
      (d : String) (rs : List NetworkRoute)
      → find_route client d rs ≡ none
      → find_gateway client d rs ≡ []
  unfolding find_gateway
  find_gateway-absent d rs e = rw (e, find_gateway) refl

  -- The nil address is not `0.0.0.0` nor `::`. So where the network has no route to the
  -- destination, `DeleteRoute` does not fail with its error for that: it asks the API to delete a
  -- route to the destination without a gateway, and gives back the outcome of that call.
  pub delete_route_unknown :
      (route : Route) (ip : Ip) (cidr : IpNet) (s : State W Server)
      → find_route client route.destination_cidr s.network.routes ≡ none
      → client.parse_cidr route.destination_cidr ≡ some (ip, cidr)
      → delete_route client route s ≡ delete client (record { destination = cidr; gateway = [] }) s
  unfolding delete_route is_unspecified ip_equal delete_parsed
  delete_route_unknown route ip cidr s absent parsed =
      rw (find_gateway-absent route.destination_cidr s.network.routes absent, parsed) refl

  module _ (view : W → String → Option Ip) (laws : RouteLaws view client) where
    abbrev Gone : {A : Type 0} → String → Result (RouteError E) A × State W Server → Type 0
    Gone d (ok _, s) = view s.world d ≡ none
    Gone d (err _, s) = Unit

    after_wait :
        (d : String) (a : Act) (s : State W Server)
        → view s.world d ≡ none
        → Gone d (call client (client.wait_for a) s)
    unfolding call
    after_wait d a s e = elim (Result-cases (client.wait_for a s.world).0) [
      | inl (u, r) ↦ rw r (laws.wait_for a s.world d ∙ e)
      | inr (c, r) ↦ rw r tt
    ]

    after_delete :
        (d : String) (w : W) (x : Result E Act × W) (s : State W Server)
        → Puts view d none w x
        → Gone d (
            continue {E = RouteError E}
              (elim x.0 [ ok a ↦ ok a | err e ↦ err (api e) ])
              (λ a. call client (client.wait_for a))
              (record s { world = x.1 }))
    after_delete d w (ok a, w') s h =
        after_wait d a (record s { world = w' }) (rw (h d, ==-refl d) refl)
    after_delete d w (err e, w') s h = tt

    delete-Gone :
        (r : NetworkRoute) (s : State W Server)
        → Gone (client.cidr_string r.destination) (delete client r s)
    unfolding delete call
    delete-Gone r s =
        after_delete (client.cidr_string r.destination) s.world
          (client.delete_route s.network r s.world) s (laws.delete s.network r s.world)

    delete_route-Gone :
        (route : Route) (ip : Ip) (cidr : IpNet) (s : State W Server)
        → client.parse_cidr route.destination_cidr ≡ some (ip, cidr)
        → Gone (client.cidr_string cidr) (delete_route client route s)
    unfolding delete_route delete_parsed
    delete_route-Gone route ip cidr s parsed =
        let gateway = find_gateway client route.destination_cidr s.network.routes in
        elim (Bool-cases (is_unspecified gateway)) [
          | inl unknown ↦ rw unknown tt
          | inr known ↦
              rw (known, parsed) (delete-Gone (record { destination = cidr; gateway = gateway }) s)
        ]

    gone :
        (d : String) (x : Result (RouteError E) (Unit {0}) × State W Server) (s : State W Server)
        → Gone d x
        → x ≡ (ok tt, s)
        → view s.world d ≡ none
    gone d (ok u, s') s h e =
        let e' : s' ≡ s = ap (λ (x : Result (RouteError E) (Unit {0}) × State W Server). x.1) e in
        rw (sym e') h
    gone d (err c, s') s h e =
        absurd
          (let e' = ap (λ (x : Result (RouteError E) (Unit {0}) × State W Server). x.0) e in cc)

    -- If `DeleteRoute` succeeds, the API then has no route to the destination; given that an
    -- accepted call of the API deletes the route to its destination.
    pub delete_route_removes :
        (route : Route) (ip : Ip) (cidr : IpNet) (s s' : State W Server)
        → client.parse_cidr route.destination_cidr ≡ some (ip, cidr)
        → delete_route client route s ≡ (ok tt, s')
        → view s'.world (client.cidr_string cidr) ≡ none
    delete_route_removes route ip cidr s s' parsed e =
        gone (client.cidr_string cidr) (delete_route client route s) s'
          (delete_route-Gone route ip cidr s parsed) e
