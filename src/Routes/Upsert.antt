-- ===== src/Routes/Upsert.antt =====
-- hcloud/routes.go: the addition of a route, `upsertRoute` and `CreateRoute`, and the routes that
-- the API has afterwards.
use hcloud_cloud_controller.Common.{
  ℤ, String, false, Option, none, some, List, [], ◌∷◌, ◌≡◌, refl, sym, ◌∙◌, ap, inl, inr,
  if◌then◌else◌, Result, Option-cases, Bool-cases, ok, err, Keeps, Keeps-bind, Exec, ◌==◌,
  Eq-string,
}
use hcloud_cloud_controller.Routes.{
  Ip, IpNet, NetworkRoute, Network, Client, State, call, set_network, reload_network, find_route,
  finish_add, add, delete, replace, upsert_route, ip_equal,
}

module _ {W : Type 0} (view : W → String → Option Ip) where
  abbrev pub Same : W → W → Type 0
  Same w w' = (d : String) → view w' d ≡ view w d

  -- The view after a call that puts `g` under the destination if it is accepted.
  abbrev pub Puts : {E A : Type 0} → String → Option Ip → W → Result E A × W → Type 0
  Puts d g w (ok _, w') = (c : String) → view w' c ≡ (if c == d then g else view w c)
  Puts d g w (err _, w') = Same w w'

  abbrev pub gateway_of : Option NetworkRoute → Option Ip
  gateway_of none = none
  gateway_of (some r) = some r.gateway

  -- The answer of the API shows the routes that it has.
  abbrev pub Shows :
      {E Server Act : Type 0} → Client W E Server Act → Result E (Option Network) × W → Type 0
  Shows client (ok (some n), w) =
      (d : String) → view w d ≡ gateway_of (find_route client d n.routes)
  Shows client (ok none, w) = Unit
  Shows client (err _, w) = Unit

  -- How the calls change the routes of the network that the API has, where `view w d` is the
  -- gateway of the route to the destination `d`, if there is one.
  pub record RouteLaws {E Server Act : Type 0} (client : Client W E Server Act) : Type 0 where
    pub get : (id : ℤ) (w : W) → Same w (client.get_network id w).1
    pub shows : (id : ℤ) (w : W) → Shows client (client.get_network id w)
    pub add :
        (n : Network) (r : NetworkRoute) (w : W)
        → Puts (client.cidr_string r.destination) (some r.gateway) w (client.add_route n r w)
    pub delete :
        (n : Network) (r : NetworkRoute) (w : W)
        → Puts (client.cidr_string r.destination) none w (client.delete_route n r w)
    pub wait_for : (a : Act) (w : W) → Same w (client.wait_for a w).1

module _ {W E Server Act : Type 0} (client : Client W E Server Act) (view : W → String → Option Ip)
    (laws : RouteLaws view client) where
  find_route-destination :
      (d : String) (rs : List NetworkRoute) (r : NetworkRoute)
      → find_route client d rs ≡ some r
      → client.cidr_string r.destination ≡ d
  unfolding find_route
  find_route-destination d [] r e = absurd cc
  find_route-destination d (q ∷ rs) r e =
      elim (Bool-cases (client.cidr_string q.destination == d)) [
        | inl same ↦
            let e' : some q ≡ some r = rw same at e in
            let e'' : q ≡ r = cc in
            sym (ap (λ (x : NetworkRoute). client.cidr_string x.destination) e'')
            ∙ (Eq-string.test_iff (client.cidr_string q.destination) d).0 same
        | inr other ↦ find_route-destination d rs r (rw other at e)
      ]

  Puts-other :
      {A : Type 0} (c d : String) (g : Option Ip) (w : W) (x : Result E A × W)
      → Puts view d g w x
      → (c == d) ≡ false
      → view x.1 c ≡ view w c
  Puts-other c d g w (ok a, w') h other = rw (h c, other) refl
  Puts-other c d g w (err e, w') h other = h c

  -- What the API has for another destination.
  module _ (c : String) (v : Option Ip) where
    abbrev Kept : State W Server → Type 0
    Kept s = view s.world c ≡ v

    call-Keeps :
        {A : Type 0} (m : Exec W E A)
        → ((w : W) → view (m w).1 c ≡ view w c)
        → Keeps Kept (call client m)
    unfolding call
    call-Keeps m same s h = same s.world ∙ h

    set_network-Keeps : (n : Option Network) → Keeps Kept (set_network client n)
    unfolding set_network
    set_network-Keeps none s h = h
    set_network-Keeps (some n) s h = h

    reload_network-Keeps : Keeps Kept (reload_network client)
    unfolding reload_network
    reload_network-Keeps s h =
        Keeps-bind Kept (call client (client.get_network s.network.id)) (set_network client)
          (call-Keeps (client.get_network s.network.id) (λ w. laws.get s.network.id w c))
          set_network-Keeps s h

    wait-Keeps : (a : Act) → Keeps Kept (call client (client.wait_for a))
    wait-Keeps a = call-Keeps (client.wait_for a) (λ w. laws.wait_for a w c)

    finish_add-Keeps : (r : Result E Act) → Keeps Kept (finish_add client r)
    unfolding finish_add
    finish_add-Keeps (ok a) s h = wait-Keeps a s h
    finish_add-Keeps (err e) s h = h

    add-Keeps :
        (gateway : Ip) (cidr : IpNet)
        → (c == client.cidr_string cidr) ≡ false
        → Keeps Kept (add client gateway cidr)
    unfolding add
    add-Keeps gateway cidr other s h =
        let r : NetworkRoute = record { destination = cidr; gateway = gateway } in
        finish_add-Keeps (client.add_route s.network r s.world).0 _
          (Puts-other c _ (some gateway) s.world _ (laws.add s.network r s.world) other ∙ h)

    delete-Keeps :
        (r : NetworkRoute)
        → (c == client.cidr_string r.destination) ≡ false
        → Keeps Kept (delete client r)
    unfolding delete
    delete-Keeps r other s h =
        Keeps-bind Kept (call client (client.delete_route s.network r))
          (λ a. call client (client.wait_for a))
          (call-Keeps (client.delete_route s.network r)
            (λ w. Puts-other c _ none w _ (laws.delete s.network r w) other))
          wait-Keeps s h

    replace-Keeps :
        (gateway : Ip) (cidr : IpNet) (rs : List NetworkRoute)
        → (c == client.cidr_string cidr) ≡ false
        → Keeps Kept (replace client gateway cidr (find_route client (client.cidr_string cidr) rs))
    unfolding replace
    replace-Keeps gateway cidr rs other s h =
        elim (Option-cases (find_route client (client.cidr_string cidr) rs)) [
          | inl e ↦ rw e (add-Keeps gateway cidr other s h)
          | inr (r, e) ↦
              let same = find_route-destination (client.cidr_string cidr) rs r e in
              rw e (elim (Bool-cases (ip_equal r.gateway gateway)) [
                | inl there ↦ rw there h
                | inr stale ↦ rw stale (
                    Keeps-bind Kept (delete client r) (λ _. add client gateway cidr)
                      (delete-Keeps r (rw same other)) (λ _. add-Keeps gateway cidr other) s h)
              ])
        ]

  -- Whether `upsertRoute` succeeds or fails, the API keeps its route to every destination other
  -- than the one given; given that an accepted call adds or deletes the route of its destination
  -- only.
  pub upsert_route_others :
      (gateway : Ip) (cidr : IpNet) (s : State W Server) (c : String)
      → (c == client.cidr_string cidr) ≡ false
      → view (upsert_route client gateway cidr s).1.world c ≡ view s.world c
  unfolding upsert_route
  upsert_route_others gateway cidr s c other =
      Keeps-bind (Kept c (view s.world c)) (reload_network client) _
        (reload_network-Keeps c (view s.world c))
        (λ _ s'. replace-Keeps c (view s.world c) gateway cidr s'.network.routes other s') s refl
