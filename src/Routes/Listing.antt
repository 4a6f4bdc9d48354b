-- ===== src/Routes/Listing.antt =====
-- hcloud/routes.go: `ListRoutes`, and the node that it finds for a route.
use hcloud_cloud_controller.Common.{
  String, true, false, none, some, List, [], ◌∷◌, ◌≡◌, ◌⊎◌, refl, sym, ◌∙◌, inl, inr, arith,
  Option-cases, Bool-cases, lookup, insert, lookup-insert, ◌==◌, Eq-string,
}
use hcloud_cloud_controller.Cache.{Source}
use hcloud_cloud_controller.Routes.{
  Ip, IpNet, NetworkRoute, Network, Client, index_server, servers_by_private_ip, describe,
}

module _ {W E Server Act : Type 0} (client : Client W E Server Act) (src : Source W E Server)
    (cluster_cidr : IpNet) (network : Network) where
  -- One of the servers has the address in the network.
  abbrev pub HasAddress : String → Server → List Server → Type 0
  HasAddress a v [] = ⊥
  HasAddress a v (u ∷ us) =
      ((u ≡ v)
        × (ip : Ip) × (client.private_net_for v network.id ≡ some ip)
        × (client.ip_string ip ≡ a))
      ⊎ HasAddress a v us

  index_server-found :
      (u v : Server) (m : List (String × Server)) (a : String)
      → lookup a (index_server client src cluster_cidr network m u) ≡ some v
      → HasAddress a v (u ∷ []) ⊎ (lookup a m ≡ some v)
  unfolding index_server
  index_server-found u v m a e = elim (Option-cases (client.private_net_for u network.id)) [
    | inl off ↦ inr (rw (off, index_server) at e)
    | inr (ip, on) ↦
        let e' : lookup a (insert (client.ip_string ip) u m) ≡ some v =
          rw (on, index_server) at e in
        elim (Bool-cases (client.ip_string ip == a)) [
          | inl same ↦
              let e'' : u ≡ v = ground (arith, lookup-insert (client.ip_string ip) a u m) in
              inl (
                inl (e'', ip, rw (sym e'') on, (Eq-string.test_iff (client.ip_string ip) a).0 same))
          | inr other ↦ inr (ground (arith, lookup-insert (client.ip_string ip) a u m))
        ]
  ]

  servers_by_private_ip-found :
      (servers : List Server) (v : Server) (m : List (String × Server)) (a : String)
      → lookup a (servers_by_private_ip client src cluster_cidr network servers m) ≡ some v
      → HasAddress a v servers ⊎ (lookup a m ≡ some v)
  unfolding servers_by_private_ip
  servers_by_private_ip-found [] v m a e = inr e
  servers_by_private_ip-found (u ∷ us) v m a e =
      elim (servers_by_private_ip-found us v (index_server client src cluster_cidr network m u) a
        e) [
          | inl later ↦ inl (inr later)
          | inr now ↦ elim (index_server-found u v m a now) [
            | inl (inl here) ↦ inl (inl here)
            | inl (inr nothing) ↦ absurd nothing
            | inr before ↦ inr before
          ]
        ]

  index_server-none :
      (u : Server) (m : List (String × Server)) (a : String)
      → lookup a (index_server client src cluster_cidr network m u) ≡ none
      → (lookup a m ≡ none)
        × ((ip : Ip) → client.private_net_for u network.id ≡ some ip → client.ip_string ip ≡ a → ⊥)
  unfolding index_server
  index_server-none u m a e = elim (Option-cases (client.private_net_for u network.id)) [
    | inl off ↦ (
      rw (off, index_server) at e,
      λ ip on same. let e' : none ≡ some ip = sym off ∙ on in absurd cc,
    )
    | inr (ip, on) ↦
        let e' : lookup a (insert (client.ip_string ip) u m) ≡ none = rw (on, index_server) at e in
        elim (Bool-cases (client.ip_string ip == a)) [
          | inl same ↦ absurd (ground (arith, lookup-insert (client.ip_string ip) a u m))
          | inr other ↦ (
            ground (arith, lookup-insert (client.ip_string ip) a u m),
            λ ip' on' same.
                let e'' : some ip ≡ some ip' = sym on ∙ on' in
                let e3 : ip ≡ ip' = cc in
                let e4 : (client.ip_string ip == a) ≡ true =
                  (Eq-string.test_iff (client.ip_string ip) a).1 (rw e3 same) in
                absurd cc,
          )
        ]
  ]

  servers_by_private_ip-none :
      (servers : List Server) (m : List (String × Server)) (a : String)
      → lookup a (servers_by_private_ip client src cluster_cidr network servers m) ≡ none
      → (lookup a m ≡ none) × ((v : Server) → HasAddress a v servers → ⊥)
  unfolding servers_by_private_ip
  servers_by_private_ip-none [] m a e = (e, λ v h. h)
  servers_by_private_ip-none (u ∷ us) m a e =
      let (before, later) =
        servers_by_private_ip-none us (index_server client src cluster_cidr network m u) a e in
      let (absent, here) = index_server-none u m a before in
      (
        absent,
        λ v h. elim h [ inl (same, ip, on, e') ↦ here ip (rw same on) e' | inr h' ↦ later v h' ],
      )

  -- The node of a listed route that is no blackhole is named after a cached server whose address in
  -- the network is the route's gateway.
  pub describe_target :
      (servers : List Server) (r : NetworkRoute)
      → (describe client src cluster_cidr
          (servers_by_private_ip client src cluster_cidr network servers [])
          r).blackhole
        ≡ false
      → (v : Server) × (HasAddress (client.ip_string r.gateway) v servers)
        × ((describe client src cluster_cidr
              (servers_by_private_ip client src cluster_cidr network servers [])
              r).target_node
            ≡ src.get_name v)
  unfolding describe
  describe_target servers r e =
      let m = servers_by_private_ip client src cluster_cidr network servers [] in
      elim (Option-cases (lookup (client.ip_string r.gateway) m)) [
        | inl missing ↦ absurd (let e' = rw (missing, describe) at e in cc)
        | inr (v, found) ↦ (
          v,
          elim (servers_by_private_ip-found servers v [] (client.ip_string r.gateway) found) [
            | inl h ↦ h
            | inr impossible ↦ absurd (unfold lookup in cc)
          ],
          rw (found, describe) refl,
        )
      ]

  -- A listed route is a blackhole only if no cached server has the route's gateway as its address
  -- in the network.
  pub describe_blackhole :
      (servers : List Server) (r : NetworkRoute) (v : Server)
      → (describe client src cluster_cidr
          (servers_by_private_ip client src cluster_cidr network servers [])
          r).blackhole
        ≡ true
      → ¬ HasAddress (client.ip_string r.gateway) v servers
  unfolding describe
  describe_blackhole servers r v e =
      let m = servers_by_private_ip client src cluster_cidr network servers [] in
      elim (Option-cases (lookup (client.ip_string r.gateway) m)) [
        | inl missing ↦
            (servers_by_private_ip-none servers [] (client.ip_string r.gateway) missing).1 v
        | inr (u, found) ↦ absurd (let e' = rw (found, describe) at e in cc)
      ]
