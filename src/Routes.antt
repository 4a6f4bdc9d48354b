-- ===== src/Routes.antt =====
-- hcloud/routes.go: the routes of the network. Metrics and klog output are left out. The texts of
-- IP addresses and of networks, and the reading of a CIDR, are parameters, as is `PrivateNetFor`.
pub mod Data
pub mod Upsert
pub mod Install
pub mod Listing
pub mod Deletion
unfoldable pub use Data.*
use Prim.Native.String.{◌++◌ as text_append}
use hcloud_cloud_controller.Common.{
  ℕ, ◌-◌, ℤ, pos, String, Bool, true, false, ◌&&◌, ◌||◌, not, Option, none, some, List, [], ◌∷◌,
  ◌++◌, map, ltb, nat_eq, if◌then◌else◌, Result, ok, err, Exec, ◌>>=◌, ◌>>◌, pure, fail, lookup,
  insert, ◌==◌, Eq-string, length, second, ◌*◌,
}
use hcloud_cloud_controller.Kube.{Node, NodeAddress}
use hcloud_cloud_controller.Hcops.Targets.{is_internal_ip}
use hcloud_cloud_controller.ProviderId.{Bytes, to_server_id, has_prefix}
use hcloud_cloud_controller.ProviderId
use hcloud_cloud_controller.Cache
use hcloud_cloud_controller.Cache.{Source, RefreshOption}

pub record State (W Server : Type 0) : Type 0 where
  pub network : Network
  pub servers : Cache.Cache Server
  pub world : W

abbrev pub route_target_cache_max_age : RefreshOption
route_target_cache_max_age = Cache.with_max_age (pos (60 * second))

module _ {W E Server Act : Type 0} (client : Client W E Server Act) where
  unfoldable pub call : {A : Type 0} → Exec W E A → Exec (State W Server) (RouteError E) A
  call m s =
      let (r, w) = m s.world in
      (elim r [ ok a ↦ ok a | err e ↦ err (api e) ], record s { world = w })

  unfoldable pub with_cache :
      {A : Type 0} → Exec (Cache.State W Server) E A → Exec (State W Server) (RouteError E) A
  with_cache m s =
      let (r, c) = m (record { cache = s.servers; world = s.world }) in
      (
        elim r [ ok a ↦ ok a | err e ↦ err (api e) ],
        record s { servers = c.cache; world = c.world },
      )

  unfoldable pub with_cidr : Network → Option (Ip × IpNet) → Result (RouteError E) (Network × IpNet)
  with_cidr network none = err invalid_cidr
  with_cidr network (some (_, cidr)) = ok (network, cidr)

  unfoldable pub checked_network :
      String → Result E (Option Network) → Result (RouteError E) (Network × IpNet)
  unfolding with_cidr
  checked_network cidr (err e) = err (api e)
  checked_network cidr (ok none) = err network_not_found
  checked_network cidr (ok (some network)) = with_cidr network (client.parse_cidr cidr)

  -- `newRoutes`: the fields `network` and `clusterCIDR`
  unfoldable pub new_routes : ℤ → String → Exec W (RouteError E) (Network × IpNet)
  unfolding checked_network
  new_routes network_id cluster_cidr w =
      let (r, w') = client.get_network network_id w in (checked_network cluster_cidr r, w')

  -- What `reloadNetwork` does with the API's answer.
  unfoldable pub set_network : Option Network → Exec (State W Server) (RouteError E) (Unit {0})
  set_network none = fail network_not_found
  set_network (some n) = λ s. (ok tt, record s { network = n })

  unfoldable pub reload_network : Exec (State W Server) (RouteError E) (Unit {0})
  unfolding call set_network
  reload_network s = (do network ← call (client.get_network s.network.id); set_network network) s

  -- `slices.IndexFunc` for the destination, with the element
  unfoldable pub find_route : String → List NetworkRoute → Option NetworkRoute
  find_route destination [] = none
  find_route destination (r ∷ rs) =
      if client.cidr_string r.destination == destination then some r else find_route destination rs

  -- An error of the addition, which is a conflict if the API says locked or conflict.
  unfoldable pub add_error : E → RouteError E
  add_error e = if client.is_locked_or_conflict e then conflict e else api e

  unfoldable pub finish_add : Result E Act → Exec (State W Server) (RouteError E) (Unit {0})
  unfolding call add_error
  finish_add (ok action) = call (client.wait_for action)
  finish_add (err e) = fail (add_error e)

  unfoldable pub add : Ip → IpNet → Exec (State W Server) (RouteError E) (Unit {0})
  unfolding finish_add
  add gateway cidr s =
      let (r, w) =
        client.add_route s.network (record { destination = cidr; gateway = gateway }) s.world in
      finish_add r (record s { world = w })

  unfoldable pub delete : NetworkRoute → Exec (State W Server) (RouteError E) (Unit {0})
  unfolding call
  delete route s =
      (do action ← call (client.delete_route s.network route); call (client.wait_for action)) s

  unfoldable pub replace :
      Ip → IpNet → Option NetworkRoute → Exec (State W Server) (RouteError E) (Unit {0})
  unfolding ip_equal add delete
  replace gateway cidr none = add gateway cidr
  replace gateway cidr (some existing) =
      if ip_equal existing.gateway gateway then pure tt else (do delete existing; add gateway cidr)

  unfoldable pub upsert_route : Ip → IpNet → Exec (State W Server) (RouteError E) (Unit {0})
  unfolding reload_network find_route replace
  upsert_route gateway cidr = do
    reload_network
    λ s. replace gateway cidr (find_route (client.cidr_string cidr) s.network.routes) s

  unfoldable pub find_gateway : String → List NetworkRoute → Ip
  unfolding find_route
  find_gateway destination routes = elim (find_route destination routes) [
    | none ↦ []
    | some r ↦ r.gateway
  ]

  unfoldable pub delete_parsed :
      Ip → Option (Ip × IpNet) → Exec (State W Server) (RouteError E) (Unit {0})
  unfolding delete
  delete_parsed gateway none = fail invalid_cidr
  delete_parsed gateway (some (_, cidr)) = delete (record { destination = cidr; gateway = gateway })

  -- `DeleteRoute`, which reads the network as it was loaded last.
  unfoldable pub delete_route : Route → Exec (State W Server) (RouteError E) (Unit {0})
  unfolding find_gateway is_unspecified delete_parsed
  delete_route route s =
      let ip = find_gateway route.destination_cidr s.network.routes in
      if is_unspecified ip
      then (err route_not_found, s)
      else delete_parsed ip (client.parse_cidr route.destination_cidr) s

  unfoldable pub attached : Node → Option Ip → Exec (State W Server) (RouteError E) (Node × Ip)
  attached node none = fail network_not_attached
  attached node (some ip) = pure (node, ip)

  unfoldable pub target_of : Node → Option Server → Exec (State W Server) (RouteError E) (Node × Ip)
  unfolding attached
  target_of node none s = fail server_not_found s
  target_of node (some server) s = attached node (client.private_net_for server s.network.id) s

  unfoldable pub is_target_address : Ip → List NodeAddress → Bool
  unfolding is_internal_ip
  is_target_address gateway [] = false
  is_target_address gateway (a ∷ as') =
      is_internal_ip a.type && a.address == client.ip_string gateway
      || is_target_address gateway as'

  unfoldable pub warn_cidr_mismatch :
      IpNet → IpNet → Node → Exec (State W Server) (RouteError E) (Unit {0})
  warn_cidr_mismatch cluster cidr node s =
      if not (client.contains cluster cidr.ip) || ltb cidr.prefix_length cluster.prefix_length
      then (ok tt, record s { world = client.warn_cidr node cidr s.world })
      else (ok tt, s)

  module _ (src : Source W E Server) (cluster_cidr : IpNet) where
    unfoldable pub look_up_cloud :
        Result ProviderId.Error (ℤ × Bool) → Exec (State W Server) (RouteError E) (Option Server)
    unfolding with_cache
    look_up_cloud (err e) = fail (provider_id_error e)
    look_up_cloud (ok (id, false)) = fail not_a_cloud_server
    look_up_cloud (ok (id, true)) =
        with_cache (Cache.by_id src "routes" id (route_target_cache_max_age ∷ []))

    -- A node without a provider ID is looked up by its name.
    unfoldable pub look_up : Node → Bytes → Exec (State W Server) (RouteError E) (Option Server)
    unfolding look_up_cloud with_cache
    look_up node [] =
        with_cache (Cache.by_name src "routes" node.name (route_target_cache_max_age ∷ []))
    look_up node (c ∷ p) = look_up_cloud (to_server_id (c ∷ p))

    unfoldable pub resolve_route_target : String → Exec (State W Server) (RouteError E) (Node × Ip)
    unfolding call look_up target_of
    resolve_route_target node_name = do
      node ← call (client.get_node node_name)
      server ← look_up node node.provider_id
      target_of node server

    unfoldable pub create_via :
        Route → IpNet → Node × Ip → Exec (State W Server) (RouteError E) (Unit {0})
    unfolding is_target_address warn_cidr_mismatch upsert_route
    create_via route cidr (node, gateway) =
        if is_target_address gateway route.target_node_addresses
        then (do warn_cidr_mismatch cluster_cidr cidr node; upsert_route gateway cidr)
        else fail not_a_target_address

    unfoldable pub create_parsed :
        Route → Option (Ip × IpNet) → Exec (State W Server) (RouteError E) (Unit {0})
    unfolding is_ipv4 resolve_route_target create_via
    create_parsed route none = fail invalid_cidr
    create_parsed route (some (ip, cidr)) =
        if is_ipv4 ip
        then (do target ← resolve_route_target route.target_node; create_via route cidr target)
        else fail ipv6_unsupported

    unfoldable pub create_route : Route → Exec (State W Server) (RouteError E) (Unit {0})
    unfolding create_parsed
    create_route route = create_parsed route (client.parse_cidr route.destination_cidr)

    -- `serversByPrivateIP`
    unfoldable pub index_server : Network → List (String × Server) → Server → List (String × Server)
    index_server network m server = elim (client.private_net_for server network.id) [
      | none ↦ m
      | some ip ↦ insert (client.ip_string ip) server m
    ]

    unfoldable pub servers_by_private_ip :
        Network → List Server → List (String × Server) → List (String × Server)
    unfolding index_server
    servers_by_private_ip network [] m = m
    servers_by_private_ip network (v ∷ vs) m =
        servers_by_private_ip network vs (index_server network m v)

    unfoldable pub describe : List (String × Server) → NetworkRoute → Route
    describe m r =
        let target = lookup (client.ip_string r.gateway) m in
        record {
          name =
              text_append (client.ip_string r.gateway)
                (text_append "-" (client.cidr_string r.destination));
          target_node = elim target [ none ↦ "" | some server ↦ src.get_name server ];
          target_node_addresses = [];
          destination_cidr = client.cidr_string r.destination;
          blackhole = elim target [ none ↦ true | some _ ↦ false ];
        }

    unfoldable pub list_routes : Exec (State W Server) (RouteError E) (List Route)
    unfolding reload_network with_cache servers_by_private_ip describe
    list_routes = do
      reload_network
      servers ← with_cache (Cache.all_values src "routes" [])
      λ s. (ok (map (describe (servers_by_private_ip s.network servers [])) s.network.routes), s)
