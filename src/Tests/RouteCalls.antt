-- ===== src/Tests/RouteCalls.antt =====
-- hcloud/routes.go with one node and one destination. The outside world is the gateway of the route
-- to 10.244.1.0/24, if there is one.
use hcloud_cloud_controller.Common.{
  ℕ, ℤ, pos, String, Bool, true, false, ◌≡◌, refl, Option, none, some, List, [], ◌∷◌, Result, ok,
  err, Exec, if◌then◌else◌, ◌==◌, Eq-string, lookup, insert, arith,
}
use hcloud_cloud_controller.Kube.{Node, internal_ip}
use hcloud_cloud_controller.Cache.{Source, Mode, new_cache}
use hcloud_cloud_controller.Cache
use hcloud_cloud_controller.Hcops.Targets.{is_internal_ip}
use hcloud_cloud_controller.Common
use hcloud_cloud_controller.Routes.{
  Ip, IpNet, NetworkRoute, Network, Route, Client, State, upsert_route, create_route, delete_route,
  delete, describe, servers_by_private_ip, reload_network, call, set_network, find_route, replace,
  add, finish_add, ip_equal, bytes_eq, create_parsed, is_ipv4, resolve_route_target, look_up,
  with_cache, target_of, attached, create_via, is_target_address, warn_cidr_mismatch, find_gateway,
  is_unspecified, delete_parsed, index_server,
}
use hcloud_cloud_controller.Routes.Upsert.{RouteLaws, Shows, upsert_route_others}
use hcloud_cloud_controller.Routes.Install.{upsert_route_installs, create_route_installs}
use hcloud_cloud_controller.Routes.Deletion.{delete_route_unknown, delete_route_removes}
use hcloud_cloud_controller.Routes.Listing.{HasAddress, describe_target, describe_blackhole}

abbrev Server : Type 0
Server = ℤ × String

abbrev World : Type 0
World = Option Ip

abbrev address : Ip
address = 10 ∷ 0 ∷ 0 ∷ 7 ∷ []

abbrev old_address : Ip
old_address = 10 ∷ 0 ∷ 0 ∷ 6 ∷ []

abbrev pods : IpNet
pods = record { ip = 10 ∷ 244 ∷ 1 ∷ 0 ∷ []; prefix_length = 24 }

abbrev pods_text : String
pods_text = "10.244.1.0/24"

abbrev shown : World → List NetworkRoute
shown none = []
shown (some g) = record { destination = pods; gateway = g } ∷ []

abbrev network_of : World → Network
network_of w = record { id = pos 3; name = "net"; routes = shown w }

abbrev view : World → String → Option Ip
view w d = if d == pods_text then w else none

abbrev alpha : Server
alpha = (pos 7, "alpha")

abbrev node : Node
node = record { name = "alpha"; provider_id = []; labels = []; addresses = [] }

abbrev client : Client World String Server (Unit {0})
client = record {
  get_network = λ id w. (ok (some (network_of w)), w);
  add_route = λ n r w. (ok tt, some r.gateway);
  delete_route = λ n r w. (ok tt, none);
  wait_for = λ a w. (ok tt, w);
  get_node = λ name w. (ok node, w);
  warn_cidr = λ n c w. w;
  is_locked_or_conflict = λ e. false;
  private_net_for = λ v id. some address;
  parse_cidr = λ s. some (pods.ip, pods);
  ip_string = λ ip. "10.0.0.7";
  cidr_string = λ n. pods_text;
  contains = λ n ip. true;
}

abbrev source : Source World String Server
source = record {
  fetch_one_by_id = λ id w. (ok (some alpha), w);
  fetch_one_by_name = λ name w. (ok (some alpha), w);
  fetch_all = λ w. (ok (alpha ∷ []), w);
  get_id = λ v. v.0;
  get_name = λ v. v.1;
  now = λ w. (1000, w);
}

shown-Shows : (w : World) → Shows view client (ok (some (network_of w)), w)
unfolding find_route
shown-Shows none d = ground arith
shown-Shows (some g) d =
    ground (arith, Eq-string.test_iff d pods_text, Eq-string.test_iff pods_text d)

laws : RouteLaws view client
laws = record {
  get = λ id w d. refl;
  shows = λ id w. shown-Shows w;
  add = λ n r w c. ground arith;
  delete = λ n r w c. ground arith;
  wait_for = λ a w d. refl;
}

abbrev stale : State World Server
stale = record {
  network = network_of (some old_address);
  servers = new_cache Mode.all (pos 0);
  world = some old_address;
}

abbrev route : Route
route = record {
  name = "alpha";
  target_node = "alpha";
  target_node_addresses = record { type = internal_ip; address = "10.0.0.7" } ∷ [];
  destination_cidr = pods_text;
  blackhole = false;
}

upsert_route_others_example :
    view (upsert_route client address pods stale).1.world "10.244.2.0/24" ≡ none
upsert_route_others_example =
    upsert_route_others client view laws address pods stale "10.244.2.0/24" refl

program : Unit {0}
unfolding upsert_route reload_network call set_network find_route replace add finish_add delete
    ip_equal bytes_eq
program = tt

upserted :
    upsert_route client address pods stale ≡ (ok tt, (upsert_route client address pods stale).1)
unfolding program
upserted = refl

upsert_route_installs_example :
    (g : Ip) × (view (upsert_route client address pods stale).1.world pods_text ≡ some g)
    × (ip_equal g address ≡ true)
upsert_route_installs_example =
    upsert_route_installs client view laws address pods stale
      (upsert_route client address pods stale).1 upserted

created :
    create_route client source pods route stale
    ≡ (ok tt, (create_route client source pods route stale).1)
unfolding program create_route create_parsed is_ipv4 resolve_route_target look_up with_cache
    target_of attached create_via is_target_address warn_cidr_mismatch is_internal_ip Cache.by_name
    Cache.get_from_cache Cache.get_cached Cache.after_lookup Cache.refresh Cache.refresh_all
    Cache.store_all Cache.store Cache.look_again Cache.call Cache.time_now Cache.count
    Cache.valid_value Cache.new_cache Cache.new_cache_refresh_opts Cache.with_max_age Cache.is_off
    Common.lookup Common.insert Common.time_sub
created = refl

create_route_installs_example :
    (gateway : Ip) × (is_target_address client gateway route.target_node_addresses ≡ true)
    × (g : Ip) × (view (create_route client source pods route stale).1.world pods_text ≡ some g)
    × (ip_equal g gateway ≡ true)
create_route_installs_example =
    create_route_installs client view laws source pods route pods.ip pods stale
      (create_route client source pods route stale).1 refl created

abbrev empty : State World Server
empty = record { network = network_of none; servers = new_cache Mode.all (pos 0); world = none }

absent : find_route client pods_text empty.network.routes ≡ none
unfolding find_route
absent = refl

delete_route_unknown_example :
    delete_route client route empty
    ≡ delete client (record { destination = pods; gateway = [] }) empty
delete_route_unknown_example = delete_route_unknown client route pods.ip pods empty absent refl

deleted : delete_route client route stale ≡ (ok tt, (delete_route client route stale).1)
unfolding program delete_route find_gateway is_unspecified delete_parsed
deleted = refl

delete_route_removes_example : view (delete_route client route stale).1.world pods_text ≡ none
delete_route_removes_example =
    delete_route_removes client view laws route pods.ip pods stale
      (delete_route client route stale).1 refl deleted

abbrev listed : List (String × Server) → Route
listed m = describe client source pods m (record { destination = pods; gateway = address })

targeted :
    (listed (servers_by_private_ip client source pods (network_of none) (alpha ∷ []) [])).blackhole
    ≡ false
unfolding describe servers_by_private_ip index_server Common.lookup Common.insert
targeted = refl

describe_target_example :
    (v : Server) × HasAddress client source pods (network_of none) "10.0.0.7" v (alpha ∷ [])
    × ((listed
          (servers_by_private_ip client source pods (network_of none) (alpha ∷ []) [])).target_node
        ≡ v.1)
describe_target_example =
    describe_target client source pods (network_of none) (alpha ∷ [])
      (record { destination = pods; gateway = address }) targeted

untargeted :
    (listed (servers_by_private_ip client source pods (network_of none) [] [])).blackhole ≡ true
unfolding describe servers_by_private_ip Common.lookup
untargeted = refl

describe_blackhole_example : ¬ HasAddress client source pods (network_of none) "10.0.0.7" alpha []
describe_blackhole_example =
    describe_blackhole client source pods (network_of none) []
      (record { destination = pods; gateway = address }) alpha untargeted
