-- ===== src/Tests/InstanceCalls.antt =====
-- hcloud/instances.go with one server in the cloud and one at Robot.
use hcloud_cloud_controller.Common.{
  text_ne, ◌≢◌, ℕ, suc, ◌%◌, ◌+◌, ℤ, pos, String, Bool, true, false, ◌&&◌, ◌≡◌, refl, Option, none,
  some, List, [], ◌∷◌, ◌++◌, Result, ok, err, nat_eq, if◌then◌else◌, int_eq, int_eq_iff, ap, sym,
  ◌∙◌, Eq-int, Eq-string, ◌==◌, arith, Bool-cases, inl, inr, time_sub, time_add,
}
use hcloud_cloud_controller.Common
use hcloud_cloud_controller.Kube.{Node, internal_ip, host_name, external_ip}
use hcloud_cloud_controller.ProviderId.{
  Bytes, codes, to_server_id, has_prefix, remove_all, sweep, parse_id_string, parse_int, parse_uint,
  scan, with_sign, from_cloud_server_id,
}
use hcloud_cloud_controller.Cache
use hcloud_cloud_controller.Cache.{Source, State, Mode}
use hcloud_cloud_controller.Cache.Keyed.{IsKeyed}
use hcloud_cloud_controller.Robot.RateLimit
use hcloud_cloud_controller.Robot.RateLimit.{RobotClient, ClientError}
use hcloud_cloud_controller.Config.{HccmConfiguration}
use hcloud_cloud_controller.Instances.Data.{
  CloudServer, RobotServer, Network, Environment, InstanceMetadata,
}
use hcloud_cloud_controller.Instances.{
  name_from_location, replace_space, is_label_char, instance_type_of_product, first_part,
  get_zone_of_robot_server, get_region_of_robot_server, last_named, write_entries, cached, call,
  emit, get_robot_server_by_name, check_name, accept_not_found, find_robot_server,
  get_robot_server_by_id, as_robot, as_cloud, lookup_id, robot_by_name, choose, lookup_name,
  lookup_provider_id, lookup_server, is_found, instance_exists, required, is_shut_off, is_shutdown,
  instance_shutdown, write_back, metadata, instance_metadata,
}
use hcloud_cloud_controller.Instances.Addresses.{
  hcloud_node_addresses, robot_node_addresses, set_host_bit, with_low_bit, ipv4_address,
  ipv6_address, private_addresses, wants_ipv4, wants_ipv6, is_dual_stack,
}
use hcloud_cloud_controller.Instances.Forwarding.{IsReport, robot_node_addresses_iff}
use hcloud_cloud_controller.Instances.AddressLaws.{hcloud_node_addresses_idem}
use hcloud_cloud_controller.Instances.Identity.{instance_metadata_names, Numbered}
use hcloud_cloud_controller.Instances.Existence.{
  exists_of, instance_exists_robot, instance_exists_race, limited,
}

abbrev alpha : CloudServer
alpha = record {
  id = pos 7;
  name = "alpha";
  status = "running";
  server_type = "cx22";
  location = "fsn1";
  ipv4 = 1 ∷ 2 ∷ 3 ∷ 4 ∷ [];
  ipv6 = 32 ∷ 1 ∷ 0 ∷ [];
  private_net = [];
}

abbrev bare : RobotServer
bare = record {
  server_number = pos 321;
  name = "bare";
  product = "AX 41";
  dc = "HEL1-DC2";
  server_ip = "5.6.7.8";
  server_ipv6_net = "2001:db8::";
}

abbrev api : Source ℕ String CloudServer
api = record {
  fetch_one_by_id = λ id w. (ok (if int_eq id (pos 7) then some alpha else none), w);
  fetch_one_by_name = λ name w. (ok none, w);
  fetch_all = λ w. (ok (alpha ∷ []), w);
  get_id = λ v. v.id;
  get_name = λ v. v.name;
  now = λ w. (w, suc w);
}

abbrev zeros : Bytes → Bool
zeros [] = true
zeros (b ∷ bs) = nat_eq b 0 && zeros bs

zeros-set_host_bit : (ip : Bytes) → zeros ip ≡ false → zeros (set_host_bit ip) ≡ false
unfolding set_host_bit with_low_bit
zeros-set_host_bit [] h = absurd cc
zeros-set_host_bit (b ∷ []) h = ground arith
zeros-set_host_bit (b ∷ c ∷ bs) h = elim (Bool-cases (nat_eq b 0)) [
  | inl zero' ↦ rw zero' (zeros-set_host_bit (c ∷ bs) (rw zero' at h))
  | inr other ↦ rw other refl
]

abbrev net : Network
net = record {
  ip_string = λ ip. if zeros ip then "::" else "an address";
  ipv4_is_unspecified = zeros;
  ipv6_is_unspecified = zeros;
  is_ipv4 = λ s. s == "10.0.0.2";
}

abbrev env : Environment ℕ String
env = record {
  network = net;
  event = λ ev w. w;
  is_server_not_found = λ e. e == "not found";
  to_lower = λ s. s;
}

abbrev client : RobotClient ℕ String RobotServer String
client = record {
  server_get = λ id w. (if int_eq id (pos 321) then ok (some bare) else err "not found", w);
  server_get_list = λ w. (ok (bare ∷ []), w);
  reset_get = λ id w. (ok (some "running"), w);
}

abbrev cfg : HccmConfiguration
cfg = record {
  hcloud_client = record { token = "secret"; endpoint = ""; debug = false };
  robot = record {
    enabled = true;
    user = "";
    password = "";
    cache_timeout = pos 300_000_000_000;
    rate_limit_wait_time = pos 0;
    forward_internal_ips = true;
  };
  metrics = record { enabled = true; address = ":8233" };
  instance_configuration = record { address_family = "ipv6"; zone_label_enabled = true };
  load_balancer = record {
    algorithm_type = "round_robin";
    disable_public_network = some true;
    enabled = true;
    health_check_interval = pos 0;
    health_check_retries = pos 4;
    health_check_timeout = pos 0;
    ipv6_enabled = true;
    location = "fsn1";
    network_zone = "";
    private_ingress_enabled = true;
    private_ip_enabled = false;
    private_subnet_ip_range = "";
    proxy_protocol_enabled = none;
    type = "";
  };
  network = record { name_or_id = "net"; attached_check_enabled = true };
  route = record { enabled = false };
  server_cache = record { mode = Mode.all; max_age = pos 10_000_000_000 };
}

abbrev start : State ℕ CloudServer
start = record { cache = Cache.new_cache Mode.one (pos 100); world = 5 }

abbrev cloud_node : Node
cloud_node = record {
  name = "alpha";
  provider_id = codes "hcloud://7";
  labels = [];
  addresses = [];
}

-- Robot's server has got another name.
abbrev robot_node : Node
robot_node = record {
  name = "old";
  provider_id = codes "hrobot://321";
  labels = [];
  addresses =
      record { type = internal_ip; address = "10.0.0.2" }
      ∷ record { type = internal_ip; address = "fd00::2" }
      ∷ record { type = internal_ip; address = "fd00::2" }
      ∷ [];
}

reading : Unit {0}
unfolding to_server_id has_prefix remove_all sweep parse_id_string parse_int parse_uint scan
    with_sign
reading = tt

caching : Unit {0}
unfolding Common.lookup Common.insert time_sub Cache.valid_value Cache.store Cache.store_and_evict
    Cache.store_fetched Cache.refresh_one Cache.refresh Cache.look_again Cache.after_lookup
    Cache.get_cached Cache.get_from_cache Cache.by_id Cache.by_name Cache.time_now Cache.count
    Cache.call Cache.evict Cache.new_cache Cache.is_off Cache.new_cache_refresh_opts
caching = tt

program : Unit {0}
unfolding reading caching name_from_location replace_space is_label_char instance_type_of_product
    first_part get_zone_of_robot_server get_region_of_robot_server last_named write_entries cached
    call emit get_robot_server_by_name check_name accept_not_found find_robot_server
    get_robot_server_by_id as_robot as_cloud lookup_id robot_by_name choose lookup_name
    lookup_provider_id lookup_server is_found instance_exists required is_shut_off is_shutdown
    instance_shutdown write_back metadata instance_metadata hcloud_node_addresses ipv4_address
    ipv6_address private_addresses wants_ipv4 wants_ipv6 is_dual_stack set_host_bit with_low_bit
program = tt

start-IsKeyed : IsKeyed api start.cache
unfolding caching
start-IsKeyed = record { ids = tt; names = tt }

start_on : Cache.is_off (Cache.new_cache_refresh_opts start.cache []).mode ≡ false
unfolding caching
start_on = refl

abbrev expected : InstanceMetadata
expected = record {
  provider_id = from_cloud_server_id (pos 7);
  instance_type = "cx22";
  node_addresses =
      record { type = host_name; address = "alpha" }
      ∷ record { type = external_ip; address = "an address" }
      ∷ [];
  zone = "fsn1-dc14";
  region = "fsn1";
  provided_by = "cloud";
}

client-Numbered : Numbered (some client)
client-Numbered id w v e = elim (Bool-cases (int_eq id (pos 321))) [
  | inl same ↦
      let e' = rw same at e in
      let found : bare ≡ v = cc in
      ap (λ (x : RobotServer). x.server_number) (sym found) ∙ sym ((int_eq_iff id (pos 321)).0 same)
  | inr other ↦ absurd (let e' = rw other at e in cc)
]

described :
    instance_metadata api env (some client) (pos 0) cfg cloud_node start
    ≡ (ok expected, (instance_metadata api env (some client) (pos 0) cfg cloud_node start).1)
unfolding program
described = refl

cloud_id : to_server_id (codes "hcloud://7") ≡ ok (pos 7, true)
unfolding reading
cloud_id = refl

robot_id : to_server_id (codes "hrobot://321") ≡ ok (pos 321, false)
unfolding reading
robot_id = refl

instance_metadata_names_example : to_server_id expected.provider_id ≡ ok (pos 7, true)
instance_metadata_names_example =
    instance_metadata_names api env (pos 0) cfg (λ v. refl) (pos 7) (some client) true cloud_node
      start expected (instance_metadata api env (some client) (pos 0) cfg cloud_node start).1
      client-Numbered start-IsKeyed start_on cloud_id described

instance_exists_robot_example :
    (instance_exists api env (some client) (pos 0) cfg robot_node start).0
    ≡ exists_of api env client (pos 0) cfg robot_node (ok (some bare))
instance_exists_robot_example =
    instance_exists_robot api env client (pos 0) cfg (pos 321) robot_node start robot_id

-- The wait time ends at 150, between the readings 145 and 155.
abbrev limits : RateLimit.Environment ℕ String
limits = record { now = λ w. (w, w + 10); is_rate_limit_code = λ e. false; message = λ e. [] }

abbrev limited_api : Source (RateLimit.State ℕ) (ClientError String) CloudServer
limited_api = record {
  fetch_one_by_id = λ id w. (ok none, w);
  fetch_one_by_name = λ name w. (ok none, w);
  fetch_all = λ w. (ok [], w);
  get_id = λ v. v.id;
  get_name = λ v. v.name;
  now = λ s. (s.world, s);
}

abbrev limited_env : Environment (RateLimit.State ℕ) (ClientError String)
limited_env = record {
  network = net;
  event = λ ev w. w;
  is_server_not_found = λ e. false;
  to_lower = λ s. s;
}

abbrev waiting : State (RateLimit.State ℕ) CloudServer
waiting = record {
  cache = Cache.new_cache Mode.one (pos 100);
  world = record {
    limit = record { wait_time = pos 100; exceeded = true; last_checked = 50 };
    world = 145;
  };
}

instance_exists_race_example :
    (instance_exists limited_api limited_env
      (some (limited limits client))
      (pos 0)
      cfg
      (record robot_node { name = "bare" })
      waiting).0
    ≡ ok false
unfolding time_add
instance_exists_race_example =
    instance_exists_race limits client limited_api limited_env (pos 0) cfg (pos 321)
      (record robot_node { name = "bare" }) waiting robot_id refl refl refl

robot_node_addresses_iff_example :
    IsReport net cfg robot_node bare cfg.robot.forward_internal_ips
      (robot_node_addresses net (λ ev (w : ℕ). w) robot_node cfg bare 0).0
robot_node_addresses_iff_example =
    robot_node_addresses_iff net cfg (λ ev (w : ℕ). w) robot_node (inr (inr refl)) bare 0
      ((text_ne _ _).0 refl) ((text_ne _ _).0 refl) ((text_ne _ _).0 refl)

hcloud_node_addresses_idem_example :
    hcloud_node_addresses net (pos 3) (hcloud_node_addresses net (pos 3) alpha cfg).1 cfg
    ≡ hcloud_node_addresses net (pos 3) alpha cfg
hcloud_node_addresses_idem_example =
    hcloud_node_addresses_idem net cfg zeros-set_host_bit (pos 3) alpha
