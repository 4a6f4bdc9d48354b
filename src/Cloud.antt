-- ===== src/Cloud.antt =====
-- hcloud/cloud.go: the start of the provider, and the parts that it hands out. The servers for metrics
-- and the options of the clients (timeouts, debug output, the endpoint) are left out, and so are the
-- methods that only say that a part is replaced or has no support.
pub mod Attached
pub mod Start
use hcloud_cloud_controller.Common.{
  ℤ, pos, String, is_some, Bool, true, false, ◌&&◌, not, Option, none, some, List, [], ◌∷◌, ◌++◌,
  if◌then◌else◌, Result, ok, err, Exec, Time, ◌>>=◌, ◌>>◌, pure, fail, second, ◌*◌, ◌==◌, Eq-string,
}
use hcloud_cloud_controller.ProviderId.{Bytes, codes, format_int}
use hcloud_cloud_controller.Cache.{Cache, Mode, Source}
use hcloud_cloud_controller.Cache.Sources.{
  EntryClient, LoadBalancerType, new_server_cache, new_load_balancer_type_cache,
}
use hcloud_cloud_controller.Config.{HccmConfiguration, NetworkConfiguration, RobotConfiguration}
use hcloud_cloud_controller.Config.Reading.{Environment, ReadError, read}
use hcloud_cloud_controller.Config.Validation.{Invalid, validate}
use hcloud_cloud_controller.Robot.RateLimit.{RateLimit, contains, new_rate_limited_client}
use hcloud_cloud_controller.Robot.ServerCache.{ServerCache, new_cached_client}
use hcloud_cloud_controller.Hcops.Targets.{Settings}
use hcloud_cloud_controller.Instances.Data.{CloudServer, RobotServer}
use hcloud_cloud_controller.Routes
use hcloud_cloud_controller.Routes.{Network, IpNet, RouteError}

-- hcloud-go's client for networks, with the ID of the network that is found, for locations, for servers
-- and for load balancer types; the metadata service's text on the private networks of this server; and
-- the clock.
pub record StartClient (W E : Type 0) : Type 0 where
  pub get_network : String → Exec W E (Option ℤ)
  pub private_networks : Exec W E Bytes
  pub list_locations : Exec W E (Unit {0})
  pub servers : EntryClient W E CloudServer
  pub lb_types : EntryClient W E LoadBalancerType
  pub now : W → Time × W

pub data StartError (E : Type 0) : Type 0 where
  unreadable : List ReadError → StartError E
  invalid : List Invalid → StartError E
  api : E → StartError E
  network_not_found not_attached : StartError E

-- The states of the two wrappers around the Robot client.
pub record RobotState : Type 0 where
  pub limit : RateLimit
  pub cache : ServerCache RobotServer

-- A cache comes with the functions that it was made from. The Robot client is none if it is nil.
pub record Cloud (W E : Type 0) : Type 0 where
  pub robot_client : Option RobotState
  pub server_cache : Source W E CloudServer × Cache CloudServer
  pub lb_type_cache : Source W E LoadBalancerType × Cache LoadBalancerType
  pub cfg : HccmConfiguration
  pub network_id : ℤ
  pub cidr : String

-- An hour
abbrev lb_type_cache_max_age : ℤ
lb_type_cache_max_age = pos (3600 * second)

unfoldable pub new_robot_client : RobotConfiguration → Option RobotState
unfolding new_rate_limited_client new_cached_client
new_robot_client robot =
    if robot.enabled && (not (robot.user == "") && not (robot.password == ""))
    then some (record {
      limit = new_rate_limited_client robot.rate_limit_wait_time;
      cache = new_cached_client robot.cache_timeout;
    })
    else none

-- What `strings.Contains` looks for in the metadata.
abbrev pub network_entry : ℤ → Bytes
network_entry id = codes "network_id: " ++ format_int id ++ 10 ∷ []

module _ {W E : Type 0} (env : Environment) (trim_space to_lower : String → String)
    (is_cidr : String → Bool) (client : StartClient W E) where
  unfoldable pub lift : {A : Type 0} → Exec W E A → Exec W (StartError E) A
  lift m w = let (r, w') = m w in (elim r [ ok a ↦ ok a | err e ↦ err (api e) ], w')

  unfoldable pub read_settings : Exec W (StartError E) HccmConfiguration
  unfolding read
  read_settings w = (elim (read env) [ ok cfg ↦ ok cfg | err es ↦ err (unreadable es) ], w)

  unfoldable pub validated : List Invalid → Exec W (StartError E) (Unit {0})
  validated [] = pure tt
  validated (e ∷ es) = fail (invalid (e ∷ es))

  unfoldable pub server_is_attached_to_network : ℤ → Exec W (StartError E) Bool
  unfolding lift contains
  server_is_attached_to_network network_id = do
    networks ← lift client.private_networks
    pure (contains networks (network_entry network_id))

  unfoldable pub check_attached : NetworkConfiguration → ℤ → Exec W (StartError E) ℤ
  unfolding server_is_attached_to_network
  check_attached network id =
      if network.attached_check_enabled
      then (do
        attached ← server_is_attached_to_network id
        if attached then pure id else fail not_attached)
      else pure id

  unfoldable pub found_network : NetworkConfiguration → Option ℤ → Exec W (StartError E) ℤ
  unfolding check_attached
  found_network network none = fail network_not_found
  found_network network (some id) = check_attached network id

  unfoldable pub find_network : NetworkConfiguration → Exec W (StartError E) ℤ
  unfolding lift found_network
  find_network network =
      if network.name_or_id == ""
      then pure (pos 0)
      else (do id ← lift (client.get_network network.name_or_id); found_network network id)

  unfoldable pub new_cloud : String → Exec W (StartError E) (Cloud W E)
  unfolding read_settings validated validate find_network lift new_robot_client new_server_cache
      new_load_balancer_type_cache
  new_cloud cidr = do
    cfg ← read_settings
    validated (validate trim_space to_lower is_cidr cfg)
    network_id ← find_network cfg.network
    lift client.list_locations
    pure (record {
      robot_client = new_robot_client cfg.robot;
      server_cache =
          new_server_cache client.servers client.now cfg.server_cache.mode cfg.server_cache.max_age;
      lb_type_cache =
          new_load_balancer_type_cache client.lb_types client.now Mode.all lb_type_cache_max_age;
      cfg = cfg;
      network_id = network_id;
      cidr = cidr;
    })

-- `LoadBalancer`: what the load balancer operations are given, unless load balancers are disabled.
unfoldable pub load_balancer : {W E : Type 0} → Cloud W E → Option Settings
load_balancer c =
    if c.cfg.load_balancer.enabled
    then some (record {
      network_id = c.network_id;
      private_ip_enabled = c.cfg.load_balancer.private_ip_enabled;
      robot_enabled = c.cfg.robot.enabled;
      has_robot_client = is_some c.robot_client;
    })
    else none

-- An error of `newRoutes` is logged, and gives no routes.
unfoldable pub some_routes : {E A : Type 0} → Result E A → Option A
some_routes (ok a) = some a
some_routes (err e) = none

unfoldable pub routes :
    {W E Server Act : Type 0}
    → Routes.Client W E Server Act
    → Cloud W E
    → W
    → Option (Network × IpNet) × W
unfolding some_routes Routes.new_routes
routes client c w =
    if c.cfg.route.enabled
    then (let (r, w') = Routes.new_routes client c.network_id c.cidr w in (some_routes r, w'))
    else (none, w)
