-- ===== src/Instances.antt =====
-- hcloud/instances.go and hcloud/instances_util.go: the servers behind the nodes. Metrics and klog
-- output are left out.
pub mod Data
pub mod Labels
pub mod Addresses
pub mod Identity
pub mod Existence
pub mod AddressLaws
pub mod Texts
pub mod Forwarding
unfoldable pub use Labels.*
use Prim.Native.Char.{Char, code}
use Prim.Native.String.{◌∷◌ as text_cons}
use hcloud_cloud_controller.Common.{
  ℤ, String, Bool, true, false, ◌&&◌, ◌||◌, not, Option, none, some, List, [], ◌∷◌, if◌then◌else◌,
  leb, nat_eq, Result, ok, err, Exec, ◌>>=◌, ◌>>◌, pure, fail, ◌==◌, Eq-string, int_eq,
}
use hcloud_cloud_controller.Kube.{Node}
use hcloud_cloud_controller.ProviderId.{
  Bytes, to_server_id, from_cloud_server_id, from_robot_server_number,
}
use hcloud_cloud_controller.Cache
use hcloud_cloud_controller.Cache.{Source, Entry, State}
use hcloud_cloud_controller.Annotation.Values.{split}
use hcloud_cloud_controller.Config.{HccmConfiguration}
use hcloud_cloud_controller.Robot.RateLimit.{RobotClient}
use hcloud_cloud_controller.Instances.Data.{
  CloudServer, RobotServer, GenericServer, cloud, robot, Event, instance_lookup_failed,
  possible_node_deletion, misconfigured_internal_ip, InstanceError, provider_id_error, api,
  missing_robot_client, server_not_found, ambiguous_name, nil_pointer, InstanceMetadata, Network,
  Environment,
}
use hcloud_cloud_controller.Instances.Addresses.{hcloud_node_addresses, robot_node_addresses}

-- The last server of the name.
unfoldable pub last_named : String → List RobotServer → Option RobotServer
last_named name [] = none
last_named name (s ∷ servers) = elim (last_named name servers) [
  | some t ↦ some t
  | none ↦ if s.name == name then some s else none
]

-- A change to a server that is shared with the cache is seen in the cache's entries for it.
unfoldable pub write_entries :
    {K : Type 0} → CloudServer → List (K × Entry CloudServer) → List (K × Entry CloudServer)
write_entries v [] = []
write_entries v ((k, e) ∷ m) =
    let rest = write_entries v m in
    if int_eq e.value.id v.id && e.value.name == v.name
    then (k, record e { value = v }) ∷ rest
    else (k, e) ∷ rest

module _ {W E : Type 0} (src : Source W E CloudServer) (env : Environment W E)
    (robot_client : Option (RobotClient W E RobotServer String)) (network_id : ℤ)
    (cfg : HccmConfiguration) where
  abbrev Call : Type 0 → Type 0
  Call A = Exec (State W CloudServer) (InstanceError E) A

  -- A call of the cache.
  unfoldable pub cached : {A : Type 0} → Exec (State W CloudServer) E A → Call A
  cached m s = let (r, s') = m s in (elim r [ ok a ↦ ok a | err e ↦ err (api e) ], s')

  -- A call of the Robot client.
  unfoldable pub call : {A : Type 0} → Exec W E A → Call A
  call m s =
      let (r, w) = m s.world in
      (elim r [ ok a ↦ ok a | err e ↦ err (api e) ], record s { world = w })

  unfoldable pub emit : Event → Call (Unit {0})
  emit ev s = (ok tt, record s { world = env.event ev s.world })

  unfoldable pub get_robot_server_by_name :
      RobotClient W E RobotServer String → Node → Call (Option RobotServer)
  unfolding call last_named
  get_robot_server_by_name client node = do
    server_list ← call client.server_get_list
    pure (last_named node.name server_list)

  -- Robot servers are used for several clusters one after the other, under other names.
  unfoldable pub check_name : Node → Option RobotServer → Call (Option RobotServer)
  unfolding emit
  check_name node none = pure none
  check_name node (some server) =
      if server.name == node.name
      then pure (some server)
      else (do emit (possible_node_deletion node server.name); pure none)

  -- That there is no such server is no error.
  unfoldable pub accept_not_found :
      Result E (Option RobotServer) → Result (InstanceError E) (Option RobotServer)
  accept_not_found (ok server) = ok server
  accept_not_found (err e) = if env.is_server_not_found e then ok none else err (api e)

  unfoldable pub find_robot_server :
      RobotClient W E RobotServer String → ℤ → Call (Option RobotServer)
  unfolding accept_not_found
  find_robot_server client id s =
      let (r, w) = client.server_get id s.world in (accept_not_found r, record s { world = w })

  unfoldable pub get_robot_server_by_id :
      RobotClient W E RobotServer String → ℤ → Node → Call (Option RobotServer)
  unfolding find_robot_server check_name
  get_robot_server_by_id client id node = do
    server ← find_robot_server client id
    check_name node server

  unfoldable pub as_robot : Option RobotServer → Option GenericServer
  as_robot none = none
  as_robot (some server) = some (robot server)

  unfoldable pub as_cloud : Option CloudServer → Option GenericServer
  as_cloud none = none
  as_cloud (some server) = some (cloud server)

  unfoldable pub lookup_id : ℤ × Bool → Node → Call (Option GenericServer)
  unfolding cached as_cloud get_robot_server_by_id as_robot
  lookup_id (id, true) node = do
    server ← cached (Cache.by_id src "instances_v2" id [])
    pure (as_cloud server)
  lookup_id (id, false) node = elim robot_client [
    | none ↦ fail missing_robot_client
    | some client ↦ do server ← get_robot_server_by_id client id node; pure (as_robot server)
  ]

  unfoldable pub robot_by_name : Node → Call (Option RobotServer)
  unfolding get_robot_server_by_name
  robot_by_name node = elim robot_client [
    | none ↦ pure none
    | some client ↦ get_robot_server_by_name client node
  ]

  unfoldable pub choose :
      Node → Option CloudServer → Option RobotServer → Call (Option GenericServer)
  unfolding emit
  choose node (some c) (some r) = do emit (instance_lookup_failed node); fail ambiguous_name
  choose node (some c) none = pure (some (cloud c))
  choose node none (some r) = pure (some (robot r))
  choose node none none = pure none

  unfoldable pub lookup_name : Node → Call (Option GenericServer)
  unfolding cached robot_by_name choose
  lookup_name node = do
    cloud_server ← cached (Cache.by_name src "instances_v2" node.name [])
    robot_server ← robot_by_name node
    choose node cloud_server robot_server

  -- A node without a provider ID is looked up by its name.
  unfoldable pub lookup_provider_id : Bytes → Node → Call (Option GenericServer)
  unfolding lookup_name lookup_id
  lookup_provider_id [] node = lookup_name node
  lookup_provider_id (c ∷ p) node = elim (to_server_id (c ∷ p)) [
    | err e ↦ fail (provider_id_error e)
    | ok found ↦ lookup_id found node
  ]

  unfoldable pub lookup_server : Node → Call (Option GenericServer)
  unfolding lookup_provider_id
  lookup_server node = lookup_provider_id node.provider_id node

  unfoldable pub is_found : Option GenericServer → Bool
  is_found none = false
  is_found (some server) = true

  unfoldable pub instance_exists : Node → Call Bool
  unfolding lookup_server is_found
  instance_exists node = do server ← lookup_server node; pure (is_found server)

  -- A nil server gives `errServerNotFound`.
  unfoldable pub required : Option GenericServer → Call GenericServer
  required none = fail server_not_found
  required (some server) = pure server

  -- The code reads the field of the reset status that it is given, and panics at nil.
  unfoldable pub is_shut_off : Option String → Call Bool
  is_shut_off none = fail nil_pointer
  is_shut_off (some operating_status) = pure (operating_status == "shut off")

  unfoldable pub is_shutdown : GenericServer → Call Bool
  unfolding call is_shut_off
  is_shutdown (cloud server) = pure (server.status == "off")
  is_shutdown (robot server) = elim robot_client [
    | none ↦ fail nil_pointer
    | some client ↦ do status ← call (client.reset_get server.server_number); is_shut_off status
  ]

  unfoldable pub instance_shutdown : Node → Call Bool
  unfolding lookup_server required is_shutdown
  instance_shutdown node = do
    server ← lookup_server node
    found ← required server
    is_shutdown found

  -- `hcloudNodeAddresses` sets a bit of the server's address in place.
  unfoldable pub write_back : CloudServer → State W CloudServer → State W CloudServer
  unfolding write_entries
  write_back server s =
      let c = s.cache in
      record s {
        cache = record c {
          by_id = write_entries server c.by_id;
          by_name = write_entries server c.by_name;
        };
      }

  unfoldable pub metadata : Node → GenericServer → Call InstanceMetadata
  unfolding hcloud_node_addresses robot_node_addresses name_from_location write_back
      instance_type_of_product get_zone_of_robot_server get_region_of_robot_server
  metadata node (cloud server) s =
      let (addresses, server') = hcloud_node_addresses env.network network_id server cfg in
      (
        ok (record {
          provider_id = from_cloud_server_id server.id;
          instance_type = server.server_type;
          node_addresses = addresses;
          zone =
              if cfg.instance_configuration.zone_label_enabled
              then name_from_location server.location
              else "";
          region = server.location;
          provided_by = "cloud";
        }),
        write_back server' s,
      )
  metadata node (robot server) s =
      let (addresses, w) = robot_node_addresses env.network env.event node cfg server s.world in
      (
        ok (record {
          provider_id = from_robot_server_number server.server_number;
          instance_type = instance_type_of_product server.product;
          node_addresses = addresses;
          zone = get_zone_of_robot_server env.to_lower server;
          region = get_region_of_robot_server env.to_lower server;
          provided_by = "robot";
        }),
        record s { world = w },
      )

  unfoldable pub instance_metadata : Node → Call InstanceMetadata
  unfolding lookup_server required metadata
  instance_metadata node = do
    server ← lookup_server node
    found ← required server
    metadata node found
