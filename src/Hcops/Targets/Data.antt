-- ===== src/Hcops/Targets/Data.antt =====
-- internal/hcops/load_balancer.go: what `ReconcileHCLBTargets` and its helpers keep and call, and
-- their reading of annotations, addresses and missing keys.
use hcloud_cloud_controller.Common.{
  ℕ, ℤ, String, Bool, true, false, Option, none, some, List, [], ◌∷◌, if◌then◌else◌, Result, ok,
  err, Exec, insert, mem, include, Eq-int, Eq-string,
}
use hcloud_cloud_controller.Kube.{Service, Node, NodeAddress, AddressType, internal_ip}
use hcloud_cloud_controller.Annotation.{
  AnnotationError, not_set, invalid, bool_from_service, lb_use_private_ip,
}

pub record RobotServer : Type 0 where
  pub server_number : ℤ
  pub server_ip : String

-- The events that are recorded; the number is the server's.
pub data Event : Type 0 where
  unknown_provider_id_prefix : Node → Event
  internal_ip_not_configured : Node → Event
  max_targets_reached : Option Node → Event
  server_not_found : Option Node → ℤ → Event

-- What the code calls: hcloud-go, the Robot client, the event recorder, `net.ParseIP`, and the
-- order in which `range` visits the keys of a map.
pub record Client (W E Act Ip : Type 0) : Type 0 where
  pub remove_server_target : ℤ → ℤ → Exec W E Act
  pub add_server_target : ℤ → ℤ → Bool → Exec W E Act
  pub remove_ip_target : ℤ → Ip → Exec W E Act
  pub add_ip_target : ℤ → Ip → Exec W E Act
  pub wait_for : Act → Exec W E (Unit {0})
  pub robot_server_list : Exec W E (List RobotServer)
  pub is_resource_limit_exceeded : E → Bool
  pub event : Event → W → W
  pub parse_ip : String → Ip
  pub range : List ℤ → List ℤ

-- The fields of `LoadBalancerOps` that are read. `has_robot_client` is `RobotClient != nil`.
pub record Settings : Type 0 where
  pub network_id : ℤ
  pub private_ip_enabled : Bool
  pub robot_enabled : Bool
  pub has_robot_client : Bool

-- `k8sNodeIDsHCloud`, `k8sNodeIDsRobot` and `k8sNodes`
pub record K8sNodes : Type 0 where
  pub hcloud_ids : List ℤ
  pub robot_ids : List ℤ
  pub nodes : List (ℤ × Node)

-- `robotIPsToIDs` and `robotIDToIPv4`
pub record RobotIps : Type 0 where
  pub ips_to_ids : List (String × ℤ)
  pub id_to_ipv4 : List (ℤ × String)

-- `hclbTargetIDs`, `hclbTargetIPs`, `changed` and `numberOfTargets`
pub record Progress : Type 0 where
  pub target_ids : List (ℤ × Bool)
  pub target_ips : List (String × Bool)
  pub changed : Bool
  pub number_of_targets : ℕ

unfoldable pub get_private_ip_enabled : Settings → Service → Result AnnotationError Bool
get_private_ip_enabled cfg svc = elim (bool_from_service lb_use_private_ip svc) [
  | ok b ↦ ok b
  | err not_set ↦ ok cfg.private_ip_enabled
  | err invalid ↦ err invalid
]

unfoldable pub is_internal_ip : AddressType → Bool
is_internal_ip internal_ip = true
is_internal_ip _ = false

-- The empty text stands for none.
unfoldable pub internal_ip_of : List NodeAddress → String
unfolding is_internal_ip
internal_ip_of [] = ""
internal_ip_of (a ∷ as') = if is_internal_ip a.type then a.address else internal_ip_of as'

unfoldable pub get_node_internal_ip : Node → String
unfolding internal_ip_of
get_node_internal_ip node = internal_ip_of node.addresses

unfoldable pub add_node : ℤ → Bool → Node → K8sNodes → K8sNodes
add_node id true node k = record k {
  hcloud_ids = include id k.hcloud_ids;
  nodes = insert id node k.nodes;
}
add_node id false node k = record k {
  robot_ids = include id k.robot_ids;
  nodes = insert id node k.nodes;
}

unfoldable pub set_robot_ip : String → ℤ → RobotIps → RobotIps
set_robot_ip ip id r = record {
  ips_to_ids = insert ip id r.ips_to_ids;
  id_to_ipv4 = insert id ip r.id_to_ipv4;
}

-- A missing key reads as false, as zero and as the empty text.
unfoldable pub is_set : Option Bool → Bool
is_set none = false
is_set (some b) = b

unfoldable pub text_or_empty : Option String → String
text_or_empty none = ""
text_or_empty (some s) = s

-- `foundServer && k8sNodeIDsRobot[id]`
unfoldable pub is_robot_node : List ℤ → Option ℤ → Bool
is_robot_node ids none = false
is_robot_node ids (some id) = mem id ids
