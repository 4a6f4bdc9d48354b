-- ===== src/Instances/Data.antt =====
-- hcloud/instances.go: the servers, and what is kept and called for them.
use hcloud_cloud_controller.Common.{ℤ, String, Bool, List}
use hcloud_cloud_controller.Kube.{Node, NodeAddress}
use hcloud_cloud_controller.ProviderId
use hcloud_cloud_controller.ProviderId.{Bytes}

-- An IP address is the list of its bytes; a private network is its ID and the server's address in
-- it.
pub record CloudServer : Type 0 where
  pub id : ℤ
  pub name : String
  pub status : String
  pub server_type : String
  pub location : String
  pub ipv4 : Bytes
  pub ipv6 : Bytes
  pub private_net : List (ℤ × Bytes)

pub record RobotServer : Type 0 where
  pub server_number : ℤ
  pub name : String
  pub product : String
  pub dc : String
  pub server_ip : String
  pub server_ipv6_net : String

pub data GenericServer : Type 0 where
  cloud : CloudServer → GenericServer
  robot : RobotServer → GenericServer

-- The events that are recorded, with the name of the Robot server or the address.
pub data Event : Type 0 where
  instance_lookup_failed : Node → Event
  possible_node_deletion misconfigured_internal_ip : Node → String → Event

-- `nil_pointer` is a panic.
pub data InstanceError (E : Type 0) : Type 0 where
  api : E → InstanceError E
  provider_id_error : ProviderId.Error → InstanceError E
  missing_robot_client server_not_found ambiguous_name nil_pointer : InstanceError E

-- `provided_by` is the one additional label; a zone that is not set is the empty text.
pub record InstanceMetadata : Type 0 where
  pub provider_id : Bytes
  pub instance_type : String
  pub node_addresses : List NodeAddress
  pub zone : String
  pub region : String
  pub provided_by : String

-- What is used of Go's `net` and of hcloud-go's addresses; `is_ipv4` is whether a text is read as
-- an address that has a form of 4 bytes.
pub record Network : Type 0 where
  pub ip_string : Bytes → String
  pub ipv4_is_unspecified : Bytes → Bool
  pub ipv6_is_unspecified : Bytes → Bool
  pub is_ipv4 : String → Bool

-- The event recorder, `hrobotmodels.IsError` for the code of a server that is not found, and
-- `strings.ToLower`.
pub record Environment (W E : Type 0) : Type 0 where
  pub network : Network
  pub event : Event → W → W
  pub is_server_not_found : E → Bool
  pub to_lower : String → String
