-- ===== src/Kube.antt =====
-- The parts of the Kubernetes API's objects (k8s.io/api/core/v1) and of hcloud-go's objects that
-- the controller reads.
use hcloud_cloud_controller.Common.{ℕ, ℤ, String, Bool, List}
use hcloud_cloud_controller.ProviderId.{Bytes}

pub data AddressType : Type 0 where
  host_name internal_ip external_ip other_type : AddressType

pub record NodeAddress : Type 0 where
  pub type : AddressType
  pub address : String

pub record Node : Type 0 where
  pub name : String
  pub provider_id : Bytes
  pub labels : List (String × String)
  pub addresses : List NodeAddress

pub record ServicePort : Type 0 where
  pub port : ℕ
  pub node_port : ℕ
  pub protocol : String

pub record Service : Type 0 where
  pub name : String
  pub uid : String
  pub annotations : List (String × String)
  pub ports : List ServicePort

-- An IP address is known by the text that its method `String` gives.
pub record PublicNet : Type 0 where
  pub enabled : Bool
  pub ipv4 : String
  pub ipv4_dns_ptr : String
  pub ipv6 : String
  pub ipv6_dns_ptr : String

pub record PrivateNet : Type 0 where
  pub network_id : ℤ
  pub ip : String

pub data Target : Type 0 where
  server_target : ℤ → Bool → Target
  ip_target : String → Target
  label_selector_target : Target

pub record LoadBalancer : Type 0 where
  pub id : ℤ
  pub name : String
  pub labels : List (String × String)
  pub public_net : PublicNet
  pub private_net : List PrivateNet
  pub algorithm_type : String
  pub type_name : String
  pub max_targets : ℕ
  pub targets : List Target
  pub listen_ports : List ℕ
  pub protected_from_delete : Bool
