-- ===== src/Config.antt =====
-- internal/config/config.go: the settings, their reading from the environment, and their
-- validation.
pub mod Reading
pub mod Validation
pub mod Settings
pub mod Validity
use hcloud_cloud_controller.Common.{ℤ, String, Bool, Option, Duration}
use hcloud_cloud_controller.Cache.{Mode}

-- A pointer to a Boolean is an option.
pub record LoadBalancerConfiguration : Type 0 where
  pub algorithm_type : String
  pub disable_public_network : Option Bool
  pub enabled : Bool
  pub health_check_interval : Duration
  pub health_check_retries : ℤ
  pub health_check_timeout : Duration
  pub ipv6_enabled : Bool
  pub location : String
  pub network_zone : String
  pub private_ingress_enabled : Bool
  pub private_ip_enabled : Bool
  pub private_subnet_ip_range : String
  pub proxy_protocol_enabled : Option Bool
  pub type : String

pub record HcloudClientConfiguration : Type 0 where
  pub token : String
  pub endpoint : String
  pub debug : Bool

pub record RobotConfiguration : Type 0 where
  pub enabled : Bool
  pub user : String
  pub password : String
  pub cache_timeout : Duration
  pub rate_limit_wait_time : Duration
  pub forward_internal_ips : Bool

pub record MetricsConfiguration : Type 0 where
  pub enabled : Bool
  pub address : String

pub record InstanceConfiguration : Type 0 where
  pub address_family : String
  pub zone_label_enabled : Bool

pub record ServerCacheConfiguration : Type 0 where
  pub mode : Mode
  pub max_age : Duration

pub record NetworkConfiguration : Type 0 where
  pub name_or_id : String
  pub attached_check_enabled : Bool

pub record RouteConfiguration : Type 0 where
  pub enabled : Bool

pub record HccmConfiguration : Type 0 where
  pub hcloud_client : HcloudClientConfiguration
  pub robot : RobotConfiguration
  pub metrics : MetricsConfiguration
  pub instance_configuration : InstanceConfiguration
  pub load_balancer : LoadBalancerConfiguration
  pub network : NetworkConfiguration
  pub route : RouteConfiguration
  pub server_cache : ServerCacheConfiguration
