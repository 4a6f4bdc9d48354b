-- ===== src/Hcops/Services/Data.antt =====
-- internal/hcops/load_balancer.go: the fields of `hclbServiceOptsBuilder`, and hcloud-go's options
-- for the services of a load balancer. A pointer is an option, or its value where it is always set.
-- The field `Response` of the health check is left out: nothing sets it.
use hcloud_cloud_controller.Common.{ℕ, ℤ, String, Bool, Option, List, Exec, Duration}
use hcloud_cloud_controller.Annotation.Values.{Certificate}

pub record HttpOpts : Type 0 where
  pub cookie_name : Option String
  pub cookie_lifetime : Option Duration
  pub certificates : List Certificate
  pub redirect_http : Option Bool
  pub sticky_sessions : Option Bool
  pub timeout_idle : Option Duration

pub record HealthHttpOpts : Type 0 where
  pub domain : Option String
  pub path : Option String
  pub status_codes : List String
  pub tls : Option Bool

pub record HealthCheckOpts : Type 0 where
  pub protocol : String
  pub port : Option ℤ
  pub interval : Option Duration
  pub timeout : Option Duration
  pub retries : Option ℤ
  pub http_opts : HealthHttpOpts

-- The fields that `extract` sets.
pub record Builder : Type 0 where
  pub listen_port : ℕ
  pub destination_port : ℕ
  pub proxy_protocol : Option Bool
  pub protocol : String
  pub http_opts : HttpOpts
  pub add_http : Bool
  pub health_check_opts : HealthCheckOpts
  pub add_health_check : Bool

pub record HealthCheck : Type 0 where
  pub protocol : String
  pub port : ℤ
  pub interval : Option Duration
  pub timeout : Option Duration
  pub retries : Option ℤ
  pub http : Option HealthHttpOpts

pub record AddServiceOpts : Type 0 where
  pub listen_port : ℕ
  pub destination_port : ℕ
  pub protocol : String
  pub proxyprotocol : Option Bool
  pub http : Option HttpOpts
  pub health_check : HealthCheck

pub record UpdateServiceOpts : Type 0 where
  pub destination_port : ℕ
  pub protocol : String
  pub proxyprotocol : Option Bool
  pub http : Option HttpOpts
  pub health_check : HealthCheck

-- hcloud-go's calls for the services of a load balancer, which is given by its ID; the event for a
-- port whose protocol is not supported; and the order in which `range` visits the keys of a map.
pub record ServiceClient (W E Act : Type 0) : Type 0 where
  pub add_service : ℤ → AddServiceOpts → Exec W E Act
  pub update_service : ℤ → ℕ → UpdateServiceOpts → Exec W E Act
  pub delete_service : ℤ → ℕ → Exec W E Act
  pub wait_for : Act → Exec W E (Unit {0})
  pub unsupported_protocol : String → W → W
  pub range : List ℕ → List ℕ
