-- ===== src/Tests/Settings.antt =====
-- internal/config/config.go with some variables that are set, and the start of hcloud/cloud.go with
-- their settings.
use hcloud_cloud_controller.Common.{
  ℕ, pos, ◌+◌, ◌++◌, true, false, ◌≡◌, ◌↔◌, refl, none, some, [], ◌∷◌, ok, lookup, if◌then◌else◌,
  ◌==◌, Eq-string,
}
use hcloud_cloud_controller.ProviderId.{
  codes, has_prefix, format_int, decimal, digits, parse_int, parse_uint, scan, with_sign,
}
use hcloud_cloud_controller.Cache.{all, new_cache}
use hcloud_cloud_controller.Annotation.{parse_bool}
use hcloud_cloud_controller.Annotation.Values.{atoi}
use hcloud_cloud_controller.Cache.Sources.{
  EntryClient, new_server_cache, new_load_balancer_type_cache,
}
use hcloud_cloud_controller.Config.{HccmConfiguration}
use hcloud_cloud_controller.Config.Reading.{
  Environment, mode_of, lookup_env, or_text, getenv, or_error, get_env_with_file, get_env_bool,
  some_bool, get_env_bool_ptr, get_env_duration, read_hcloud_client, read_robot, read_metrics,
  read_instance, read_mode, read_max_age, read_server_cache, read_retries, read_load_balancer,
  read_network, read_route, or_errors, read,
}
use hcloud_cloud_controller.Config.Validation.{
  validate, checks, report, is_mode, is_address_family, differ, parse_load_balancer_algorithm_type,
  is_none,
}
use hcloud_cloud_controller.Robot.RateLimit.{contains, new_rate_limited_client}
use hcloud_cloud_controller.Robot.ServerCache.{new_cached_client}
use hcloud_cloud_controller.Cloud.{
  StartClient, Cloud, new_robot_client, lift, read_settings, validated, find_network, found_network,
  check_attached, server_is_attached_to_network, new_cloud,
}
use hcloud_cloud_controller.Cloud.Start.{IsStarted, new_cloud-IsStarted}
use hcloud_cloud_controller.Config.Validity.{IsValid, validate_iff}

abbrev env : Environment
env = record {
  variables =
      ("ROBOT_ENABLED", "true")
      ∷ ("HCLOUD_INSTANCES_ADDRESS_FAMILY", "ipv6")
      ∷ ("HCLOUD_NETWORK", "net")
      ∷ ("HCLOUD_NETWORK_ROUTES_ENABLED", "0")
      ∷ ("HCLOUD_LOAD_BALANCERS_ALGORITHM_TYPE", "round_robin")
      ∷ ("HCLOUD_LOAD_BALANCERS_LOCATION", "fsn1")
      ∷ ("HCLOUD_LOAD_BALANCERS_HEALTH_CHECK_RETRIES", "4")
      ∷ ("HCLOUD_LOAD_BALANCERS_DISABLE_PUBLIC_NETWORK", "T")
      ∷ [];
  lookup_env_with_file = λ key. some (
      if key == "HCLOUD_TOKEN"
      then "secret"
      else (if key == "ROBOT_USER"
          then "user"
          else (if key == "ROBOT_PASSWORD" then "word" else "")));
  parse_duration = λ s. none;
}

abbrev settings : HccmConfiguration
settings = record {
  hcloud_client = record { token = "secret"; endpoint = ""; debug = false };
  robot = record {
    enabled = true;
    user = "user";
    password = "word";
    cache_timeout = pos 300_000_000_000;
    rate_limit_wait_time = pos 0;
    forward_internal_ips = true;
  };
  metrics = record { enabled = true; address = ":8233" };
  instance_configuration = record { address_family = "ipv6"; zone_label_enabled = true };
  load_balancer = record {
    algorithm_type = "round_robin";
    disable_public_network = some true;
    enabled = true;
    health_check_interval = pos 0;
    health_check_retries = pos 4;
    health_check_timeout = pos 0;
    ipv6_enabled = true;
    location = "fsn1";
    network_zone = "";
    private_ingress_enabled = true;
    private_ip_enabled = false;
    private_subnet_ip_range = "";
    proxy_protocol_enabled = none;
    type = "";
  };
  network = record { name_or_id = "net"; attached_check_enabled = true };
  route = record { enabled = false };
  server_cache = record { mode = all; max_age = pos 10_000_000_000 };
}

program : Unit {0}
unfolding lookup parse_bool atoi parse_int parse_uint scan with_sign mode_of lookup_env or_text
    getenv or_error get_env_with_file get_env_bool some_bool get_env_bool_ptr get_env_duration
    read_hcloud_client read_robot read_metrics read_instance read_mode read_max_age
    read_server_cache read_retries read_load_balancer read_network read_route or_errors read
program = tt

validate_iff_example :
    (validate (λ s. s) (λ s. s) (λ s. false) settings ≡ [])
    ↔ IsValid (λ s. s) (λ s. s) (λ s. false) settings
validate_iff_example = validate_iff (λ s. s) (λ s. s) (λ s. false) settings

abbrev nothing : {T : Type 0} → EntryClient ℕ ℕ T
nothing = record {
  get_by_id = λ id w. (ok none, w);
  get_by_name = λ name w. (ok none, w);
  all = λ w. (ok [], w);
}

-- Each call counts.
abbrev client : StartClient ℕ ℕ
client = record {
  get_network = λ name w. (ok (some (pos 7)), 1 + w);
  private_networks = λ w. (ok (codes "- network_id: 7" ++ 10 ∷ []), 1 + w);
  list_locations = λ w. (ok tt, 1 + w);
  servers = nothing;
  lb_types = nothing;
  now = λ w. (w, w);
}

abbrev started : Cloud ℕ ℕ
started = record {
  robot_client = some (record {
    limit = new_rate_limited_client (pos 0);
    cache = new_cached_client (pos 300_000_000_000);
  });
  server_cache = new_server_cache nothing (λ w. (w, w)) all (pos 10_000_000_000);
  lb_type_cache = new_load_balancer_type_cache nothing (λ w. (w, w)) all (pos 3_600_000_000_000);
  cfg = settings;
  network_id = pos 7;
  cidr = "10.244.0.0/16";
}

start : (new_cloud env (λ s. s) (λ s. s) (λ s. false) client "10.244.0.0/16" 0) ≡ (ok started, 3)
unfolding program new_cloud read_settings validated find_network found_network check_attached
    server_is_attached_to_network lift contains has_prefix format_int decimal digits validate checks
    report is_mode is_address_family differ parse_load_balancer_algorithm_type is_none
    new_robot_client new_rate_limited_client new_cached_client new_cache new_server_cache
    new_load_balancer_type_cache
start = refl

new_cloud-IsStarted_example : IsStarted env (λ s. s) (λ s. s) (λ s. false) client started
new_cloud-IsStarted_example =
    new_cloud-IsStarted env (λ s. s) (λ s. s) (λ s. false) client "10.244.0.0/16" 0 started 3 start
