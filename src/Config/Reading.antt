-- ===== src/Config/Reading.antt =====
-- internal/config/config.go: `Read` and the functions that it reads a variable with. The warnings
-- on experimental variables are left out.
use hcloud_cloud_controller.Common.{
  ℤ, pos, String, Bool, true, false, ◌&&◌, not, Option, none, some, List, [], ◌∷◌, ◌++◌,
  if◌then◌else◌, int_eq, Result, ok, err, Duration, lookup, ◌==◌, Eq-string,
}
use hcloud_cloud_controller.Cache.{Mode, all, one, off, unknown}
use hcloud_cloud_controller.Annotation.{parse_bool}
use hcloud_cloud_controller.Annotation.Values.{atoi}
use hcloud_cloud_controller.Config.{
  LoadBalancerConfiguration, HcloudClientConfiguration, RobotConfiguration, MetricsConfiguration,
  InstanceConfiguration, ServerCacheConfiguration, NetworkConfiguration, RouteConfiguration,
  HccmConfiguration,
}

-- The environment's variables; hcloud-go's `envutil.LookupEnvWithFile`, with none for an error; and
-- `time.ParseDuration`.
pub record Environment : Type 0 where
  pub variables : List (String × String)
  pub lookup_env_with_file : String → Option String
  pub parse_duration : String → Option Duration

-- The variable whose value cannot be read.
pub data ReadError : Type 0 where
  unreadable : String → ReadError

-- A value, and the errors on the way to it.
abbrev pub Read : Type 0 → Type 0
Read A = A × List ReadError

-- `cache.Mode(mode)`
unfoldable pub mode_of : String → Mode
mode_of s =
    if s == "all"
    then all
    else (if s == "one" then one else (if s == "off" then off else unknown s))

module _ (env : Environment) where
  -- `os.LookupEnv`
  unfoldable pub lookup_env : String → Option String
  unfolding lookup
  lookup_env key = lookup key env.variables

  unfoldable pub or_text : String → Option String → String
  or_text s none = s
  or_text s (some v) = v

  -- `os.Getenv`
  unfoldable pub getenv : String → String
  unfolding or_text lookup_env
  getenv key = or_text "" (lookup_env key)

  unfoldable pub or_error : {A : Type 0} → String → A → Option A → Read A
  or_error key a none = (a, unreadable key ∷ [])
  or_error key a (some b) = (b, [])

  unfoldable pub get_env_with_file : String → Read String
  unfolding or_error
  get_env_with_file key = or_error key "" (env.lookup_env_with_file key)

  unfoldable pub get_env_bool : String → Bool → Read Bool
  unfolding lookup_env parse_bool or_error
  get_env_bool key default_value = elim (lookup_env key) [
    | none ↦ (default_value, [])
    | some v ↦ or_error key false (parse_bool v)
  ]

  unfoldable pub some_bool : Read Bool → Read (Option Bool)
  some_bool (b, []) = (some b, [])
  some_bool (b, e ∷ es) = (none, e ∷ es)

  unfoldable pub get_env_bool_ptr : String → Read (Option Bool)
  unfolding lookup_env parse_bool or_error some_bool
  get_env_bool_ptr key = elim (lookup_env key) [
    | none ↦ (none, [])
    | some v ↦ some_bool (or_error key false (parse_bool v))
  ]

  unfoldable pub get_env_duration : String → Read Duration
  unfolding getenv or_error
  get_env_duration key =
      if getenv key == ""
      then (pos 0, [])
      else or_error key (pos 0) (env.parse_duration (getenv key))

  unfoldable pub read_hcloud_client : Read HcloudClientConfiguration
  unfolding get_env_with_file getenv get_env_bool
  read_hcloud_client =
      let token = get_env_with_file "HCLOUD_TOKEN" in
      let debug = get_env_bool "HCLOUD_DEBUG" false in
      (
        record { token = token.0; endpoint = getenv "HCLOUD_ENDPOINT"; debug = debug.0 },
        token.1 ++ debug.1,
      )

  unfoldable pub read_robot : Read RobotConfiguration
  unfolding get_env_bool get_env_with_file get_env_duration
  read_robot =
      let enabled = get_env_bool "ROBOT_ENABLED" false in
      let user = get_env_with_file "ROBOT_USER" in
      let password = get_env_with_file "ROBOT_PASSWORD" in
      let timeout = get_env_duration "ROBOT_CACHE_TIMEOUT" in
      let wait = get_env_duration "ROBOT_RATE_LIMIT_WAIT_TIME" in
      let forward = get_env_bool "ROBOT_FORWARD_INTERNAL_IPS" true in
      (
        record {
          enabled = enabled.0;
          user = user.0;
          password = password.0;
          cache_timeout = if int_eq timeout.0 (pos 0) then pos 300_000_000_000 else timeout.0;
          rate_limit_wait_time = wait.0;
          forward_internal_ips = forward.0 && enabled.0;
        },
        enabled.1 ++ user.1 ++ password.1 ++ timeout.1 ++ wait.1 ++ forward.1,
      )

  unfoldable pub read_metrics : Read MetricsConfiguration
  unfolding get_env_bool or_text lookup_env
  read_metrics =
      let enabled = get_env_bool "HCLOUD_METRICS_ENABLED" true in
      (
        record {
          enabled = enabled.0;
          address = or_text ":8233" (lookup_env "HCLOUD_METRICS_ADDRESS");
        },
        enabled.1,
      )

  unfoldable pub read_instance : Read InstanceConfiguration
  unfolding getenv get_env_bool
  read_instance =
      let family = getenv "HCLOUD_INSTANCES_ADDRESS_FAMILY" in
      let zone_label = get_env_bool "HCLOUD_INSTANCES_ZONE_LABEL_ENABLED" true in
      (
        record {
          address_family = if family == "" then "ipv4" else family;
          zone_label_enabled = zone_label.0;
        },
        zone_label.1,
      )

  unfoldable pub read_mode : Option String → Mode
  unfolding mode_of
  read_mode none = all
  read_mode (some s) = mode_of s

  -- A bad value leaves the default.
  unfoldable pub read_max_age : Option String → Read Duration
  unfolding or_error
  read_max_age none = (pos 10_000_000_000, [])
  read_max_age (some s) =
      or_error "HCLOUD_SERVER_CACHE_MAX_AGE" (pos 10_000_000_000) (env.parse_duration s)

  unfoldable pub read_server_cache : Read ServerCacheConfiguration
  unfolding read_mode read_max_age lookup_env
  read_server_cache =
      let max_age = read_max_age (lookup_env "HCLOUD_SERVER_CACHE_MAX_AGE") in
      (
        record { mode = read_mode (lookup_env "HCLOUD_SERVER_CACHE_MODE"); max_age = max_age.0 },
        max_age.1,
      )

  unfoldable pub read_retries : String → Read ℤ
  unfolding or_error atoi
  read_retries retries =
      if retries == ""
      then (pos 0, [])
      else or_error "HCLOUD_LOAD_BALANCERS_HEALTH_CHECK_RETRIES" (pos 0) (atoi retries)

  unfoldable pub read_load_balancer : Read LoadBalancerConfiguration
  unfolding get_env_bool getenv get_env_bool_ptr or_text lookup_env get_env_duration read_retries
  read_load_balancer =
      let enabled = get_env_bool "HCLOUD_LOAD_BALANCERS_ENABLED" true in
      let no_ingress = get_env_bool "HCLOUD_LOAD_BALANCERS_DISABLE_PRIVATE_INGRESS" false in
      let private_ip = get_env_bool "HCLOUD_LOAD_BALANCERS_USE_PRIVATE_IP" false in
      let proxy = get_env_bool_ptr "HCLOUD_LOAD_BALANCERS_USES_PROXYPROTOCOL" in
      let no_ipv6 = get_env_bool "HCLOUD_LOAD_BALANCERS_DISABLE_IPV6" false in
      let interval = get_env_duration "HCLOUD_LOAD_BALANCERS_HEALTH_CHECK_INTERVAL" in
      let timeout = get_env_duration "HCLOUD_LOAD_BALANCERS_HEALTH_CHECK_TIMEOUT" in
      let retries = read_retries (getenv "HCLOUD_LOAD_BALANCERS_HEALTH_CHECK_RETRIES") in
      let no_public = get_env_bool_ptr "HCLOUD_LOAD_BALANCERS_DISABLE_PUBLIC_NETWORK" in
      (
        record {
          algorithm_type = or_text "" (lookup_env "HCLOUD_LOAD_BALANCERS_ALGORITHM_TYPE");
          disable_public_network = no_public.0;
          enabled = enabled.0;
          health_check_interval = interval.0;
          health_check_retries = retries.0;
          health_check_timeout = timeout.0;
          ipv6_enabled = not no_ipv6.0;
          location = getenv "HCLOUD_LOAD_BALANCERS_LOCATION";
          network_zone = getenv "HCLOUD_LOAD_BALANCERS_NETWORK_ZONE";
          private_ingress_enabled = not no_ingress.0;
          private_ip_enabled = private_ip.0;
          private_subnet_ip_range =
              or_text "" (lookup_env "HCLOUD_LOAD_BALANCERS_PRIVATE_SUBNET_IP_RANGE");
          proxy_protocol_enabled = proxy.0;
          type = getenv "HCLOUD_LOAD_BALANCERS_TYPE";
        },
        enabled.1 ++ no_ingress.1 ++ private_ip.1 ++ proxy.1 ++ no_ipv6.1 ++ interval.1 ++ timeout.1
            ++ retries.1 ++ no_public.1,
      )

  unfoldable pub read_network : Read NetworkConfiguration
  unfolding getenv get_env_bool
  read_network =
      let no_check = get_env_bool "HCLOUD_NETWORK_DISABLE_ATTACHED_CHECK" false in
      (
        record { name_or_id = getenv "HCLOUD_NETWORK"; attached_check_enabled = not no_check.0 },
        no_check.1,
      )

  -- Without a network the variable is not read.
  unfoldable pub read_route : String → Read RouteConfiguration
  unfolding get_env_bool
  read_route network =
      if network == ""
      then (record { enabled = false }, [])
      else let enabled = get_env_bool "HCLOUD_NETWORK_ROUTES_ENABLED" true in
        (record { enabled = enabled.0 }, enabled.1)

  unfoldable pub or_errors : {A : Type 0} → List ReadError → A → Result (List ReadError) A
  or_errors [] a = ok a
  or_errors (e ∷ es) a = err (e ∷ es)

  unfoldable pub read : Result (List ReadError) HccmConfiguration
  unfolding read_hcloud_client read_robot read_metrics read_instance read_server_cache
      read_load_balancer read_network read_route or_errors
  read =
      let client = read_hcloud_client in
      let robot = read_robot in
      let metrics = read_metrics in
      let inst = read_instance in
      let servers = read_server_cache in
      let lb = read_load_balancer in
      let network = read_network in
      let route = read_route network.0.name_or_id in
      or_errors
        (client.1 ++ robot.1 ++ metrics.1 ++ inst.1 ++ servers.1 ++ lb.1 ++ network.1 ++ route.1)
        (record {
          hcloud_client = client.0;
          robot = robot.0;
          metrics = metrics.0;
          instance_configuration = inst.0;
          load_balancer = lb.0;
          network = network.0;
          route = route.0;
          server_cache = servers.0;
        })
