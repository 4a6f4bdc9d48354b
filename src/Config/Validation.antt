-- ===== src/Config/Validation.antt =====
-- internal/config/config.go: `Validate`. Its warnings are left out. The parameters are
-- `strings.TrimSpace`, `strings.ToLower`, and whether `net.ParseCIDR` succeeds.
use hcloud_cloud_controller.Common.{
  String, Bool, true, false, ◌&&◌, ◌||◌, not, Option, none, some, List, [], ◌∷◌, if◌then◌else◌,
  ◌==◌, Eq-string,
}
use hcloud_cloud_controller.Cache.{Mode, all, one, off, unknown}
use hcloud_cloud_controller.Config.{HccmConfiguration}

-- The errors of `Validate`, in the order of its checks.
pub data Invalid : Type 0 where
  token_required address_family cache_mode location_and_zone : Invalid
  private_subnet_ip_range algorithm_type partial_credentials routes_with_robot : Invalid

-- The errors of the checks that fail.
unfoldable pub report : List (Bool × Invalid) → List Invalid
report [] = []
report ((failed, e) ∷ checks) = let rest = report checks in if failed then e ∷ rest else rest

unfoldable pub is_mode : Mode → Bool
is_mode all = true
is_mode one = true
is_mode off = true
is_mode (unknown s) = false

unfoldable pub is_address_family : String → Bool
is_address_family f = f == "dualstack" || (f == "ipv4" || f == "ipv6")

-- `!=` on Booleans
unfoldable pub differ : Bool → Bool → Bool
differ a b = if a then not b else b

module _ (trim_space to_lower : String → String) (is_cidr : String → Bool) where
  unfoldable pub parse_load_balancer_algorithm_type : String → Option String
  parse_load_balancer_algorithm_type value =
      let v = to_lower (trim_space value) in
      if v == "round_robin" || v == "least_connections" then some v else none

  unfoldable pub is_none : Option String → Bool
  is_none none = true
  is_none (some s) = false

  -- The conditions under which an error is reported.
  unfoldable pub checks : HccmConfiguration → List (Bool × Invalid)
  unfolding is_address_family is_mode differ parse_load_balancer_algorithm_type is_none
  checks c =
      let lb = c.load_balancer in
      (c.hcloud_client.token == "", token_required)
      ∷ (not (is_address_family c.instance_configuration.address_family), address_family)
      ∷ (not (is_mode c.server_cache.mode), cache_mode)
      ∷ (not (lb.location == "") && not (lb.network_zone == ""), location_and_zone)
      ∷ (
        not (lb.private_subnet_ip_range == "") && not (is_cidr lb.private_subnet_ip_range),
        private_subnet_ip_range,
      )
      ∷ (
        not (lb.algorithm_type == "")
            && is_none (parse_load_balancer_algorithm_type lb.algorithm_type),
        algorithm_type,
      )
      ∷ (
        c.robot.enabled && differ (c.robot.user == "") (c.robot.password == ""),
        partial_credentials,
      )
      ∷ (c.robot.enabled && c.route.enabled, routes_with_robot)
      ∷ []

  unfoldable pub validate : HccmConfiguration → List Invalid
  unfolding report checks
  validate c = report (checks c)
