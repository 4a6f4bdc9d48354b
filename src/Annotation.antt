-- ===== src/Annotation.antt =====
-- internal/annotation: the annotations of a service and their values.
pub mod ServiceNames
pub mod Values
use hcloud_cloud_controller.Common.{
  String, Bool, true, false, ◌||◌, Option, none, some, if◌then◌else◌, Result, ok, err, lookup, ◌==◌,
  Eq-string,
}
use hcloud_cloud_controller.Kube.{Service}

abbrev pub Name : Type 0
Name = String

-- `not_set` is an error that wraps `ErrNotSet`; `invalid` is any other.
pub data AnnotationError : Type 0 where
  not_set invalid : AnnotationError

abbrev pub lb_disable_private_ingress : Name
lb_disable_private_ingress = "load-balancer.hetzner.cloud/disable-private-ingress"

abbrev pub lb_ipv6_disabled : Name
lb_ipv6_disabled = "load-balancer.hetzner.cloud/ipv6-disabled"

abbrev pub lb_svc_proxy_protocol : Name
lb_svc_proxy_protocol = "load-balancer.hetzner.cloud/uses-proxyprotocol"

abbrev pub lb_hostname : Name
lb_hostname = "load-balancer.hetzner.cloud/hostname"

abbrev pub lb_name : Name
lb_name = "load-balancer.hetzner.cloud/name"

abbrev pub lb_node_selector : Name
lb_node_selector = "load-balancer.hetzner.cloud/node-selector"

abbrev pub lb_use_private_ip : Name
lb_use_private_ip = "load-balancer.hetzner.cloud/use-private-ip"

abbrev pub lb_type : Name
lb_type = "load-balancer.hetzner.cloud/type"

abbrev pub lb_location : Name
lb_location = "load-balancer.hetzner.cloud/location"

abbrev pub lb_network_zone : Name
lb_network_zone = "load-balancer.hetzner.cloud/network-zone"

abbrev pub lb_algorithm_type : Name
lb_algorithm_type = "load-balancer.hetzner.cloud/algorithm-type"

abbrev pub lb_disable_public_network : Name
lb_disable_public_network = "load-balancer.hetzner.cloud/disable-public-network"

abbrev pub lb_public_ipv4_rdns : Name
lb_public_ipv4_rdns = "load-balancer.hetzner.cloud/ipv4-rdns"

abbrev pub lb_public_ipv6_rdns : Name
lb_public_ipv6_rdns = "load-balancer.hetzner.cloud/ipv6-rdns"

abbrev pub lb_private_ipv4 : Name
lb_private_ipv4 = "load-balancer.hetzner.cloud/private-ipv4"

abbrev pub private_subnet_ip_range : Name
private_subnet_ip_range = "load-balancer.hetzner.cloud/private-subnet-ip-range"

unfoldable pub string_from_service : Name → Service → Option String
unfolding lookup
string_from_service name svc = lookup name svc.annotations

-- `strconv.ParseBool`
unfoldable pub parse_bool : String → Option Bool
parse_bool v =
    if v == "1" || (v == "t" || (v == "T" || (v == "true" || (v == "TRUE" || v == "True"))))
    then some true
    else if v == "0" || (v == "f" || (v == "F" || (v == "false" || (v == "FALSE" || v == "False"))))
    then some false
    else none

unfoldable pub bool_of_value : Option String → Result AnnotationError Bool
unfolding parse_bool
bool_of_value none = err not_set
bool_of_value (some v) = elim (parse_bool v) [ none ↦ err invalid | some b ↦ ok b ]

unfoldable pub bool_from_service : Name → Service → Result AnnotationError Bool
unfolding string_from_service bool_of_value
bool_from_service name svc = bool_of_value (string_from_service name svc)

-- The parameter is `strings.ToLower`.
unfoldable pub validate_algorithm_type : (String → String) → String → Option String
validate_algorithm_type to_lower v =
    if to_lower v == "least_connections" || to_lower v == "round_robin"
    then some (to_lower v)
    else none

unfoldable pub algorithm_of_value :
    (String → String) → Option String → Result AnnotationError String
unfolding validate_algorithm_type
algorithm_of_value to_lower none = err not_set
algorithm_of_value to_lower (some v) = elim (validate_algorithm_type to_lower v) [
  | none ↦ err invalid
  | some a ↦ ok a
]

unfoldable pub lb_algorithm_type_from_service :
    (String → String) → Service → Result AnnotationError String
unfolding string_from_service algorithm_of_value
lb_algorithm_type_from_service to_lower svc =
    algorithm_of_value to_lower (string_from_service lb_algorithm_type svc)
