-- ===== src/Tests/Creation.antt =====
-- internal/hcops/load_balancer.go: the search by UID, and the request for a new load balancer where
-- a location and a network zone are configured.
use hcloud_cloud_controller.Common.{
  ℕ, pos, String, true, false, ◌≡◌, ◌⊎◌, ◌↔◌, refl, none, some, [], ◌∷◌, ok, ◌==◌, Eq-string,
  lookup,
}
use hcloud_cloud_controller.Kube.{Service, LoadBalancer}
use hcloud_cloud_controller.Config.{LoadBalancerConfiguration}
use hcloud_cloud_controller.Annotation.{
  string_from_service, bool_from_service, bool_of_value, lb_algorithm_type_from_service,
  algorithm_of_value,
}
use hcloud_cloud_controller.Cache.{Mode, new_cache}
use hcloud_cloud_controller.Hcops.Requests.{
  Client, State, CreateOpts, label_service_uid, get_by_k8s_service_uid, create_opts, location,
  network_zone, if_set, place, with_place, algorithm, with_algorithm, public_interface,
  with_interface,
}
use hcloud_cloud_controller.Hcops.Requests.Placement.{
  get_by_k8s_service_uid_unique, create_opts_placed,
}

abbrev balancer : LoadBalancer
balancer = record {
  id = pos 1;
  name = "lb";
  labels = [];
  public_net = record {
    enabled = true;
    ipv4 = "1.2.3.4";
    ipv4_dns_ptr = "";
    ipv6 = "2001:db8::1";
    ipv6_dns_ptr = "";
  };
  private_net = [];
  algorithm_type = "round_robin";
  type_name = "lb11";
  max_targets = 25;
  targets = [];
  listen_ports = [];
  protected_from_delete = false;
}

abbrev client : Client ℕ String String (Unit {0})
client = record {
  all_with_label = λ key value w. (ok (balancer ∷ []), w);
  get_by_name = λ name w. (ok none, w);
  get_by_id = λ id w. (ok (some balancer), w);
  create = λ opts w. (ok (tt, pos 1), w);
  delete = λ lb w. (ok tt, w);
  wait_for = λ a w. (ok tt, w);
  is_not_found_code = λ e. false;
  type_message = λ t w. (("", false), w);
  type_unconfigured = λ svc w. w;
  type_deprecated = λ svc message w. w;
  to_lower = λ s. s;
}

abbrev cfg : LoadBalancerConfiguration
cfg = record {
  algorithm_type = "";
  disable_public_network = none;
  enabled = true;
  health_check_interval = pos 0;
  health_check_retries = pos 0;
  health_check_timeout = pos 0;
  ipv6_enabled = true;
  location = "fsn1";
  network_zone = "eu-central";
  private_ingress_enabled = true;
  private_ip_enabled = false;
  private_subnet_ip_range = "";
  proxy_protocol_enabled = none;
  type = "lb11";
}

abbrev service : Service
service = record { name = "web"; uid = "uid-1"; annotations = []; ports = [] }

abbrev state : State ℕ String
state = record { cache = new_cache Mode.one (pos 0); world = 0 }

abbrev request : CreateOpts String
request = record {
  name = "lb";
  type = "lb11";
  labels = (label_service_uid, "uid-1") ∷ [];
  location = some "fsn1";
  network_zone = "";
  algorithm = none;
  public_interface = none;
}

built : create_opts {E = String} client cfg "lb" service "lb11" ≡ ok request
unfolding create_opts location network_zone if_set place with_place algorithm with_algorithm
    public_interface with_interface string_from_service bool_from_service bool_of_value
    lb_algorithm_type_from_service algorithm_of_value lookup
built = refl

create_opts_placed_example :
    (((l : String) × (request.location ≡ some l) × (request.network_zone ≡ ""))
      ⊎ ((request.location ≡ none) × ((request.network_zone == "") ≡ false)))
    × (request.labels ≡ (label_service_uid, "uid-1") ∷ [])
create_opts_placed_example = create_opts_placed client cfg "lb" service "lb11" request built

get_by_k8s_service_uid_unique_example :
    ((get_by_k8s_service_uid client service state).0 ≡ ok balancer)
    ↔ ((client.all_with_label label_service_uid "uid-1" state.world).0 ≡ ok (balancer ∷ []))
get_by_k8s_service_uid_unique_example = get_by_k8s_service_uid_unique client service state balancer
