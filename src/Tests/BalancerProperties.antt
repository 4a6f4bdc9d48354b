-- ===== src/Tests/BalancerProperties.antt =====
-- internal/hcops/load_balancer.go: the steps of `ReconcileHCLB` for a load balancer with a stale
-- label, another name, and an empty annotation of the private address.
use hcloud_cloud_controller.Common.{
  ℕ, pos, String, true, false, ◌≡◌, refl, none, some, [], ◌∷◌, ok, Eq-string, lookup,
}
use hcloud_cloud_controller.Kube.{Service, LoadBalancer, PrivateNet}
use hcloud_cloud_controller.Config.{LoadBalancerConfiguration}
use hcloud_cloud_controller.Annotation.{string_from_service, lb_name, lb_private_ipv4}
use hcloud_cloud_controller.Cache.{Mode, new_cache}
use hcloud_cloud_controller.Hcops.Requests
use hcloud_cloud_controller.Hcops.Requests.{State, label_service_uid}
use hcloud_cloud_controller.Hcops.Properties.{
  Client, UpdateOpts, act, detach_from_network, attach_to_network,
}
use hcloud_cloud_controller.Hcops.Properties.Info.{or_present, or_name}
use hcloud_cloud_controller.Hcops.Properties.PrivateAddress.{detached_only}

abbrev network : PrivateNet
network = record { network_id = pos 3; ip = "10.0.0.2" }

abbrev balancer : LoadBalancer
balancer = record {
  id = pos 1;
  name = "lb";
  labels = ("hcloud-ccm/service-uid", "old") ∷ [];
  public_net = record {
    enabled = true;
    ipv4 = "1.2.3.4";
    ipv4_dns_ptr = "";
    ipv6 = "2001:db8::1";
    ipv6_dns_ptr = "";
  };
  private_net = network ∷ [];
  algorithm_type = "round_robin";
  type_name = "lb11";
  max_targets = 25;
  targets = [];
  listen_ports = [];
  protected_from_delete = false;
}

abbrev requests : Requests.Client ℕ String String (Unit {0})
requests = record {
  all_with_label = λ key value w. (ok (balancer ∷ []), w);
  get_by_name = λ name w. (ok none, w);
  get_by_id = λ id w. (ok (some balancer), w);
  create = λ opts w. (ok (tt, pos 1), w);
  delete = λ lb w. (ok tt, w);
  wait_for = λ a w. (ok tt, w);
  is_not_found_code = λ e. false;
  type_message = λ t w. (("", false), w);
  type_unconfigured = λ svc w. w;
  type_deprecated = λ svc message w. w;
  to_lower = λ s. s;
}

abbrev cfg : LoadBalancerConfiguration
cfg = record {
  algorithm_type = "";
  disable_public_network = none;
  enabled = true;
  health_check_interval = pos 0;
  health_check_retries = pos 0;
  health_check_timeout = pos 0;
  ipv6_enabled = true;
  location = "fsn1";
  network_zone = "eu-central";
  private_ingress_enabled = true;
  private_ip_enabled = false;
  private_subnet_ip_range = "";
  proxy_protocol_enabled = none;
  type = "lb11";
}

abbrev service : Service
service = record {
  name = "web";
  uid = "uid-1";
  annotations = (lb_private_ipv4, "") ∷ (lb_name, "new") ∷ [];
  ports = [];
}

abbrev state : State ℕ String
state = record { cache = new_cache Mode.one (pos 0); world = 0 }

abbrev updated : LoadBalancer → UpdateOpts → LoadBalancer
updated lb opts = record lb {
  name = or_name opts.name lb.name;
  labels = or_present opts.labels lb.labels;
}

abbrev client : Client ℕ String String (Unit {0}) String String String
client = record {
  update = λ lb opts w. (ok (updated lb opts), w);
  change_dns_ptr = λ lb ip ptr w. (ok tt, w);
  change_algorithm = λ lb at w. (ok tt, w);
  change_type = λ lb t w. (ok tt, w);
  name_of_type = λ t. t;
  detach_from_network = λ lb id w. (ok tt, w);
  attach_to_network = λ lb opts w. (ok tt, w);
  disable_public_interface = λ lb w. (ok tt, w);
  enable_public_interface = λ lb w. (ok tt, w);
  get_network = λ id w. (ok (some "net"), w);
  is_conflict_or_locked = λ e. false;
  sleep = λ d w. w;
  parse_ip = λ v. none;
  parse_cidr = λ v. none;
}

abbrev renamed : LoadBalancer
renamed = record balancer { name = "new"; labels = (label_service_uid, "uid-1") ∷ [] }

empty_address : string_from_service lb_private_ipv4 service ≡ some ""
unfolding string_from_service lookup
empty_address = refl

detached_only_example :
    (detach_from_network requests client (pos 3) balancer service state
      ≡ act requests client (client.detach_from_network balancer (pos 3)) state)
    × (attach_to_network requests client cfg (pos 3) (pos 0) balancer service state
        ≡ (ok false, state))
detached_only_example =
    detached_only requests client cfg (pos 0) balancer service network state state empty_address
      refl refl
