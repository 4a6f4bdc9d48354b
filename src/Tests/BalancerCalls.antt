-- ===== src/Tests/BalancerCalls.antt =====
-- hcloud/load_balancers.go over operations on an API with at most one load balancer. The outside
-- world is the load balancer that exists.
use hcloud_cloud_controller.Common.{
  pos, String, true, false, ◌≡◌, inl, refl, Option, none, some, [], ◌∷◌, Result, ok, err, Keeps,
  lookup,
}
use hcloud_cloud_controller.Kube.{Service, LoadBalancer}
use hcloud_cloud_controller.Config.{LoadBalancerConfiguration}
use hcloud_cloud_controller.Annotation.{
  lb_hostname, string_from_service, bool_from_service, bool_of_value, parse_bool,
}
use hcloud_cloud_controller.Hcops.{Error, not_found, LoadBalancerOps, is_not_found}
use hcloud_cloud_controller.LoadBalancers.{
  Libraries, ensure_load_balancer, update_load_balancer, ensure_load_balancer_deleted,
  match_node_selector, find_or_create, recover, ◌if_not_found◌, reconcile_found, reload_if,
  ensured_status, present, delete_found,
}
use hcloud_cloud_controller.LoadBalancers.Safety.{
  KeptByReconciliation, update_load_balancer-Keeps, ensure_load_balancer_found-Keeps,
  ensure_load_balancer-Keeps,
}
use hcloud_cloud_controller.LoadBalancers.Deletion.{
  DeletionLaws, Answers, Deleted, ensure_load_balancer_deleted_removes,
}

abbrev World : Type 0
World = Option LoadBalancer

abbrev balancer : LoadBalancer
balancer = record {
  id = pos 1;
  name = "lb";
  labels = [];
  public_net = record {
    enabled = true;
    ipv4 = "1.2.3.4";
    ipv4_dns_ptr = "";
    ipv6 = "2001:db8::1";
    ipv6_dns_ptr = "";
  };
  private_net = [];
  algorithm_type = "round_robin";
  type_name = "lb11";
  max_targets = 25;
  targets = [];
  listen_ports = [];
  protected_from_delete = false;
}

abbrev found : World → Result (Error String) LoadBalancer × World
found none = (err not_found, none)
found (some lb) = (ok lb, some lb)

abbrev ops : LoadBalancerOps World String
ops = record {
  get_by_name = λ name. found;
  get_by_id = λ id. found;
  get_by_k8s_service_uid = λ svc. found;
  create = λ name svc w. (ok balancer, some balancer);
  delete = λ lb w. (ok tt, none);
  reconcile_hclb = λ lb svc w. (ok (true, lb), some lb);
  reconcile_hclb_targets = λ lb svc nodes w. (ok false, w);
  reconcile_hclb_services = λ lb svc w. (ok false, w);
}

abbrev libs : Libraries
libs = record { parse_selector = λ v. none; default_load_balancer_name = λ svc. svc.uid }

abbrev cfg : LoadBalancerConfiguration
cfg = record {
  algorithm_type = "round_robin";
  disable_public_network = none;
  enabled = true;
  health_check_interval = pos 0;
  health_check_retries = pos 0;
  health_check_timeout = pos 0;
  ipv6_enabled = true;
  location = "fsn1";
  network_zone = "";
  private_ingress_enabled = true;
  private_ip_enabled = false;
  private_subnet_ip_range = "";
  proxy_protocol_enabled = none;
  type = "lb11";
}

abbrev service : Service
service = record {
  name = "web";
  uid = "uid-1";
  annotations = (lb_hostname, "lb.example.com") ∷ [];
  ports = [];
}

-- That the load balancer exists.
abbrev Exists : World → Type 0
Exists none = ⊥
Exists (some lb) = Unit

found-Keeps : Keeps Exists found
found-Keeps none h = h
found-Keeps (some lb) h = h

kept : KeptByReconciliation ops Exists
kept = record {
  by_name = λ name. found-Keeps;
  by_id = λ id. found-Keeps;
  by_uid = λ svc. found-Keeps;
  hclb = λ lb svc w h. tt;
  hclb_targets = λ lb svc nodes w h. h;
  hclb_services = λ lb svc w h. h;
}

update_load_balancer-Keeps_example :
    Exists (update_load_balancer ops libs cfg service [] (some balancer)).1
update_load_balancer-Keeps_example =
    update_load_balancer-Keeps ops libs cfg Exists kept service [] (some balancer) tt

ensure_load_balancer_found-Keeps_example :
    Exists (ensure_load_balancer ops libs cfg service [] (some balancer)).1
ensure_load_balancer_found-Keeps_example =
    ensure_load_balancer_found-Keeps ops libs cfg Exists kept service [] (some balancer) balancer
      (inl refl) tt

ensure_load_balancer-Keeps_example :
    Exists (ensure_load_balancer ops libs cfg service [] (some balancer)).1
ensure_load_balancer-Keeps_example =
    ensure_load_balancer-Keeps ops libs cfg Exists kept (λ name svc w h. tt) service []
      (some balancer) tt

program : Unit {0}
unfolding lookup string_from_service bool_from_service bool_of_value parse_bool is_not_found
    match_node_selector find_or_create recover ◌if_not_found◌ reconcile_found reload_if
    ensured_status ensure_load_balancer
program = tt

found-Answers : (w : World) → Answers (λ (v : World). v) (found w)
unfolding program
found-Answers none = λ h. refl
found-Answers (some lb) = refl

deletion : DeletionLaws ops service (λ w. w)
unfolding program
deletion = record { searched = found-Answers; deleted = λ lb w h. refl }

deleted : ensure_load_balancer_deleted ops libs cfg service (some balancer) ≡ (ok tt, none)
unfolding program ensure_load_balancer_deleted present delete_found
deleted = refl

ensure_load_balancer_deleted_removes_example : Deleted (λ (w : World). w) (some balancer) none
ensure_load_balancer_deleted_removes_example =
    ensure_load_balancer_deleted_removes ops libs cfg (λ w. w) service deletion (some balancer) none
      deleted
