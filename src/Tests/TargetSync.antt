-- ===== src/Tests/TargetSync.antt =====
-- internal/hcops/load_balancer.go: `ReconcileHCLBTargets` with a node of the cloud and a target
-- that is left of a server that is gone.
use Prim.Native.Nat.{max}
use hcloud_cloud_controller.Common.{
  ℕ, zero, suc, ◌≤◌, ℤ, pos, String, Bool, true, false, ◌≡◌, inl, inr, refl, Option, none, some, [],
  ◌∷◌, Result, ok, err, if◌then◌else◌, int_eq, int_eq_iff, lookup, insert, mem, include, arith,
  Bool-cases, Eq-int,
}
use hcloud_cloud_controller.Kube.{Service, Node, LoadBalancer, server_target}
use hcloud_cloud_controller.ProviderId.{codes}
use hcloud_cloud_controller.Annotation.{bool_from_service, bool_of_value, string_from_service}
use hcloud_cloud_controller.ProviderId.{
  to_server_id, has_prefix, remove_all, sweep, parse_id_string, parse_int, parse_uint, scan,
  with_sign,
}
use hcloud_cloud_controller.Hcops.Targets.Nodes.{IsCloudNode, reconcile_hclb_targets_nodes}
use hcloud_cloud_controller.Hcops.Targets.{
  annotated, get_private_ip_enabled, require_network, collect_nodes, add_node, robot_ips, Client,
  Settings, reconcile_hclb_targets, synchronize, remove_targets, remove_target, remove,
  finish_remove, removed, keeps_server, keeps_ip, note_server, note_ip, add_servers, add_server,
  try_add, finish_add, added, add_ips, add_ip, ip_of, is_set, emit, lift, text_or_empty,
  is_robot_node,
}
use hcloud_cloud_controller.Hcops.Targets.Limit.{RemovesOne, CountLaws}
use hcloud_cloud_controller.Hcops.Targets.Bound.{count-reconcile_hclb_targets}
use hcloud_cloud_controller.Hcops.Targets.Removal.{HasTarget, ViewLaws}

abbrev settings : Settings
settings = record {
  network_id = pos 0;
  private_ip_enabled = false;
  robot_enabled = false;
  has_robot_client = false;
}

abbrev balancer : LoadBalancer
balancer = record {
  id = pos 1;
  name = "lb";
  labels = [];
  public_net = record {
    enabled = true;
    ipv4 = "1.2.3.4";
    ipv4_dns_ptr = "";
    ipv6 = "2001:db8::1";
    ipv6_dns_ptr = "";
  };
  private_net = [];
  algorithm_type = "round_robin";
  type_name = "lb11";
  max_targets = 25;
  targets = server_target (pos 5) false ∷ [];
  listen_ports = [];
  protected_from_delete = false;
}

abbrev service : Service
service = record { name = "web"; uid = "uid-1"; annotations = []; ports = [] }

abbrev node : Node
node = record { name = "node-7"; provider_id = codes "hcloud://7"; labels = []; addresses = [] }

-- An API that knows only how many targets there are.
abbrev take_one : ℕ → Result String (Unit {0}) × ℕ
take_one zero = (err "no target", zero)
take_one (suc n) = (ok tt, n)

abbrev counting : Client ℕ String (Unit {0}) String
counting = record {
  remove_server_target = λ lb id. take_one;
  add_server_target = λ lb id b w. (ok tt, suc w);
  remove_ip_target = λ lb ip. take_one;
  add_ip_target = λ lb ip w. (ok tt, suc w);
  wait_for = λ a w. (ok tt, w);
  robot_server_list = λ w. (ok [], w);
  is_resource_limit_exceeded = λ e. false;
  event = λ ev w. w;
  parse_ip = λ ip. ip;
  range = λ ids. ids;
}

take_one-RemovesOne : (w : ℕ) → RemovesOne (λ (n : ℕ). n) w (take_one w)
take_one-RemovesOne zero = refl
take_one-RemovesOne (suc n) = omega arith

counting-laws : CountLaws (λ (n : ℕ). n) counting
counting-laws = record {
  remove_server = λ lb id. take_one-RemovesOne;
  remove_ip = λ lb ip. take_one-RemovesOne;
  add_server = λ lb id b w. omega arith;
  add_ip = λ lb ip w. omega arith;
  wait_for = λ a w. refl;
  robot_server_list = λ w. refl;
  event = λ ev w. refl;
}

count-reconcile_hclb_targets_example :
    (reconcile_hclb_targets counting settings balancer service (node ∷ []) 1).1 ≤ max 1 25
count-reconcile_hclb_targets_example =
    count-reconcile_hclb_targets counting settings (λ (n : ℕ). n) counting-laws balancer service
      (node ∷ []) 1 refl

-- An API that knows the flag of each server target.
abbrev World : Type 0
World = ℤ → Option Bool

abbrev put : ℤ → Option Bool → World → Result String (Unit {0}) × World
put id v w = (ok tt, λ j. if int_eq j id then v else w j)

abbrev viewing : Client World String (Unit {0}) String
viewing = record {
  remove_server_target = λ lb id. put id none;
  add_server_target = λ lb id b. put id (some b);
  remove_ip_target = λ lb ip w. (ok tt, w);
  add_ip_target = λ lb ip w. (ok tt, w);
  wait_for = λ a w. (ok tt, w);
  robot_server_list = λ w. (ok [], w);
  is_resource_limit_exceeded = λ e. false;
  event = λ ev w. w;
  parse_ip = λ ip. ip;
  range = λ ids. ids;
}

viewing-laws : ViewLaws (λ (w : World). w) viewing
viewing-laws = record {
  remove_server = λ lb id w j. refl;
  add_server = λ lb id b w j. refl;
  remove_ip = λ lb ip w j. refl;
  add_ip = λ lb ip w j. refl;
  wait_for = λ a w j. refl;
  event = λ ev w j. refl;
  robot_server_list = λ w j. refl;
  range = λ s j h. h;
}

abbrev before : World
before j = if int_eq j (pos 5) then some false else none

program : Unit {0}
unfolding lookup insert mem include synchronize remove_targets remove_target remove finish_remove
    removed keeps_server keeps_ip note_server note_ip add_servers add_server try_add finish_add
    added add_ips add_ip ip_of is_set emit lift text_or_empty is_robot_node
program = tt

before-listed : (i : ℤ) (c : Bool) → before i ≡ some c → HasTarget i c balancer.targets
before-listed i c e = elim (Bool-cases (int_eq i (pos 5))) [
  | inl same ↦ inl (ground (arith, int_eq_iff i (pos 5)), ground arith)
  | inr other ↦ absurd (ground arith)
]

reconciliation : Unit {0}
unfolding program reconcile_hclb_targets annotated get_private_ip_enabled require_network
    collect_nodes add_node robot_ips bool_from_service bool_of_value string_from_service
    to_server_id has_prefix remove_all sweep parse_id_string parse_int parse_uint scan with_sign
reconciliation = tt

reconciled :
    reconcile_hclb_targets viewing settings balancer service (node ∷ []) before
    ≡ (ok true, (reconcile_hclb_targets viewing settings balancer service (node ∷ []) before).1)
unfolding reconciliation
reconciled = refl

added_by_reconcile :
    (reconcile_hclb_targets viewing settings balancer service (node ∷ []) before).1 (pos 7)
    ≡ some false
unfolding reconciliation
added_by_reconcile = refl

reconcile_hclb_targets_nodes_example :
    IsCloudNode (pos 7) (node ∷ []) × (get_private_ip_enabled settings service ≡ ok false)
reconcile_hclb_targets_nodes_example =
    reconcile_hclb_targets_nodes viewing settings (λ (w : World). w) viewing-laws balancer service
      (node ∷ []) before true
      (reconcile_hclb_targets viewing settings balancer service (node ∷ []) before).1 (pos 7) false
      before-listed reconciled added_by_reconcile

removed_by_reconcile :
    (reconcile_hclb_targets viewing settings balancer service (node ∷ []) before).1 (pos 5) ≡ none
unfolding reconciliation
removed_by_reconcile = refl
