-- ===== src/Hcops/Targets.antt =====
-- internal/hcops/load_balancer.go: `ReconcileHCLBTargets` and its helpers. Metrics and klog output
-- are left out. Where the code returns an error it also returns whether something was changed,
-- which no caller reads; so a failure keeps only the error.
pub mod Data
pub mod Removal
pub mod Steps
pub mod Stale
pub mod Limit
pub mod Bound
pub mod Nodes
use hcloud_cloud_controller.Common.{
  ◌+◌, ◌-◌, ℤ, String, Bool, true, false, ◌&&◌, not, Option, none, some, List, [], ◌∷◌,
  if◌then◌else◌, leb, Result, ok, err, Exec, ◌>>=◌, ◌>>◌, pure, fail, lookup, insert, mem, length,
  ◌==◌, Eq-int, Eq-string, int_eq, pos,
}
use hcloud_cloud_controller.Kube.{
  Service, Node, LoadBalancer, Target, server_target, ip_target, label_selector_target,
}
use hcloud_cloud_controller.Annotation.{AnnotationError}
use hcloud_cloud_controller.Hcops.{
  Error, annotation_error, provider_id_error, missing_network_id, api,
}
use hcloud_cloud_controller.ProviderId
use hcloud_cloud_controller.ProviderId.{to_server_id, unknown_prefix}
pub use hcloud_cloud_controller.Hcops.Targets.Data.{
  RobotServer, Event, unknown_provider_id_prefix, internal_ip_not_configured, max_targets_reached,
  server_not_found, Client, Settings, K8sNodes, RobotIps, Progress,
}
unfoldable pub use hcloud_cloud_controller.Hcops.Targets.Data.{
  get_private_ip_enabled, is_internal_ip, internal_ip_of, get_node_internal_ip, add_node,
  set_robot_ip, is_set, text_or_empty, is_robot_node,
}

module _ {W E Act Ip : Type 0} (client : Client W E Act Ip) (cfg : Settings) where
  unfoldable pub lift : {A : Type 0} → Exec W E A → Exec W (Error E) A
  lift m w = let (r, w') = m w in (elim r [ ok a ↦ ok a | err e ↦ err (api e) ], w')

  unfoldable pub emit : Event → Exec W (Error E) (Unit {0})
  emit ev w = (ok tt, client.event ev w)

  unfoldable pub collect_nodes : List Node → K8sNodes → Exec W (Error E) K8sNodes
  unfolding emit add_node
  collect_nodes [] k = pure k
  collect_nodes (node ∷ nodes) k = elim (to_server_id node.provider_id) [
    | ok (id, is_cloud_server) ↦ collect_nodes nodes (add_node id is_cloud_server node k)
    | err e ↦ elim e [
      | unknown_prefix _ ↦ emit (unknown_provider_id_prefix node) >> collect_nodes nodes k
      | other ↦ fail (provider_id_error other)
    ]
  ]

  -- The loop over the servers that the Robot API lists.
  unfoldable pub robot_ips_from_api :
      Bool → K8sNodes → List RobotServer → RobotIps → Exec W (Error E) RobotIps
  unfolding emit set_robot_ip get_node_internal_ip
  robot_ips_from_api private k [] r = pure r
  robot_ips_from_api private k (s ∷ servers) r =
      let r' = set_robot_ip s.server_ip s.server_number r in
      elim (if private then lookup s.server_number k.nodes else none) [
        | none ↦ robot_ips_from_api private k servers r'
        | some node ↦ elim (get_node_internal_ip node == "") [
          | true ↦ emit (internal_ip_not_configured node) >> robot_ips_from_api private k servers r'
          | false ↦
              robot_ips_from_api private k servers
                (set_robot_ip (get_node_internal_ip node) s.server_number r')
        ]
      ]

  -- The loop over the Robot nodes where no Robot client is configured.
  unfoldable pub robot_ips_from_nodes : K8sNodes → List ℤ → RobotIps → Exec W (Error E) RobotIps
  unfolding emit set_robot_ip get_node_internal_ip
  robot_ips_from_nodes k [] r = pure r
  robot_ips_from_nodes k (id ∷ ids) r = elim (lookup id k.nodes) [
    | none ↦ robot_ips_from_nodes k ids r
    | some node ↦ elim (get_node_internal_ip node == "") [
      | true ↦ emit (internal_ip_not_configured node) >> robot_ips_from_nodes k ids r
      | false ↦ robot_ips_from_nodes k ids (set_robot_ip (get_node_internal_ip node) id r)
    ]
  ]

  abbrev no_robot_ips : RobotIps
  no_robot_ips = record { ips_to_ids = []; id_to_ipv4 = [] }

  unfoldable pub robot_ips : Bool → K8sNodes → Exec W (Error E) RobotIps
  unfolding lift robot_ips_from_api robot_ips_from_nodes
  robot_ips private k =
      if cfg.robot_enabled && cfg.has_robot_client
      then (do
        servers ← lift client.robot_server_list
        robot_ips_from_api private k servers no_robot_ips)
      else if cfg.robot_enabled && (not cfg.has_robot_client && private)
      then robot_ips_from_nodes k (client.range k.robot_ids) no_robot_ips
      else pure no_robot_ips

  module _ (lb : LoadBalancer) (private : Bool) (k : K8sNodes) (r : RobotIps) where
    unfoldable pub removed : Progress → Progress
    removed p = record p { changed = true; number_of_targets = p.number_of_targets - 1 }

    unfoldable pub added : Progress → Progress
    added p = record p { changed = true; number_of_targets = p.number_of_targets + 1 }

    -- Whether a server target stays.
    unfoldable pub keeps_server : ℤ → Bool → Bool
    keeps_server id use_private_ip =
        mem id k.hcloud_ids && (if use_private_ip then private else not private)

    unfoldable pub keeps_ip : String → Bool
    unfolding is_robot_node
    keeps_ip ip = is_robot_node k.robot_ids (lookup ip r.ips_to_ids)

    unfoldable pub note_server : ℤ → Bool → Progress → Progress
    note_server id keep p = record p { target_ids = insert id keep p.target_ids }

    unfoldable pub note_ip : String → Bool → Progress → Progress
    note_ip ip keep p = record p { target_ips = insert ip keep p.target_ips }

    -- What follows the API's answer to a removal.
    unfoldable pub finish_remove : Progress → Result E Act → Exec W (Error E) Progress
    unfolding lift removed
    finish_remove p (ok a) = do lift (client.wait_for a); pure (removed p)
    finish_remove p (err e) = fail (api e)

    unfoldable pub remove : Exec W E Act → Progress → Exec W (Error E) Progress
    unfolding finish_remove
    remove m p w = let (res, w') = m w in finish_remove p res w'

    unfoldable pub remove_target : Target → Progress → Exec W (Error E) Progress
    unfolding remove keeps_server keeps_ip note_server note_ip
    remove_target (server_target id use_private_ip) p =
        let p' = note_server id (keeps_server id use_private_ip) p in
        if keeps_server id use_private_ip
        then pure p'
        else remove (client.remove_server_target lb.id id) p'
    remove_target (ip_target ip) p =
        let p' = note_ip ip (keeps_ip ip) p in
        if keeps_ip ip
        then pure p'
        else remove (client.remove_ip_target lb.id (client.parse_ip ip)) p'
    remove_target label_selector_target p = pure p

    unfoldable pub remove_targets : List Target → Progress → Exec W (Error E) Progress
    unfolding remove_target
    remove_targets [] p = pure p
    remove_targets (t ∷ ts) p = remove_target t p >>= remove_targets ts

    -- What follows the API's answer to an addition.
    unfoldable pub finish_add : Option Node → Progress → Result E Act → Exec W (Error E) Progress
    unfolding emit lift added
    finish_add n p (ok a) = do lift (client.wait_for a); pure (added p)
    finish_add n p (err e) =
        if client.is_resource_limit_exceeded e
        then (do emit (max_targets_reached n); pure p)
        else fail (api e)

    unfoldable pub try_add : Option Node → Exec W E Act → Progress → Exec W (Error E) Progress
    unfolding emit finish_add
    try_add node m p =
        if leb lb.max_targets p.number_of_targets
        then (do emit (max_targets_reached node); pure p)
        else λ w. let (res, w') = m w in finish_add node p res w'

    unfoldable pub add_server : ℤ → Progress → Exec W (Error E) Progress
    unfolding is_set try_add
    add_server id p =
        if is_set (lookup id p.target_ids)
        then pure p
        else try_add (lookup id k.nodes) (client.add_server_target lb.id id private) p

    unfoldable pub add_servers : List ℤ → Progress → Exec W (Error E) Progress
    unfolding add_server
    add_servers [] p = pure p
    add_servers (id ∷ ids) p = add_server id p >>= add_servers ids

    unfoldable pub ip_of : ℤ → String
    unfolding text_or_empty
    ip_of id = text_or_empty (lookup id r.id_to_ipv4)

    unfoldable pub add_ip : ℤ → Progress → Exec W (Error E) Progress
    unfolding is_set emit try_add ip_of
    add_ip id p =
        if is_set (lookup (ip_of id) p.target_ips)
        then pure p
        else if ip_of id == ""
        then (do emit (server_not_found (lookup id k.nodes) id); pure p)
        else try_add (lookup id k.nodes) (client.add_ip_target lb.id (client.parse_ip (ip_of id))) p

    unfoldable pub add_ips : List ℤ → Progress → Exec W (Error E) Progress
    unfolding add_ip
    add_ips [] p = pure p
    add_ips (id ∷ ids) p = add_ip id p >>= add_ips ids

    abbrev initial_progress : Progress
    initial_progress = record {
      target_ids = [];
      target_ips = [];
      changed = false;
      number_of_targets = length lb.targets;
    }

    -- The three loops over targets and nodes.
    unfoldable pub synchronize : Exec W (Error E) Progress
    unfolding remove_targets add_servers add_ips
    synchronize = do
      p ← remove_targets lb.targets initial_progress
      p ← add_servers (client.range k.hcloud_ids) p
      if cfg.robot_enabled then add_ips (client.range k.robot_ids) p else pure p

  unfoldable pub annotated : {A : Type 0} → Result AnnotationError A → Exec W (Error E) A
  annotated (ok a) = pure a
  annotated (err e) = fail (annotation_error e)

  unfoldable pub require_network : Bool → Exec W (Error E) (Unit {0})
  require_network private =
      if private && int_eq cfg.network_id (pos 0) then fail missing_network_id else pure tt

  unfoldable pub reconcile_hclb_targets : LoadBalancer → Service → List Node → Exec W (Error E) Bool
  unfolding get_private_ip_enabled annotated require_network collect_nodes robot_ips synchronize
  reconcile_hclb_targets lb svc nodes = do
    private ← annotated (get_private_ip_enabled cfg svc)
    require_network private
    k ← collect_nodes nodes (record { hcloud_ids = []; robot_ids = []; nodes = [] })
    r ← robot_ips private k
    p ← synchronize lb private k r
    pure p.changed
