-- ===== src/Hcops/Targets/Steps.antt =====
-- The steps of `ReconcileHCLBTargets` before its loops: they call the API only to list the Robot
-- servers, and else record events.
use hcloud_cloud_controller.Common.{
  ℤ, Bool, none, List, [], ◌∷◌, ◌≡◌, refl, ◌∙◌, ◌&&◌, not, arith, if◌then◌else◌, ◌==◌, Eq-int,
  Eq-string, Result-cases, Option-cases, Result, ok, err, Exec, ◌>>=◌, continue_elim, lookup,
  Bool-cases, inl, inr,
}
use hcloud_cloud_controller.Kube.{Node}
use hcloud_cloud_controller.Annotation.{AnnotationError}
use hcloud_cloud_controller.Hcops.{Error}
use hcloud_cloud_controller.Hcops.Targets
use hcloud_cloud_controller.ProviderId.{
  to_server_id, unknown_prefix, missing_server_id, unparsable_server_id,
}
use hcloud_cloud_controller.Hcops.Targets.{
  add_node, get_node_internal_ip, get_private_ip_enabled, Event, max_targets_reached,
  server_not_found, Client, Settings, K8sNodes, RobotIps, RobotServer, Progress, lift, emit,
  collect_nodes, robot_ips_from_api, robot_ips_from_nodes, robot_ips, removed, finish_remove,
  remove, added, keeps_server, keeps_ip, note_server, note_ip, remove_target, remove_targets,
  finish_add, try_add, add_server, add_servers, add_ip, add_ips, synchronize, annotated,
  require_network, reconcile_hclb_targets, is_set, ip_of,
}

-- `obs` is anything that can be observed of the outside world.
module _ {W E Act Ip B : Type 0} (client : Client W E Act Ip) (cfg : Settings) (obs : W → B)
    (event_law : (ev : Event) (w : W) → obs (client.event ev w) ≡ obs w)
    (list_law : (w : W) → obs (client.robot_server_list w).1 ≡ obs w) where
  -- The steps before the loops do not change what is observed.
  pub obs-collect_nodes :
      (nodes : List Node) (k : K8sNodes) (w : W)
      → obs (collect_nodes client cfg nodes k w).1 ≡ obs w
  unfolding collect_nodes
  obs-collect_nodes [] k w = refl
  obs-collect_nodes (node ∷ nodes) k w = elim (Result-cases (to_server_id node.provider_id)) [
    | inl ((id, cloud), e) ↦
        rw (e, collect_nodes) (obs-collect_nodes nodes (add_node id cloud node k) w)
    | inr (unknown_prefix q, e) ↦
        rw (e, collect_nodes)
          (obs-collect_nodes nodes k _ ∙ event_law (Targets.unknown_provider_id_prefix node) w)
    | inr (missing_server_id q, e) ↦ rw (e, collect_nodes) refl
    | inr (unparsable_server_id q, e) ↦ rw (e, collect_nodes) refl
  ]

  obs-robot_ips_from_nodes :
      (k : K8sNodes) (ids : List ℤ) (r : RobotIps) (w : W)
      → obs (robot_ips_from_nodes client cfg k ids r w).1 ≡ obs w
  unfolding robot_ips_from_nodes
  obs-robot_ips_from_nodes k [] r w = refl
  obs-robot_ips_from_nodes k (id ∷ ids) r w = elim (Option-cases (lookup id k.nodes)) [
    | inl e ↦ rw (e, robot_ips_from_nodes) (obs-robot_ips_from_nodes k ids r w)
    | inr (node, e) ↦
        rw (e, robot_ips_from_nodes)
          (elim (Bool-cases (get_node_internal_ip node == "")) [
            | inl empty ↦ rw empty (
                obs-robot_ips_from_nodes k ids r _
                ∙ event_law (Targets.internal_ip_not_configured node) w)
            | inr known ↦ rw known (obs-robot_ips_from_nodes k ids _ w)
          ])
  ]

  obs-robot_ips_from_api :
      (b : Bool) (k : K8sNodes) (servers : List RobotServer) (r : RobotIps) (w : W)
      → obs (robot_ips_from_api client cfg b k servers r w).1 ≡ obs w
  unfolding robot_ips_from_api
  obs-robot_ips_from_api b k [] r w = refl
  obs-robot_ips_from_api b k (s ∷ servers) r w =
      elim (Option-cases (if b then lookup s.server_number k.nodes else none)) [
        | inl e ↦ rw (e, robot_ips_from_api) (obs-robot_ips_from_api b k servers _ w)
        | inr (node, e) ↦
            rw (e, robot_ips_from_api)
              (elim (Bool-cases (get_node_internal_ip node == "")) [
                | inl empty ↦ rw empty (
                    obs-robot_ips_from_api b k servers _ _
                    ∙ event_law (Targets.internal_ip_not_configured node) w)
                | inr known ↦ rw known (obs-robot_ips_from_api b k servers _ w)
              ])
      ]

  obs-lift : {A : Type 0} (m : Exec W E A) (w : W) → obs (lift client cfg m w).1 ≡ obs (m w).1
  unfolding lift
  obs-lift m w = refl

  -- A bind of steps that leave it as it is.
  obs-bind :
      {A C : Type 0} (m : Exec W (Error E) A) (f : A → Exec W (Error E) C) (w : W)
      → obs (m w).1 ≡ obs w
      → ((a : A) (w' : W) → obs (f a w').1 ≡ obs w')
      → obs ((m >>= f) w).1 ≡ obs w
  obs-bind m f w h k =
      continue_elim (λ x. obs x.1 ≡ obs w) (m w).0 f (m w).1 (λ a _. k a (m w).1 ∙ h) (λ _ _. h)

  pub obs-robot_ips : (b : Bool) (k : K8sNodes) (w : W) → obs (robot_ips client cfg b k w).1 ≡ obs w
  unfolding robot_ips
  obs-robot_ips b k w = elim (Bool-cases (cfg.robot_enabled && cfg.has_robot_client)) [
    | inl from_api ↦ rw from_api (
        obs-bind (lift client cfg client.robot_server_list) _ w (list_law w) (λ servers.
          obs-robot_ips_from_api b k servers (record { ips_to_ids = []; id_to_ipv4 = [] })))
    | inr other ↦
        rw other (elim (Bool-cases (cfg.robot_enabled && (not cfg.has_robot_client && b))) [
          | inl from_nodes ↦ rw from_nodes (
              obs-robot_ips_from_nodes k (client.range k.robot_ids)
                (record { ips_to_ids = []; id_to_ipv4 = [] }) w)
          | inr none_at_all ↦ rw none_at_all refl
        ])
  ]

  pub obs-annotated :
      {A : Type 0} (x : Result AnnotationError A) (w : W) → obs (annotated client cfg x w).1 ≡ obs w
  unfolding annotated
  obs-annotated (ok a) w = refl
  obs-annotated (err e) w = refl

  pub obs-require_network : (b : Bool) (w : W) → obs (require_network client cfg b w).1 ≡ obs w
  unfolding require_network
  obs-require_network b w = ground arith
