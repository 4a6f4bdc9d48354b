-- ===== src/Hcops/Targets/Bound.antt =====
-- The number of targets over a whole call of `ReconcileHCLBTargets`.
use Prim.Native.Nat.{max}
use hcloud_cloud_controller.Common.{
  ℕ, ◌≤◌, Bool, List, ◌≡◌, arith, length, Eq-int, Eq-string, Exec, ◌>>=◌, pure, continue_elim,
}
use hcloud_cloud_controller.Kube.{Service, Node, LoadBalancer}
use hcloud_cloud_controller.Hcops.{Error}
use hcloud_cloud_controller.Hcops.Targets.{
  get_private_ip_enabled, Client, Settings, K8sNodes, RobotIps, collect_nodes, robot_ips,
  synchronize, annotated, require_network, reconcile_hclb_targets,
}
use hcloud_cloud_controller.Hcops.Targets.Steps.{
  obs-annotated, obs-require_network, obs-collect_nodes, obs-robot_ips,
}
use hcloud_cloud_controller.Hcops.Targets.Limit.{CountLaws, Within-count, synchronize-Within}

module _ {W E Act Ip : Type 0} (client : Client W E Act Ip) (cfg : Settings) (count : W → ℕ)
    (laws : CountLaws count client) where
  -- A step that leaves the number as it is, before one that ends below the bound.
  le-bind :
      {A B : Type 0} (bound : ℕ) (m : Exec W (Error E) A) (f : A → Exec W (Error E) B) (w : W)
      → count (m w).1 ≡ count w
      → count w ≤ bound
      → ((a : A) (w' : W) → count w' ≡ count w → count (f a w').1 ≤ bound)
      → count ((m >>= f) w).1 ≤ bound
  le-bind bound m f w h l k =
      continue_elim (λ x. count x.1 ≤ bound) (m w).0 f (m w).1 (λ a _. k a (m w).1 h)
        (λ _ _. rw h l)

  after_synchronize :
      (lb : LoadBalancer) (private : Bool) (k : K8sNodes) (r : RobotIps) (bound : ℕ) (w : W)
      → lb.max_targets ≤ bound
      → length lb.targets ≡ count w
      → count w ≤ bound
      → count ((synchronize client cfg lb private k r >>= λ p. pure {E = Error E} p.changed) w).1
        ≤ bound
  after_synchronize lb private k r bound w room e h =
      let s = synchronize client cfg lb private k r w in
      let within =
        Within-count client cfg count laws lb private k r bound room s
          (synchronize-Within client cfg count laws lb private k r bound room w e h) in
      continue_elim (λ x. count x.1 ≤ bound) s.0 (λ p. pure p.changed) s.1 (λ _ _. within)
        (λ _ _. within)

  -- Whatever the nodes and the answers of the API, and whether it succeeds or fails,
  -- `ReconcileHCLBTargets` leaves no more targets than the load balancer had before, or than the
  -- maximum of its type if that is larger; given that the API changes the number of targets by one
  -- with each accepted call, and that the list of targets it starts from is up to date.
  pub count-reconcile_hclb_targets :
      (lb : LoadBalancer) (svc : Service) (nodes : List Node) (w : W)
      → length lb.targets ≡ count w
      → count (reconcile_hclb_targets client cfg lb svc nodes w).1
        ≤ max (length lb.targets) lb.max_targets
  unfolding reconcile_hclb_targets
  count-reconcile_hclb_targets lb svc nodes w e =
      let bound = max (length lb.targets) lb.max_targets in
      let start : count w ≤ bound = omega arith in
      le-bind bound (annotated client cfg (get_private_ip_enabled cfg svc)) _ w
        (obs-annotated client cfg count laws.event laws.robot_server_list
          (get_private_ip_enabled cfg svc) w)
        start
        (λ private w₁ e₁.
          le-bind bound (require_network client cfg private) _ w₁
            (obs-require_network client cfg count laws.event laws.robot_server_list private w₁)
            (omega arith)
            (λ _ w₂ e₂.
              le-bind bound (collect_nodes client cfg nodes _) _ w₂
                (obs-collect_nodes client cfg count laws.event laws.robot_server_list nodes _ w₂)
                (omega arith)
                (λ k w₃ e₃.
                  le-bind bound (robot_ips client cfg private k) _ w₃
                    (obs-robot_ips client cfg count laws.event laws.robot_server_list private k w₃)
                    (omega arith)
                    (λ r w₄ e₄.
                      after_synchronize lb private k r bound w₄ (omega arith) (omega arith)
                        (omega arith)))))
