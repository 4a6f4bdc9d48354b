-- ===== src/LoadBalancers/Status.antt =====
-- hcloud/load_balancers.go: the status that `EnsureLoadBalancer` reports is the current one.
use hcloud_cloud_controller.Common.{
  Bool, true, false, Option, none, some, List, ◌≡◌, Result, ok, err, Returns,
}
use hcloud_cloud_controller.Kube.{Service, Node, LoadBalancer}
use hcloud_cloud_controller.Config.{LoadBalancerConfiguration}
use hcloud_cloud_controller.Hcops.{Error, LoadBalancerOps, is_not_found}
use hcloud_cloud_controller.LoadBalancers.{Libraries, Ingress, ensured_status}

-- The answer of the search is the service's load balancer at the API.
abbrev pub Finds : {W E : Type 0} → Option LoadBalancer → Result (Error E) LoadBalancer × W → Type 0
Finds held (ok lb, w) = held ≡ some lb
Finds held (err e, w) = is_not_found e ≡ true → held ≡ none

-- The load balancer at the API after an operation on `lb`; it is still `lb` if nothing was changed.
abbrev pub Current : Option LoadBalancer → Bool → LoadBalancer → Type 0
Current held changed lb =
    (l : LoadBalancer) × (held ≡ some l) × (l.id ≡ lb.id) × (changed ≡ false → l ≡ lb)

-- `view` is the load balancer at the API that has the UID of the service: the searches and the reload
-- give it, and an operation that reports no change has made none.
pub record StatusLaws {W E : Type 0} (ops : LoadBalancerOps W E) (svc : Service)
    (view : W → Option LoadBalancer) : Type 0 where
  pub searched : (w : W) → Finds (view w) (ops.get_by_k8s_service_uid svc w)
  pub reloaded :
      (l : LoadBalancer) (w : W)
      → view w ≡ some l
      → Returns (λ lb v. view v ≡ some lb) (ops.get_by_id l.id w)
  pub reconciled :
      (lb : LoadBalancer) (w : W)
      → Returns (λ r v. Current (view v) r.0 r.1) (ops.reconcile_hclb lb svc w)
  pub services :
      (lb l : LoadBalancer) (w : W)
      → view w ≡ some l
      → l.id ≡ lb.id
      → Returns (λ changed v. Current (view v) changed l) (ops.reconcile_hclb_services lb svc w)
  pub targets :
      (lb l : LoadBalancer) (nodes : List Node) (w : W)
      → view w ≡ some l
      → l.id ≡ lb.id
      → Returns
          (λ changed v. Current (view v) changed l)
          (ops.reconcile_hclb_targets lb svc nodes w)

module _ {W E : Type 0} (ops : LoadBalancerOps W E) (libs : Libraries)
    (cfg : LoadBalancerConfiguration) where
  module _ (svc : Service) (view : W → Option LoadBalancer) (laws : StatusLaws ops svc view) where
    -- The load balancer at the API, with the status that is reported of it.
    abbrev Reported : List Ingress → W → Type 0
    Reported st v =
        (lb : LoadBalancer) × (view v ≡ some lb) × ((ensured_status {E = E} cfg lb svc v).0 ≡ ok st)
