-- ===== src/LoadBalancers/Safety.antt =====
-- Which operations the cloud provider's calls can make. A property `P` of the outside world that an
-- operation keeps stands for whatever that operation does not do.
use hcloud_cloud_controller.Common.{
  ℤ, String, Bool, true, false, ◌||◌, Option, none, some, List, ◌≡◌, ◌⊎◌, inl, inr, arith, Result,
  ok, err, Exec, ◌>>=◌, ◌>>◌, pure, Keeps, Keeps-bind, Bool-cases, continue_elim,
}
use hcloud_cloud_controller.Kube.{Service, Node, LoadBalancer}
use hcloud_cloud_controller.Config.{LoadBalancerConfiguration}
use hcloud_cloud_controller.Hcops.{Error, not_found, is_not_found, LoadBalancerOps}
use hcloud_cloud_controller.LoadBalancers.{
  Libraries, Ingress, IpMode, match_node_selector, get_load_balancer_name, public_ingress,
  ensured_status, recover, ◌if_not_found◌, present, find_or_create, reload_if, reconcile_found,
  ensure_load_balancer, update_found, update_load_balancer,
}

-- Every operation but `create` and `delete` keeps `P`.
pub record KeptByReconciliation {W E : Type 0} (ops : LoadBalancerOps W E) (P : W → Type 0)
    : Type 0 where
  pub by_name : (name : String) → Keeps P (ops.get_by_name name)
  pub by_id : (id : ℤ) → Keeps P (ops.get_by_id id)
  pub by_uid : (svc : Service) → Keeps P (ops.get_by_k8s_service_uid svc)
  pub hclb : (lb : LoadBalancer) (svc : Service) → Keeps P (ops.reconcile_hclb lb svc)
  pub hclb_targets :
      (lb : LoadBalancer) (svc : Service) (nodes : List Node)
      → Keeps P (ops.reconcile_hclb_targets lb svc nodes)
  pub hclb_services :
      (lb : LoadBalancer) (svc : Service) → Keeps P (ops.reconcile_hclb_services lb svc)

module _ {W E : Type 0} (ops : LoadBalancerOps W E) (libs : Libraries)
    (cfg : LoadBalancerConfiguration) where
  -- The selection of nodes and the building of a status touch nothing outside.
  world-match_node_selector :
      (svc : Service) (nodes : List Node) (w : W)
      → (match_node_selector ops libs cfg svc nodes w).1 ≡ w
  unfolding match_node_selector
  world-match_node_selector svc nodes w = ground arith

  world-public_ingress :
      (mode : IpMode) (lb : LoadBalancer) (svc : Service) (w : W)
      → (public_ingress {E = E} cfg mode lb svc w).1 ≡ w
  unfolding public_ingress
  world-public_ingress mode lb svc w = ground arith

  world-ensured_status :
      (lb : LoadBalancer) (svc : Service) (w : W) → (ensured_status {E = E} cfg lb svc w).1 ≡ w
  unfolding ensured_status
  world-ensured_status lb svc w = ground arith

module _ {W E : Type 0} (ops : LoadBalancerOps W E) (libs : Libraries)
    (cfg : LoadBalancerConfiguration) (P : W → Type 0) where
  Keeps-recover :
      {A : Type 0} (r : Result (Error E) A) (k : Exec W (Error E) A)
      → Keeps P k
      → Keeps P (recover ops libs cfg r k)
  unfolding recover
  Keeps-recover (ok a) k h = λ w p. p
  Keeps-recover (err e) k h = elim (Bool-cases (is_not_found e)) [
    | inl missing ↦ rw missing h
    | inr other ↦ rw other (λ w p. p)
  ]

  Keeps-if_not_found :
      {A : Type 0} (m k : Exec W (Error E) A)
      → Keeps P m
      → Keeps P k
      → Keeps P (◌if_not_found◌ ops libs cfg m k)
  unfolding ◌if_not_found◌
  Keeps-if_not_found m k hm hk w p = Keeps-recover (m w).0 k hk (m w).1 (hm w p)

  module _ (kept : KeptByReconciliation ops P) where
    Keeps-reload_if : (b : Bool) (lb : LoadBalancer) → Keeps P (reload_if ops libs cfg b lb)
    unfolding reload_if
    Keeps-reload_if true lb = kept.by_id lb.id
    Keeps-reload_if false lb = λ w p. p

    Keeps-reconcile_found :
        (svc : Service) (nodes : List Node) (lb : LoadBalancer)
        → Keeps P (reconcile_found ops libs cfg svc nodes lb)
    unfolding reconcile_found
    Keeps-reconcile_found svc nodes lb =
        Keeps-bind P (ops.reconcile_hclb lb svc)
          (λ (c, lb₁). reload_if ops libs cfg c lb₁ >>= λ lb₂. after lb₂) (kept.hclb lb svc)
          (λ r.
            Keeps-bind P (reload_if ops libs cfg r.0 r.1) after (Keeps-reload_if r.0 r.1)
              Keeps-after)
      where
        last : LoadBalancer → Exec W (Error E) (List Ingress)
        last l = ensured_status {E = E} cfg l svc

        after : LoadBalancer → Exec W (Error E) (List Ingress)
        after l = ops.reconcile_hclb_services l svc >>= λ a.
            ops.reconcile_hclb_targets l svc nodes >>= λ b.
            reload_if ops libs cfg (a || b) l >>= last

        Keeps-after : (l : LoadBalancer) → Keeps P (after l)
        Keeps-after l =
            Keeps-bind P (ops.reconcile_hclb_services l svc)
              (λ a. ops.reconcile_hclb_targets l svc nodes >>= λ b.
                reload_if ops libs cfg (a || b) l >>= last)
              (kept.hclb_services l svc)
              (λ a.
                Keeps-bind P (ops.reconcile_hclb_targets l svc nodes)
                  (λ b. reload_if ops libs cfg (a || b) l >>= last) (kept.hclb_targets l svc nodes)
                  (λ b.
                    Keeps-bind P (reload_if ops libs cfg (a || b) l) last
                      (Keeps-reload_if (a || b) l)
                      (λ l' w p. rw (world-ensured_status ops libs cfg l' svc w) p)))

    Keeps-update_found :
        (svc : Service) (nodes : List Node) (found : Option LoadBalancer)
        → Keeps P (update_found ops libs cfg svc nodes found)
    unfolding update_found
    Keeps-update_found svc nodes none = λ w p. p
    Keeps-update_found svc nodes (some lb) =
        Keeps-bind P (ops.reconcile_hclb lb svc)
          (λ (c, l).
            ops.reconcile_hclb_targets l svc nodes
            >> (ops.reconcile_hclb_services l svc >> pure tt))
          (kept.hclb lb svc)
          (λ r.
            Keeps-bind P (ops.reconcile_hclb_targets r.1 svc nodes)
              (λ _. ops.reconcile_hclb_services r.1 svc >> pure tt)
              (kept.hclb_targets r.1 svc nodes)
              (λ _.
                Keeps-bind P (ops.reconcile_hclb_services r.1 svc) (λ _. pure tt)
                  (kept.hclb_services r.1 svc) (λ _ w p. p)))

    Keeps-present :
        (m : Exec W (Error E) LoadBalancer) → Keeps P m → Keeps P (present ops libs cfg m)
    unfolding present
    Keeps-present m h = Keeps-bind P m (λ lb. pure (some lb)) h (λ _ w p. p)

    -- `UpdateLoadBalancer` neither creates nor deletes a load balancer: it keeps every property of
    -- the outside world that the other operations keep.
    pub update_load_balancer-Keeps :
        (svc : Service) (nodes : List Node) (w : W)
        → P w
        → P (update_load_balancer ops libs cfg svc nodes w).1
    unfolding update_load_balancer
    update_load_balancer-Keeps svc nodes =
        Keeps-bind P (match_node_selector ops libs cfg svc nodes) _
          (λ w p. rw (world-match_node_selector ops libs cfg svc nodes w) p)
          (λ selected.
            Keeps-bind P _ (update_found ops libs cfg svc selected)
              (Keeps-if_not_found (present ops libs cfg (ops.get_by_k8s_service_uid svc)) _
                (Keeps-present _ (kept.by_uid svc))
                (Keeps-if_not_found
                  (present ops libs cfg (ops.get_by_name (get_load_balancer_name ops libs cfg svc)))
                  (pure none) (Keeps-present _ (kept.by_name _)) (λ w p. p)))
              (Keeps-update_found svc selected))

    -- A load balancer that the search finds is not created.
    find_or_create_found :
        (svc : Service) (w : W) (lb : LoadBalancer)
        → ((ops.get_by_k8s_service_uid svc w).0 ≡ ok lb)
          ⊎ (((ops.get_by_k8s_service_uid svc w).0 ≡ err not_found)
              × ((ops.get_by_name
                    (get_load_balancer_name ops libs cfg svc)
                    (ops.get_by_k8s_service_uid svc w).1).0
                  ≡ ok lb))
        → P w
        → P (find_or_create ops libs cfg svc w).1
    unfolding find_or_create
    find_or_create_found svc w lb (inl e) p = rw e (kept.by_uid svc w p)
    find_or_create_found svc w lb (inr (e, e')) p =
        rw (e, e') (kept.by_name _ _ (kept.by_uid svc w p))

    ensure_from :
        (svc : Service) (nodes : List Node) (w : W)
        → (P w → P (find_or_create ops libs cfg svc w).1)
        → P w
        → P (ensure_load_balancer ops libs cfg svc nodes w).1
    unfolding ensure_load_balancer
    ensure_from svc nodes w search p =
        continue_elim (λ r. P r.1) (match_node_selector ops libs cfg svc nodes w).0
          (λ selected.
            find_or_create ops libs cfg svc >>= reconcile_found ops libs cfg svc selected)
          (match_node_selector ops libs cfg svc nodes w).1
          (λ selected _. rw (world-match_node_selector ops libs cfg svc nodes w) (
            continue_elim (λ r. P r.1) (find_or_create ops libs cfg svc w).0
              (reconcile_found ops libs cfg svc selected) (find_or_create ops libs cfg svc w).1
              (λ lb _. Keeps-reconcile_found svc selected lb _ (search p)) (λ c _. search p)))
          (λ c _. rw (world-match_node_selector ops libs cfg svc nodes w) p)

    -- `EnsureLoadBalancer` does not create a load balancer, nor delete one, if the search by the
    -- service's UID finds one, or if that finds none and the search by name does: then it keeps
    -- every property of the outside world that the operations other than creation and deletion
    -- keep.
    pub ensure_load_balancer_found-Keeps :
        (svc : Service) (nodes : List Node) (w : W) (lb : LoadBalancer)
        → ((ops.get_by_k8s_service_uid svc w).0 ≡ ok lb)
          ⊎ (((ops.get_by_k8s_service_uid svc w).0 ≡ err not_found)
              × ((ops.get_by_name
                    (get_load_balancer_name ops libs cfg svc)
                    (ops.get_by_k8s_service_uid svc w).1).0
                  ≡ ok lb))
        → P w
        → P (ensure_load_balancer ops libs cfg svc nodes w).1
    ensure_load_balancer_found-Keeps svc nodes w lb found =
        ensure_from svc nodes w (find_or_create_found svc w lb found)

    -- `EnsureLoadBalancer` never deletes a load balancer: it keeps every property that all
    -- operations but deletion keep.
    pub ensure_load_balancer-Keeps :
        ((name : String) (svc : Service) → Keeps P (ops.create name svc))
        → (svc : Service) (nodes : List Node) (w : W) → P w
        → P (ensure_load_balancer ops libs cfg svc nodes w).1
    ensure_load_balancer-Keeps created svc nodes w = ensure_from svc nodes w (
        unfold find_or_create in
        Keeps-if_not_found (ops.get_by_k8s_service_uid svc) _ (kept.by_uid svc)
          (Keeps-if_not_found (ops.get_by_name (get_load_balancer_name ops libs cfg svc)) _
            (kept.by_name _) (created _ svc))
          w)
