-- ===== src/LoadBalancers/Deletion.antt =====
-- hcloud/load_balancers.go: `EnsureLoadBalancerDeleted` leaves no load balancer but a protected one.
use mathlib.Core.Path.{subst}
use hcloud_cloud_controller.Common.{
  true, false, Option, none, some, ◌≡◌, ◌⊎◌, inl, inr, refl, Result, ok, err, ◌>>=◌, pure,
  Bool-cases, Returns, Returns-weaken,
}
use hcloud_cloud_controller.Kube.{Service, LoadBalancer}
use hcloud_cloud_controller.Config.{LoadBalancerConfiguration}
use hcloud_cloud_controller.Hcops.{Error, is_not_found, LoadBalancerOps}
use hcloud_cloud_controller.LoadBalancers.{
  Libraries, recover, ◌if_not_found◌, present, delete_found, ensure_load_balancer_deleted,
}

-- What an answer of the search, and of the deletion, says of the service's load balancer at the API.
abbrev pub Answers :
    {W E : Type 0} → (W → Option LoadBalancer) → Result (Error E) LoadBalancer × W → Type 0
Answers view (ok lb, w) = view w ≡ some lb
Answers view (err e, w) = is_not_found e ≡ true → view w ≡ none

abbrev pub Removes :
    {W E : Type 0} → (W → Option LoadBalancer) → Result (Error E) (Unit {0}) × W → Type 0
Removes view (ok u, w) = view w ≡ none
Removes view (err e, w) = is_not_found e ≡ true → view w ≡ none

-- `view` is the load balancer at the API that has the UID of the service.
pub record DeletionLaws {W E : Type 0} (ops : LoadBalancerOps W E) (svc : Service)
    (view : W → Option LoadBalancer) : Type 0 where
  pub searched : (w : W) → Answers view (ops.get_by_k8s_service_uid svc w)
  pub deleted : (lb : LoadBalancer) (w : W) → view w ≡ some lb → Removes view (ops.delete lb w)

abbrev pub NotProtected : Option LoadBalancer → Type 0
NotProtected none = Unit
NotProtected (some lb) = lb.protected_from_delete ≡ false

-- From the state that the search left: nothing was done, since the load balancer is protected; or there
-- is none any more, and none that is protected was there.
abbrev pub Deleted : {W : Type 0} → (W → Option LoadBalancer) → W → W → Type 0
Deleted view v w =
    ((lb : LoadBalancer) × (view v ≡ some lb) × (lb.protected_from_delete ≡ true) × (w ≡ v))
    ⊎ ((view w ≡ none) × NotProtected (view v))

module _ {W E : Type 0} (ops : LoadBalancerOps W E) (libs : Libraries)
    (cfg : LoadBalancerConfiguration) (view : W → Option LoadBalancer) where
  recover-Removes :
      (x : Result (Error E) (Unit {0}) × W)
      → Removes view x
      → Returns (λ _ w. view w ≡ none) (recover ops libs cfg x.0 (pure tt) x.1)
  unfolding recover
  recover-Removes (ok u, w) h = h
  recover-Removes (err e, w) h = elim (Bool-cases (is_not_found e)) [
    | inl missing ↦ rw (missing, Returns) (h missing)
    | inr other ↦ rw (other, Returns) tt
  ]

  module _ (svc : Service) (laws : DeletionLaws ops svc view) where
    delete_found-Deleted :
        (lb : LoadBalancer) (w : W)
        → view w ≡ some lb
        → Returns (λ _ v. Deleted view w v) (delete_found ops libs cfg (some lb) w)
    unfolding delete_found ◌if_not_found◌
    delete_found-Deleted lb w h = elim (Bool-cases lb.protected_from_delete) [
      | inl on ↦ simp on (inl (lb, h, on, refl))
      | inr off ↦ simp off (
          Returns-weaken (λ _ v. view v ≡ none) (λ _ v. Deleted view w v)
            (◌if_not_found◌ ops libs cfg (ops.delete lb) (pure tt) w)
            (recover-Removes (ops.delete lb w) (laws.deleted lb w h))
            (λ _ v gone. inr (gone, rw (h, NotProtected) off)))
    ]

    search-Deleted :
        (x : Result (Error E) LoadBalancer × W)
        → Answers view x
        → Returns
            (λ _ v. Deleted view x.1 v)
            ((◌if_not_found◌ ops libs cfg (present ops libs cfg (λ _. x)) (pure none)
                >>= delete_found ops libs cfg)
              x.1)
    unfolding present ◌if_not_found◌ recover
    search-Deleted (ok lb, w) h = delete_found-Deleted lb w h
    search-Deleted (err e, w) h = elim (Bool-cases (is_not_found e)) [
      | inl missing ↦
          rw (missing, Returns) (unfold delete_found in inr (h missing, rw (h missing) tt))
      | inr other ↦ rw (other, Returns) tt
    ]

    -- If `EnsureLoadBalancerDeleted` succeeds, then either its search found a protected load balancer
    -- and it made no other call, or the service has no load balancer at the API any more and the one
    -- that the search found, if any, was not protected; given that the answers of the search and of
    -- the deletion tell the truth.
    pub ensure_load_balancer_deleted_removes :
        (w w' : W)
        → ensure_load_balancer_deleted ops libs cfg svc w ≡ (ok tt, w')
        → Deleted view (ops.get_by_k8s_service_uid svc w).1 w'
    unfolding ensure_load_balancer_deleted
    ensure_load_balancer_deleted_removes w w' e =
        subst
          (λ (x : Result (Error E) (Unit {0}) × W).
            Returns (λ _ v. Deleted view (ops.get_by_k8s_service_uid svc w).1 v) x)
          e (search-Deleted (ops.get_by_k8s_service_uid svc w) (laws.searched w))
