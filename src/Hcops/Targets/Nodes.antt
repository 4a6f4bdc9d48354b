-- ===== src/Hcops/Targets/Nodes.antt =====
-- internal/hcops/load_balancer.go: `ReconcileHCLBTargets` as a whole leaves no target of a server
-- that is not a node.
use mathlib.Core.Path.{subst}
use hcloud_cloud_controller.Common.{
  ℤ, Bool, true, false, Option, some, List, [], ◌∷◌, ◌≡◌, ◌⊎◌, inl, inr, refl, sym, ◌∙◌, fun_ext,
  ap, Eq-int, Result, Result-cases, ok, err, Exec, ◌>>=◌, pure, continue, mem, mem-include,
  continue_elim,
}
use hcloud_cloud_controller.Kube.{Node, Service, LoadBalancer}
use hcloud_cloud_controller.ProviderId.{
  to_server_id, unknown_prefix, missing_server_id, unparsable_server_id,
}
use hcloud_cloud_controller.Annotation.{AnnotationError}
use hcloud_cloud_controller.Hcops.{Error}
use hcloud_cloud_controller.Hcops.Targets.{
  Client, Settings, Event, K8sNodes, RobotIps, Progress, add_node, collect_nodes, robot_ips,
  annotated, require_network, get_private_ip_enabled, reconcile_hclb_targets, synchronize, emit,
}
use hcloud_cloud_controller.Hcops.Targets.Removal.{HasTarget, ViewLaws, CleanAfter}
use hcloud_cloud_controller.Hcops.Targets.Steps.{
  obs-annotated, obs-require_network, obs-collect_nodes, obs-robot_ips,
}
use hcloud_cloud_controller.Hcops.Targets.Stale.{synchronize_tidy}

-- One of the nodes has the provider ID of the cloud server.
abbrev pub IsCloudNode : ℤ → List Node → Type 0
IsCloudNode id [] = ⊥
IsCloudNode id (n ∷ ns) = (to_server_id n.provider_id ≡ ok (id, true)) ⊎ IsCloudNode id ns

module _ {W E Act Ip : Type 0} (client : Client W E Act Ip) (cfg : Settings) where
  -- The IDs are known before the nodes, or are of one of them.
  abbrev Known : ℤ → K8sNodes → List Node → Type 0
  Known id k nodes = (mem id k.hcloud_ids ≡ true) ⊎ IsCloudNode id nodes

  Known-add_node :
      (id j : ℤ) (cloud : Bool) (n : Node) (ns : List Node) (k : K8sNodes)
      → to_server_id n.provider_id ≡ ok (j, cloud)
      → Known id (add_node j cloud n k) ns
      → Known id k (n ∷ ns)
  unfolding add_node
  Known-add_node id j true n ns k e (inl m) = elim (mem-include id j k.hcloud_ids m) [
    | inl same ↦ inr (inl (rw (sym same) e))
    | inr before ↦ inl before
  ]
  Known-add_node id j false n ns k e (inl m) = inl m
  Known-add_node id j true n ns k e (inr later) = inr (inr later)
  Known-add_node id j false n ns k e (inr later) = inr (inr later)

  Known-later :
      (id : ℤ) (n : Node) (ns : List Node) (k : K8sNodes) → Known id k ns → Known id k (n ∷ ns)
  Known-later id n ns k (inl m) = inl m
  Known-later id n ns k (inr later) = inr (inr later)

  collect_nodes-Known :
      (nodes : List Node) (k k' : K8sNodes) (w : W) (id : ℤ)
      → (collect_nodes client cfg nodes k w).0 ≡ ok k'
      → mem id k'.hcloud_ids ≡ true
      → Known id k nodes
  unfolding collect_nodes emit
  collect_nodes-Known [] k k' w id e m = inl (let e' : k ≡ k' = cc in rw e' m)
  collect_nodes-Known (n ∷ ns) k k' w id e m = elim (Result-cases (to_server_id n.provider_id)) [
    | inl ((j, cloud), p) ↦
        Known-add_node id j cloud n ns k p
          (collect_nodes-Known ns (add_node j cloud n k) k' w id (rw (p, collect_nodes) at e) m)
    | inr (unknown_prefix q, p) ↦
        Known-later id n ns k (collect_nodes-Known ns k k' _ id (rw (p, collect_nodes) at e) m)
    | inr (missing_server_id q, p) ↦ absurd (let e' = rw (p, collect_nodes) at e in cc)
    | inr (unparsable_server_id q, p) ↦ absurd (let e' = rw (p, collect_nodes) at e in cc)
  ]

  annotated-ok :
      {A : Type 0} (r : Result AnnotationError A) (a : A) (w : W)
      → (annotated client cfg r w).0 ≡ ok a
      → r ≡ ok a
  unfolding annotated
  annotated-ok (ok b) a w e = cc
  annotated-ok (err c) a w e = absurd cc

module _ {W E Act Ip : Type 0} (client : Client W E Act Ip) (cfg : Settings)
    (view : W → ℤ → Option Bool) (laws : ViewLaws view client) (lb : LoadBalancer) (svc : Service)
    (nodes : List Node) where
  abbrev OnlyNodes : {A : Type 0} → Result (Error E) A × W → Type 0
  OnlyNodes (ok _, w) =
      (id : ℤ) (b : Bool)
      → view w id ≡ some b
      → IsCloudNode id nodes × (get_private_ip_enabled cfg svc ≡ ok b)
  OnlyNodes (err _, w) = Unit

  -- A step that leaves the targets as they are, before one that ends with targets of nodes only.
  OnlyNodes-bind :
      {A C : Type 0} (m : Exec W (Error E) A) (f : A → Exec W (Error E) C) (w v : W)
      → view (m v).1 ≡ view v
      → view v ≡ view w
      → ((a : A) (w' : W) → (m v).0 ≡ ok a → view w' ≡ view w → OnlyNodes (f a w'))
      → OnlyNodes ((m >>= f) v)
  OnlyNodes-bind m f w v same before k =
      continue_elim (λ x. OnlyNodes x) (m v).0 f (m v).1 (λ a e. k a (m v).1 e (same ∙ before))
        (λ _ _. tt)

  after_loops :
      (private : Bool) (k : K8sNodes) (r : RobotIps) (x : Result (Error E) Progress × W)
      → get_private_ip_enabled cfg svc ≡ ok private
      → ((id : ℤ) → mem id k.hcloud_ids ≡ true → IsCloudNode id nodes)
      → CleanAfter client cfg view laws lb private k r [] x
      → OnlyNodes (continue x.0 (λ p. pure {E = Error E} p.changed) x.1)
  after_loops private k r (err c, w) e known h = tt
  after_loops private k r (ok p, w) e known h = λ id b v. elim (h id b v) [
    | inl (m, same) ↦ (known id m, rw same e)
    | inr nothing ↦ absurd nothing
  ]

  no_nodes : K8sNodes
  no_nodes = record { hcloud_ids = []; robot_ids = []; nodes = [] }

  event_same : (ev : Event) (w : W) → view (client.event ev w) ≡ view w
  event_same ev w = fun_ext (λ j. laws.event ev w j)

  list_same : (w : W) → view (client.robot_server_list w).1 ≡ view w
  list_same w = fun_ext (λ j. laws.robot_server_list w j)

  reconcile-OnlyNodes :
      (w : W)
      → ((i : ℤ) (c : Bool) → view w i ≡ some c → HasTarget i c lb.targets)
      → OnlyNodes (reconcile_hclb_targets client cfg lb svc nodes w)
  unfolding reconcile_hclb_targets no_nodes
  reconcile-OnlyNodes w listed =
      OnlyNodes-bind (annotated client cfg (get_private_ip_enabled cfg svc)) _ w w
        (obs-annotated client cfg view event_same list_same (get_private_ip_enabled cfg svc) w) refl
        (λ private w₁ e₁ s₁.
          OnlyNodes-bind (require_network client cfg private) _ w w₁
            (obs-require_network client cfg view event_same list_same private w₁) s₁
            (λ _ w₂ e₂ s₂.
              OnlyNodes-bind (collect_nodes client cfg nodes no_nodes) _ w w₂
                (obs-collect_nodes client cfg view event_same list_same nodes no_nodes w₂) s₂
                (λ k w₃ e₃ s₃.
                  OnlyNodes-bind (robot_ips client cfg private k) _ w w₃
                    (obs-robot_ips client cfg view event_same list_same private k w₃) s₃
                    (λ r w₄ e₄ s₄.
                      after_loops private k r (synchronize client cfg lb private k r w₄)
                        (annotated-ok client cfg (get_private_ip_enabled cfg svc) private w e₁)
                        (λ id m. elim (collect_nodes-Known client cfg nodes no_nodes k w₂ id e₃ m) [
                          | inl before ↦ absurd (unfold mem in cc)
                          | inr node ↦ node
                        ])
                        (synchronize_tidy client cfg view laws lb private k r w₄ (λ i c found.
                          inr
                            (listed i c (ap (λ (u : ℤ → Option Bool). u i) (sym s₄) ∙ found))))))))

  -- If `ReconcileHCLBTargets` succeeds, each server target that the API has then is one of a cloud
  -- server that a node names by its provider ID, and is reached over the private network exactly as
  -- the service's annotation or the configuration says; given that the calls change the API's
  -- targets as documented and that the load balancer's list had all server targets of the API at
  -- the start.
  pub reconcile_hclb_targets_nodes :
      (w : W) (changed : Bool) (w' : W) (id : ℤ) (b : Bool)
      → ((i : ℤ) (c : Bool) → view w i ≡ some c → HasTarget i c lb.targets)
      → reconcile_hclb_targets client cfg lb svc nodes w ≡ (ok changed, w')
      → view w' id ≡ some b
      → IsCloudNode id nodes × (get_private_ip_enabled cfg svc ≡ ok b)
  reconcile_hclb_targets_nodes w changed w' id b listed e v =
      subst (λ (x : Result (Error E) Bool × W). OnlyNodes x) e (reconcile-OnlyNodes w listed) id b v
