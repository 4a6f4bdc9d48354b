-- ===== src/LoadBalancers.antt =====
-- hcloud/load_balancers.go: the cloud provider's interface for load balancers. Metrics and klog
-- output are left out; the parsing of label selectors and the default name are parameters.
pub mod Safety
pub mod Status
pub mod Deletion
use hcloud_cloud_controller.Common.{
  String, Bool, false, not, ◌||◌, Option, none, some, List, [], ◌∷◌, ◌++◌, if◌then◌else◌, Result,
  ok, err, Exec, ◌>>=◌, ◌>>◌, pure, fail,
}
use hcloud_cloud_controller.Kube.{Service, Node, LoadBalancer, PrivateNet}
use hcloud_cloud_controller.Config.{LoadBalancerConfiguration}
use hcloud_cloud_controller.Annotation.{
  AnnotationError, not_set, invalid, string_from_service, bool_from_service,
  lb_disable_private_ingress, lb_ipv6_disabled, lb_svc_proxy_protocol, lb_hostname, lb_name,
  lb_node_selector,
}
use hcloud_cloud_controller.Hcops.{
  Error, bad_selector, annotation_error, is_not_found, LoadBalancerOps,
}

pub data IpMode : Type 0 where
  vip proxy : IpMode

pub data Ingress : Type 0 where
  hostname : String → Ingress
  address : String → IpMode → Ingress

-- What is taken from Kubernetes' libraries: `labels.Parse` with `Matches`, and
-- `DefaultLoadBalancerName`.
pub record Libraries : Type 0 where
  pub parse_selector : String → Option (List (String × String) → Bool)
  pub default_load_balancer_name : Service → String

unfoldable pub select_nodes : (List (String × String) → Bool) → List Node → List Node
select_nodes matches [] = []
select_nodes matches (n ∷ ns) =
    if matches n.labels then n ∷ select_nodes matches ns else select_nodes matches ns

-- The value of an annotation, or of the configuration if it is not set.
unfoldable pub or_default : Result AnnotationError Bool → Bool → Result AnnotationError Bool
or_default (ok b) d = ok b
or_default (err not_set) d = ok d
or_default (err invalid) d = err invalid

unfoldable pub negate : Result AnnotationError Bool → Result AnnotationError Bool
negate (ok b) = ok (not b)
negate (err e) = err e

unfoldable pub get_private_ingress_enabled :
    LoadBalancerConfiguration → Service → Result AnnotationError Bool
unfolding or_default negate
get_private_ingress_enabled cfg svc =
    or_default (negate (bool_from_service lb_disable_private_ingress svc))
      cfg.private_ingress_enabled

unfoldable pub get_ipv6_enabled : LoadBalancerConfiguration → Service → Result AnnotationError Bool
unfolding or_default negate
get_ipv6_enabled cfg svc =
    or_default (negate (bool_from_service lb_ipv6_disabled svc)) cfg.ipv6_enabled

unfoldable pub get_proxy_protocol_enabled :
    LoadBalancerConfiguration → Service → Result AnnotationError Bool
unfolding or_default
get_proxy_protocol_enabled cfg svc =
    or_default (bool_from_service lb_svc_proxy_protocol svc)
      (elim cfg.proxy_protocol_enabled [ none ↦ false | some b ↦ b ])

unfoldable pub private_ingress : IpMode → List PrivateNet → List Ingress
private_ingress mode [] = []
private_ingress mode (n ∷ ns) = address n.ip mode ∷ private_ingress mode ns

abbrev pub Action : Type 0 → Type 0 → Type 0 → Type 0
Action W E A = Exec W (Error E) A

unfoldable pub annotated : {W E A : Type 0} → Result AnnotationError A → Action W E A
annotated (ok a) = pure a
annotated (err e) = fail (annotation_error e)

unfoldable pub ip_mode : Bool → IpMode
ip_mode proxy_protocol_enabled = if proxy_protocol_enabled then proxy else vip

module _ {W E : Type 0} (cfg : LoadBalancerConfiguration) where
  unfoldable pub public_ingress : IpMode → LoadBalancer → Service → Action W E (List Ingress)
  unfolding annotated
  public_ingress mode lb svc =
      if lb.public_net.enabled
      then (do
        ipv6_enabled ← annotated (get_ipv6_enabled cfg svc)
        pure (
            address lb.public_net.ipv4 mode
            ∷ (if ipv6_enabled then address lb.public_net.ipv6 mode ∷ [] else [])))
      else pure []

  unfoldable pub build_load_balancer_status_ingress :
      LoadBalancer → Service → Action W E (List Ingress)
  unfolding ip_mode public_ingress private_ingress annotated
  build_load_balancer_status_ingress lb svc = do
    proxy_protocol_enabled ← annotated (get_proxy_protocol_enabled cfg svc)
    let mode = ip_mode proxy_protocol_enabled
    public ← public_ingress mode lb svc
    private_ingress_enabled ← annotated (get_private_ingress_enabled cfg svc)
    pure (public ++ (if private_ingress_enabled then private_ingress mode lb.private_net else []))

  -- The end of `GetLoadBalancer`; none is the answer that the load balancer does not exist.
  unfoldable pub found_status : Service → Option LoadBalancer → Action W E (Option (List Ingress))
  unfolding build_load_balancer_status_ingress
  found_status svc none = pure none
  found_status svc (some lb) = elim (string_from_service lb_hostname svc) [
    | some v ↦ pure (some (hostname v ∷ []))
    | none ↦ do ingress ← build_load_balancer_status_ingress lb svc; pure (some ingress)
  ]

  -- The end of `EnsureLoadBalancer`.
  unfoldable pub ensured_status : LoadBalancer → Service → Action W E (List Ingress)
  unfolding build_load_balancer_status_ingress
  ensured_status lb svc = elim (string_from_service lb_hostname svc) [
    | some v ↦ pure (hostname v ∷ [])
    | none ↦ build_load_balancer_status_ingress lb svc
  ]

module _ {W E : Type 0} (ops : LoadBalancerOps W E) (libs : Libraries)
    (cfg : LoadBalancerConfiguration) where
  unfoldable pub match_node_selector : Service → List Node → Action W E (List Node)
  unfolding select_nodes
  match_node_selector svc nodes = elim (string_from_service lb_node_selector svc) [
    | none ↦ pure nodes
    | some v ↦ elim (libs.parse_selector v) [
      | none ↦ fail bad_selector
      | some matches ↦ pure (select_nodes matches nodes)
    ]
  ]

  unfoldable pub get_load_balancer_name : Service → String
  get_load_balancer_name svc = elim (string_from_service lb_name svc) [
    | some v ↦ v
    | none ↦ libs.default_load_balancer_name svc
  ]

  -- Runs the second action if the first fails with an error that is `ErrNotFound`.
  unfoldable pub recover : {A : Type 0} → Result (Error E) A → Action W E A → Action W E A
  unfolding is_not_found
  recover (ok a) k = pure a
  recover (err e) k = if is_not_found e then k else fail e

  infixl 6 ◌if_not_found◌
  unfoldable pub ◌if_not_found◌ : {A : Type 0} → Action W E A → Action W E A → Action W E A
  unfolding recover
  ◌if_not_found◌ m k w = let (r, w') = m w in recover r k w'

  unfoldable pub present : Action W E LoadBalancer → Action W E (Option LoadBalancer)
  present m = do lb ← m; pure (some lb)

  unfoldable pub get_load_balancer : Service → Action W E (Option (List Ingress))
  unfolding present found_status ◌if_not_found◌
  get_load_balancer svc = do
    found ← present (ops.get_by_k8s_service_uid svc) if_not_found pure none
    found_status cfg svc found

  unfoldable pub find_or_create : Service → Action W E LoadBalancer
  unfolding ◌if_not_found◌ get_load_balancer_name
  find_or_create svc =
      ops.get_by_k8s_service_uid svc
      if_not_found (ops.get_by_name (get_load_balancer_name svc)
          if_not_found ops.create (get_load_balancer_name svc) svc)

  unfoldable pub reload_if : Bool → LoadBalancer → Action W E LoadBalancer
  reload_if reload lb = if reload then ops.get_by_id lb.id else pure lb

  -- `EnsureLoadBalancer` behind the search for the load balancer.
  unfoldable pub reconcile_found : Service → List Node → LoadBalancer → Action W E (List Ingress)
  unfolding reload_if ensured_status
  reconcile_found svc selected lb = do
    (lb_changed, lb) ← ops.reconcile_hclb lb svc
    lb ← reload_if lb_changed lb
    services_changed ← ops.reconcile_hclb_services lb svc
    targets_changed ← ops.reconcile_hclb_targets lb svc selected
    lb ← reload_if (services_changed || targets_changed) lb
    ensured_status cfg lb svc

  unfoldable pub ensure_load_balancer : Service → List Node → Action W E (List Ingress)
  unfolding match_node_selector find_or_create reconcile_found
  ensure_load_balancer svc nodes = do
    selected ← match_node_selector svc nodes
    lb ← find_or_create svc
    reconcile_found svc selected lb

  unfoldable pub update_found : Service → List Node → Option LoadBalancer → Action W E (Unit {0})
  update_found svc selected none = pure tt
  update_found svc selected (some lb) = do
    (_, lb) ← ops.reconcile_hclb lb svc
    ops.reconcile_hclb_targets lb svc selected
    ops.reconcile_hclb_services lb svc
    pure tt

  unfoldable pub update_load_balancer : Service → List Node → Action W E (Unit {0})
  unfolding match_node_selector present ◌if_not_found◌ update_found get_load_balancer_name
  update_load_balancer svc nodes = do
    selected ← match_node_selector svc nodes
    found ←
        present (ops.get_by_k8s_service_uid svc)
        if_not_found (present (ops.get_by_name (get_load_balancer_name svc)) if_not_found pure none)
    update_found svc selected found

  unfoldable pub delete_found : Option LoadBalancer → Action W E (Unit {0})
  unfolding ◌if_not_found◌
  delete_found none = pure tt
  delete_found (some lb) =
      if lb.protected_from_delete then pure tt else (ops.delete lb if_not_found pure tt)

  unfoldable pub ensure_load_balancer_deleted : Service → Action W E (Unit {0})
  unfolding present ◌if_not_found◌ delete_found
  ensure_load_balancer_deleted svc = do
    found ← present (ops.get_by_k8s_service_uid svc) if_not_found pure none
    delete_found found
