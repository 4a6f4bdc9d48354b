-- ===== src/Hcops.antt =====
-- internal/hcops: the operations on load balancers and certificates. Here stand the errors, and the
-- interface by which hcloud/load_balancers.go uses the operations.
pub mod Targets
pub mod Requests
pub mod Properties
pub mod Certificates
pub mod Services
use hcloud_cloud_controller.Common.{ℤ, String, Bool, true, false, List, Exec}
use hcloud_cloud_controller.Kube.{Service, Node, LoadBalancer}
use hcloud_cloud_controller.Annotation.{AnnotationError}
use hcloud_cloud_controller.ProviderId

-- Wrapping an error with `%w` adds text to it and keeps what `errors.Is` finds, so it is left out.
-- `api` is an error of hcloud-go or of the Robot client.
pub data Error (E : Type 0) : Type 0 where
  not_found non_unique_result already_exists missing_network_id bad_selector : Error E
  no_location_and_zone no_domains : Error E
  type_not_found type_unavailable : String → Error E
  invalid_private_ip invalid_subnet : String → Error E
  network_not_found : ℤ → Error E
  annotation_error : AnnotationError → Error E
  provider_id_error : ProviderId.Error → Error E
  api : E → Error E

unfoldable pub is_not_found : {E : Type 0} → Error E → Bool
is_not_found not_found = true
is_not_found _ = false

-- `LoadBalancerOps`. `ReconcileHCLB` also changes the load balancer that it is given.
pub record LoadBalancerOps (W E : Type 0) : Type 0 where
  pub get_by_name : String → Exec W (Error E) LoadBalancer
  pub get_by_id : ℤ → Exec W (Error E) LoadBalancer
  pub get_by_k8s_service_uid : Service → Exec W (Error E) LoadBalancer
  pub create : String → Service → Exec W (Error E) LoadBalancer
  pub delete : LoadBalancer → Exec W (Error E) (Unit {0})
  pub reconcile_hclb : LoadBalancer → Service → Exec W (Error E) (Bool × LoadBalancer)
  pub reconcile_hclb_targets : LoadBalancer → Service → List Node → Exec W (Error E) Bool
  pub reconcile_hclb_services : LoadBalancer → Service → Exec W (Error E) Bool
