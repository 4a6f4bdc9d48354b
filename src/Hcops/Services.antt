-- ===== src/Hcops/Services.antt =====
-- internal/hcops/load_balancer.go: `ReconcileHCLBServices`. `b.listenPort`, by which a service is
-- updated, is the port's number.
pub mod Data
pub mod Builder
pub mod Options
pub mod Kept
pub mod Ports
pub mod Steps
pub mod Sound
pub mod Valid
pub mod Wanted
pub mod Calls
pub mod Forwarding
pub mod Success
use hcloud_cloud_controller.Common.{
  ℕ, String, Bool, true, false, ◌||◌, Option, List, [], ◌∷◌, if◌then◌else◌, not, nat_eq, Exec,
  ◌>>=◌, ◌>>◌, pure, Duration, ◌==◌, Eq-string, Eq-nat, mem, include,
}
use hcloud_cloud_controller.Kube.{Service, ServicePort, LoadBalancer}
use hcloud_cloud_controller.Config.{LoadBalancerConfiguration}
use hcloud_cloud_controller.Hcops.{Error}
use hcloud_cloud_controller.Hcops.Certificates.{CertClient, api_call, reconcile_managed_certificate}
use hcloud_cloud_controller.Hcops.Services.Data.{ServiceClient}
use hcloud_cloud_controller.Hcops.Services.Options.{
  build_add_service_opts, build_update_service_opts,
}

-- Kubernetes' empty protocol is TCP.
unfoldable pub is_tcp : ServicePort → Bool
is_tcp port = port.protocol == "" || port.protocol == "TCP"

-- `delete(m, k)`
unfoldable pub exclude : ℕ → List ℕ → List ℕ
exclude p [] = []
exclude p (q ∷ s) = let rest = exclude p s in if nat_eq q p then rest else q ∷ rest

-- The keys of the map that is made from the load balancer's services.
unfoldable pub port_set : List ℕ → List ℕ → List ℕ
unfolding include
port_set [] s = s
port_set (p ∷ ps) s = port_set ps (include p s)

module _ {W E Act : Type 0} (to_lower : String → String) (parse_duration : String → Option Duration)
    (cfg : LoadBalancerConfiguration) (certs : CertClient W E Act) (client : ServiceClient W E Act)
    (lb : LoadBalancer) (svc : Service) where
  unfoldable pub update_port : ServicePort → Exec W (Error E) Act
  unfolding build_update_service_opts api_call
  update_port port = do
    opts ← build_update_service_opts to_lower parse_duration cfg certs svc port
    api_call (client.update_service lb.id port.port opts)

  unfoldable pub add_port : ServicePort → Exec W (Error E) Act
  unfolding build_add_service_opts api_call
  add_port port = do
    opts ← build_add_service_opts to_lower parse_duration cfg certs svc port
    api_call (client.add_service lb.id opts)

  unfoldable pub sync_port : ServicePort → Bool → Exec W (Error E) (Unit {0})
  unfolding update_port add_port api_call
  sync_port port exists = do
    action ← (if exists then update_port port else add_port port)
    api_call (client.wait_for action)

  unfoldable pub skip : Exec W (Error E) (Unit {0})
  skip w = pure tt (client.unsupported_protocol svc.name w)

  -- The loop over the service's ports: the listen ports that are left over, and whether a service
  -- was changed.
  unfoldable pub sync_ports : List ServicePort → List ℕ → Bool → Exec W (Error E) (List ℕ × Bool)
  unfolding is_tcp skip mem exclude sync_port
  sync_ports [] left changed = pure (left, changed)
  sync_ports (port ∷ ports) left changed =
      if is_tcp port
      then (sync_port port (mem port.port left) >> sync_ports ports (exclude port.port left) true)
      else (skip >> sync_ports ports left changed)

  unfoldable pub delete_ports : List ℕ → Bool → Exec W (Error E) Bool
  unfolding api_call
  delete_ports [] changed = pure changed
  delete_ports (p ∷ ps) changed = do
    action ← api_call (client.delete_service lb.id p)
    api_call (client.wait_for action)
    delete_ports ps true

  unfoldable pub reconcile_hclb_services : Exec W (Error E) Bool
  unfolding reconcile_managed_certificate port_set sync_ports delete_ports
  reconcile_hclb_services = do
    reconcile_managed_certificate certs svc
    synced ← sync_ports svc.ports (port_set lb.listen_ports []) false
    delete_ports (client.range synced.0) synced.1
