-- ===== src/Hcops/Services/Success.antt =====
-- internal/hcops/load_balancer.go: when `ReconcileHCLBServices` succeeds.
use hcloud_cloud_controller.Common.{
  ℕ, ℤ, String, Bool, true, false, Option, none, List, [], ◌∷◌, ◌≡◌, Duration, if◌then◌else◌, ok,
  Exec, pure, IsOk, IsOk-bind, IsOk-result, mem, Eq-nat, Bool-cases, inl, inr,
}
use hcloud_cloud_controller.Kube.{Service, ServicePort, LoadBalancer}
use hcloud_cloud_controller.Config.{LoadBalancerConfiguration}
use hcloud_cloud_controller.Hcops.Certificates.{CertClient, api_call, reconcile_managed_certificate}
use hcloud_cloud_controller.Hcops.Services.{
  is_tcp, exclude, port_set, add_port, update_port, sync_port, skip, sync_ports, delete_ports,
  reconcile_hclb_services,
}
use hcloud_cloud_controller.Hcops.Services.Data.{ServiceClient, AddServiceOpts, UpdateServiceOpts}
use hcloud_cloud_controller.Hcops.Services.Builder.{extract}
use hcloud_cloud_controller.Hcops.Services.Options.{
  add_opts, update_opts, build_add_service_opts, build_update_service_opts,
}
use hcloud_cloud_controller.Hcops.Services.Wanted.{forwarded}
use hcloud_cloud_controller.Hcops.Services.Forwarding.{reconcile_hclb_services_forwards}
use hcloud_cloud_controller.Hcops.Services.Calls.{ServiceLaws}

-- Every call for the services of the load balancer succeeds.
pub record Accepts {W E Act : Type 0} (id : ℤ) (client : ServiceClient W E Act) : Type 0 where
  pub add_service : (o : AddServiceOpts) (w : W) → IsOk (client.add_service id o w)
  pub update_service :
      (q : ℕ) (o : UpdateServiceOpts) (w : W) → IsOk (client.update_service id q o w)
  pub delete_service : (q : ℕ) (w : W) → IsOk (client.delete_service id q w)
  pub wait_for : (a : Act) (w : W) → IsOk (client.wait_for a w)

IsOk-api_call : {W E A : Type 0} (m : Exec W E A) (w : W) → IsOk (m w) → IsOk (api_call m w)
unfolding api_call
IsOk-api_call m w h = let (a, v, e) = IsOk-result (m w) h in rw e tt

module _ {W E Act : Type 0} (to_lower : String → String) (parse_duration : String → Option Duration)
    (cfg : LoadBalancerConfiguration) (certs : CertClient W E Act) (client : ServiceClient W E Act)
    (lb : LoadBalancer) (svc : Service) (accepts : Accepts lb.id client)
    (builds : (port : ServicePort) (w : W)
      → IsOk (extract to_lower parse_duration cfg svc certs port w)) where
  IsOk-update_port :
      (port : ServicePort) (w : W)
      → IsOk (update_port to_lower parse_duration cfg certs client lb svc port w)
  unfolding update_port build_update_service_opts
  IsOk-update_port port w =
      IsOk-bind (build_update_service_opts to_lower parse_duration cfg certs svc port) _ w
        (IsOk-bind (extract to_lower parse_duration cfg svc certs port) (λ b. pure (update_opts b))
          w (builds port w) (λ _ _. tt))
        (λ o v.
          IsOk-api_call (client.update_service lb.id port.port o) v
            (accepts.update_service port.port o v))

  IsOk-add_port :
      (port : ServicePort) (w : W)
      → IsOk (add_port to_lower parse_duration cfg certs client lb svc port w)
  unfolding add_port build_add_service_opts
  IsOk-add_port port w =
      IsOk-bind (build_add_service_opts to_lower parse_duration cfg certs svc port) _ w
        (IsOk-bind (extract to_lower parse_duration cfg svc certs port) (λ b. pure (add_opts b)) w
          (builds port w) (λ _ _. tt))
        (λ o v. IsOk-api_call (client.add_service lb.id o) v (accepts.add_service o v))

  IsOk-either :
      (exists : Bool) (port : ServicePort) (w : W)
      → IsOk (
          (if exists
              then update_port to_lower parse_duration cfg certs client lb svc port
              else add_port to_lower parse_duration cfg certs client lb svc port)
            w)
  IsOk-either true = IsOk-update_port
  IsOk-either false = IsOk-add_port

  IsOk-sync_port :
      (port : ServicePort) (exists : Bool) (w : W)
      → IsOk (sync_port to_lower parse_duration cfg certs client lb svc port exists w)
  unfolding sync_port
  IsOk-sync_port port exists w =
      IsOk-bind
        (if exists
          then update_port to_lower parse_duration cfg certs client lb svc port
          else add_port to_lower parse_duration cfg certs client lb svc port)
        (λ a. api_call (client.wait_for a)) w (IsOk-either exists port w)
        (λ a v. IsOk-api_call (client.wait_for a) v (accepts.wait_for a v))

  IsOk-sync_ports :
      (ports : List ServicePort) (left : List ℕ) (changed : Bool) (w : W)
      → IsOk (sync_ports to_lower parse_duration cfg certs client lb svc ports left changed w)
  unfolding sync_ports skip
  IsOk-sync_ports [] left changed w = tt
  IsOk-sync_ports (port ∷ ports) left changed w = elim (Bool-cases (is_tcp port)) [
    | inl tcp ↦ rw tcp (
        IsOk-bind
          (sync_port to_lower parse_duration cfg certs client lb svc port (mem port.port left))
          (λ _.
            sync_ports to_lower parse_duration cfg certs client lb svc ports
              (exclude port.port left) true)
          w (IsOk-sync_port port (mem port.port left) w)
          (λ _ v. IsOk-sync_ports ports (exclude port.port left) true v))
    | inr other ↦ rw other (IsOk-sync_ports ports left changed _)
  ]

  IsOk-delete_ports :
      (ps : List ℕ) (changed : Bool) (w : W)
      → IsOk (delete_ports to_lower parse_duration cfg certs client lb svc ps changed w)
  unfolding delete_ports
  IsOk-delete_ports [] changed w = tt
  IsOk-delete_ports (p ∷ ps) changed w =
      IsOk-bind (api_call (client.delete_service lb.id p)) _ w
        (IsOk-api_call (client.delete_service lb.id p) w (accepts.delete_service p w))
        (λ a v.
          IsOk-bind (api_call (client.wait_for a)) _ v
            (IsOk-api_call (client.wait_for a) v (accepts.wait_for a v))
            (λ _ u. IsOk-delete_ports ps true u))

  IsOk-reconcile :
      (w : W)
      → IsOk (reconcile_managed_certificate certs svc w)
      → IsOk (reconcile_hclb_services to_lower parse_duration cfg certs client lb svc w)
  unfolding reconcile_hclb_services
  IsOk-reconcile w h =
      let start = port_set lb.listen_ports [] in
      IsOk-bind (reconcile_managed_certificate certs svc) _ w h (λ _ v.
        IsOk-bind (sync_ports to_lower parse_duration cfg certs client lb svc svc.ports start false)
          _ v (IsOk-sync_ports svc.ports start false v)
          (λ out u. IsOk-delete_ports (client.range out.0) out.1 u))

  -- If the API accepts every call for the services, the annotations can be read, and the managed
  -- certificate is there or can be made, then `ReconcileHCLBServices` succeeds, and the load
  -- balancer then forwards exactly the TCP ports of the service; given also that the API changes
  -- its services as the calls ask, and that the load balancer's list had all listen ports of the
  -- API at the start.
  pub reconcile_hclb_services_succeeds :
      (view : W → ℕ → Option ℕ) (laws : ServiceLaws lb.id view certs client) (w : W)
      → IsOk (reconcile_managed_certificate certs svc w)
      → ((p : ℕ) → mem p lb.listen_ports ≡ false → view w p ≡ none)
      → (changed : Bool) × (w' : W) × (reconcile_hclb_services to_lower parse_duration cfg certs
            client lb svc w
          ≡ (ok changed, w'))
        × ((p : ℕ) → view w' p ≡ forwarded svc.ports p)
  reconcile_hclb_services_succeeds view laws w h listed =
      let (changed, w', e) =
        IsOk-result (reconcile_hclb_services to_lower parse_duration cfg certs client lb svc w)
          (IsOk-reconcile w h) in
      (
        changed,
        w',
        e,
        λ p.
            reconcile_hclb_services_forwards to_lower parse_duration cfg certs client lb svc view
              laws p w changed w' (listed p) e,
      )
