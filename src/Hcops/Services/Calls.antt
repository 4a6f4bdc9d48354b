-- ===== src/Hcops/Services/Calls.antt =====
-- internal/hcops/load_balancer.go: what the calls of `ReconcileHCLBServices` do to the
-- ports that the load balancer forwards.
use hcloud_cloud_controller.Common.{
  ℕ, ℤ, String, Bool, true, false, Option, none, some, List, ◌≡◌, refl, ◌∙◌, Duration,
  if◌then◌else◌, nat_eq, ok, Exec, pure, Returns, Returns-bind, Returns-pair, mem, Eq-nat,
  Result-cases, inl, inr,
}
use hcloud_cloud_controller.Kube.{Service, ServicePort, LoadBalancer}
use hcloud_cloud_controller.Config.{LoadBalancerConfiguration}
use hcloud_cloud_controller.Hcops.Certificates.{CertClient, api_call}
use hcloud_cloud_controller.Hcops.Services.{add_port, update_port, sync_port}
use hcloud_cloud_controller.Hcops.Services.Data.{ServiceClient, AddServiceOpts, UpdateServiceOpts}
use hcloud_cloud_controller.Hcops.Services.Builder.{extract}
use hcloud_cloud_controller.Hcops.Services.Options.{
  add_opts, update_opts, build_add_service_opts, build_update_service_opts,
}
use hcloud_cloud_controller.Hcops.Services.Ports.{Checked}
use hcloud_cloud_controller.Hcops.Services.Sound.{extract-Checked}
use hcloud_cloud_controller.Hcops.Services.Kept.{CertKeeps, Keeps-extract}

-- `view w p` is the destination port of the service that the load balancer has for listen port `p`.
-- An accepted call adds, changes or deletes the service of its port, and no other call changes one;
-- a map's `range` visits its keys.
pub record ServiceLaws {W E Act : Type 0} (id : ℤ) (view : W → ℕ → Option ℕ)
    (certs : CertClient W E Act) (client : ServiceClient W E Act) : Type 0 where
  pub certificates : (p : ℕ) (d : Option ℕ) → CertKeeps (λ w. view w p ≡ d) certs
  pub add_service :
      (o : AddServiceOpts) (w : W) (a : Act) (p : ℕ)
      → (client.add_service id o w).0 ≡ ok a
      → view (client.add_service id o w).1 p
        ≡ (if nat_eq o.listen_port p then some o.destination_port else view w p)
  pub update_service :
      (q : ℕ) (o : UpdateServiceOpts) (w : W) (a : Act) (p : ℕ)
      → (client.update_service id q o w).0 ≡ ok a
      → view (client.update_service id q o w).1 p
        ≡ (if nat_eq q p then some o.destination_port else view w p)
  pub delete_service :
      (q : ℕ) (w : W) (a : Act) (p : ℕ)
      → (client.delete_service id q w).0 ≡ ok a
      → view (client.delete_service id q w).1 p ≡ (if nat_eq q p then none else view w p)
  pub wait_for : (a : Act) (w : W) → view (client.wait_for a w).1 ≡ view w
  pub unsupported_protocol : (n : String) (w : W) → view (client.unsupported_protocol n w) ≡ view w
  pub range : (s : List ℕ) (p : ℕ) → mem p (client.range s) ≡ mem p s

module _ {W E Act : Type 0} (to_lower : String → String) (parse_duration : String → Option Duration)
    (cfg : LoadBalancerConfiguration) (certs : CertClient W E Act) (client : ServiceClient W E Act)
    (lb : LoadBalancer) (svc : Service) (view : W → ℕ → Option ℕ)
    (laws : ServiceLaws lb.id view certs client) (p : ℕ) where
  -- What a call returns keeps the view up to `f`.
  pub Returns-api_call :
      {A : Type 0} (m : Exec W E A) (w : W) (d : Option ℕ)
      → ((a : A) → (m w).0 ≡ ok a → view (m w).1 p ≡ d)
      → Returns (λ _ v. view v p ≡ d) (api_call m w)
  unfolding api_call
  Returns-api_call m w d h = elim (Result-cases (m w).0) [
    | inl (a, e) ↦ rw e (h a e)
    | inr (c, e) ↦ rw e tt
  ]

  pub wait-view :
      (a : Act) (w : W) (d : Option ℕ)
      → view w p ≡ d
      → Returns (λ _ v. view v p ≡ d) (api_call (client.wait_for a) w)
  wait-view a w d h = Returns-api_call (client.wait_for a) w d (λ _ _. rw (laws.wait_for a w) h)

  -- The port's destination after it was added or updated.
  abbrev pub forward : ServicePort → Option ℕ → Option ℕ
  forward port d = if nat_eq port.port p then some port.node_port else d

  extracted :
      (port : ServicePort) (w : W) (d : Option ℕ)
      → view w p ≡ d
      → Returns
          (λ b v. Checked port b × (view v p ≡ d))
          (extract to_lower parse_duration cfg svc certs port w)
  extracted port w d h =
      Returns-pair (Checked port) (λ v. view v p ≡ d)
        (extract to_lower parse_duration cfg svc certs port w)
        (extract-Checked E to_lower parse_duration cfg svc port certs w)
        (Keeps-extract (λ v. view v p ≡ d) certs (laws.certificates p d) to_lower parse_duration cfg
          svc port w h)

  add_port-view :
      (port : ServicePort) (w : W) (d : Option ℕ)
      → view w p ≡ d
      → Returns
          (λ _ v. view v p ≡ forward port d)
          (add_port to_lower parse_duration cfg certs client lb svc port w)
  unfolding add_port build_add_service_opts add_opts
  add_port-view port w d h =
      Returns-bind
        (λ (o : AddServiceOpts) v.
          (o.listen_port ≡ port.port) × (o.destination_port ≡ port.node_port) × (view v p ≡ d))
        (λ _ v. view v p ≡ forward port d)
        (build_add_service_opts to_lower parse_duration cfg certs svc port)
        (λ o. api_call (client.add_service lb.id o)) w
        (Returns-bind (λ b v. Checked port b × (view v p ≡ d)) _
          (extract to_lower parse_duration cfg svc certs port) (λ b. pure (add_opts b)) w
          (extracted port w d h) (λ b v (((l, n, _), _), k). (l, n, k)))
        (λ o v (l, n, k).
          Returns-api_call (client.add_service lb.id o) v (forward port d)
            (λ a e. laws.add_service o v a p e ∙ rw (l, n, k) refl))

  update_port-view :
      (port : ServicePort) (w : W) (d : Option ℕ)
      → view w p ≡ d
      → Returns
          (λ _ v. view v p ≡ forward port d)
          (update_port to_lower parse_duration cfg certs client lb svc port w)
  unfolding update_port build_update_service_opts update_opts
  update_port-view port w d h =
      Returns-bind
        (λ (o : UpdateServiceOpts) v. (o.destination_port ≡ port.node_port) × (view v p ≡ d))
        (λ _ v. view v p ≡ forward port d)
        (build_update_service_opts to_lower parse_duration cfg certs svc port)
        (λ o. api_call (client.update_service lb.id port.port o)) w
        (Returns-bind (λ b v. Checked port b × (view v p ≡ d)) _
          (extract to_lower parse_duration cfg svc certs port) (λ b. pure (update_opts b)) w
          (extracted port w d h) (λ b v (((_, n, _), _), k). (n, k)))
        (λ o v (n, k).
          Returns-api_call (client.update_service lb.id port.port o) v (forward port d)
            (λ a e. laws.update_service port.port o v a p e ∙ rw (n, k) refl))

  either_port-view :
      (exists : Bool) (port : ServicePort) (w : W) (d : Option ℕ)
      → view w p ≡ d
      → Returns
          (λ _ v. view v p ≡ forward port d)
          ((if exists
              then update_port to_lower parse_duration cfg certs client lb svc port
              else add_port to_lower parse_duration cfg certs client lb svc port)
            w)
  either_port-view true = update_port-view
  either_port-view false = add_port-view

  pub sync_port-view :
      (exists : Bool) (port : ServicePort) (w : W) (d : Option ℕ)
      → view w p ≡ d
      → Returns
          (λ _ v. view v p ≡ forward port d)
          (sync_port to_lower parse_duration cfg certs client lb svc port exists w)
  unfolding sync_port
  sync_port-view exists port w d h =
      Returns-bind (λ _ v. view v p ≡ forward port d) (λ _ v. view v p ≡ forward port d)
        (if exists
          then update_port to_lower parse_duration cfg certs client lb svc port
          else add_port to_lower parse_duration cfg certs client lb svc port)
        (λ a. api_call (client.wait_for a)) w (either_port-view exists port w d h)
        (λ a v k. wait-view a v (forward port d) k)
