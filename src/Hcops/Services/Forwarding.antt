-- ===== src/Hcops/Services/Forwarding.antt =====
-- internal/hcops/load_balancer.go: `ReconcileHCLBServices` makes the load balancer forward the TCP
-- ports of the service, and nothing else.
use mathlib.Core.Path.{subst}
use hcloud_cloud_controller.Common.{
  ℕ, String, is_some, Bool, true, false, ◌&&◌, not, Option, none, List, [], ◌∷◌, ◌≡◌, refl, sym,
  ◌∙◌, Duration, if◌then◌else◌, nat_eq, Result, ok, ◌>>=◌, Returns, Returns-bind, Returns-weaken,
  Returns-after, mem, Eq-nat, arith, Bool-cases, Option-cases, inl, inr,
}
use hcloud_cloud_controller.Kube.{Service, ServicePort, LoadBalancer}
use hcloud_cloud_controller.Config.{LoadBalancerConfiguration}
use hcloud_cloud_controller.Hcops.{Error}
use hcloud_cloud_controller.Hcops.Certificates.{CertClient, api_call, reconcile_managed_certificate}
use hcloud_cloud_controller.Hcops.Services.{
  is_tcp, exclude, port_set, sync_port, skip, sync_ports, delete_ports, reconcile_hclb_services,
}
use hcloud_cloud_controller.Hcops.Services.Data.{ServiceClient}
use hcloud_cloud_controller.Hcops.Services.Kept.{Keeps-reconcile_managed_certificate}
use hcloud_cloud_controller.Hcops.Services.Wanted.{
  forwarded, first_of, forwarded-tcp, forwarded-other, first_of-first_of, is_some-first_of,
  deleted_twice, mem-exclude, mem-port_set,
}
use hcloud_cloud_controller.Hcops.Services.Calls.{
  ServiceLaws, forward, Returns-api_call, wait-view, sync_port-view,
}

module _ {W E Act : Type 0} (to_lower : String → String) (parse_duration : String → Option Duration)
    (cfg : LoadBalancerConfiguration) (certs : CertClient W E Act) (client : ServiceClient W E Act)
    (lb : LoadBalancer) (svc : Service) (view : W → ℕ → Option ℕ)
    (laws : ServiceLaws lb.id view certs client) (p : ℕ) where
  -- After the loop the port goes where the service wants, or as before; and the port is left over
  -- if it was and the service does not want it.
  abbrev Synced : List ServicePort → Option ℕ → Bool → List ℕ × Bool → W → Type 0
  Synced ports d listed out v =
      (view v p ≡ first_of (forwarded ports p) d)
      × (mem p out.0 ≡ (listed && not (is_some (forwarded ports p))))

  more_ports :
      (port : ServicePort) (ports : List ServicePort) (d : Option ℕ) (left : List ℕ)
      (out : List ℕ × Bool) (v : W)
      → is_tcp port ≡ true
      → Synced ports
          (forward to_lower parse_duration cfg certs client lb svc view laws p port d)
          (mem p (exclude port.port left))
          out
          v
      → Synced (port ∷ ports) d (mem p left) out v
  more_ports port ports d left out v tcp (there, over) = (
    there
        ∙ sym (first_of-first_of (forwarded ports p) d (nat_eq port.port p) port.node_port)
        ∙ rw (forwarded-tcp port ports p tcp) refl,
    over
        ∙ rw (mem-exclude p port.port left, forwarded-tcp port ports p tcp)
            (sym (
              is_some-first_of (forwarded ports p) (nat_eq port.port p) (mem p left)
                port.node_port)),
  )

  sync_ports-Synced :
      (ports : List ServicePort) (left : List ℕ) (changed : Bool) (w : W) (d : Option ℕ)
      → view w p ≡ d
      → Returns
          (Synced ports d (mem p left))
          (sync_ports to_lower parse_duration cfg certs client lb svc ports left changed w)
  unfolding sync_ports skip
  sync_ports-Synced [] left changed w d h = (h, ground arith)
  sync_ports-Synced (port ∷ ports) left changed w d h = elim (Bool-cases (is_tcp port)) [
    | inl tcp ↦ rw tcp (
        Returns-weaken _ (Synced (port ∷ ports) d (mem p left)) _
          (Returns-bind
            (λ _ v.
              view v p ≡ forward to_lower parse_duration cfg certs client lb svc view laws p port d)
            (Synced ports
              (forward to_lower parse_duration cfg certs client lb svc view laws p port d)
              (mem p (exclude port.port left)))
            (sync_port to_lower parse_duration cfg certs client lb svc port (mem port.port left))
            (λ _.
              sync_ports to_lower parse_duration cfg certs client lb svc ports
                (exclude port.port left) true)
            w
            (sync_port-view to_lower parse_duration cfg certs client lb svc view laws p
              (mem port.port left) port w d h)
            (λ _ v k.
              sync_ports-Synced ports (exclude port.port left) true v
                (forward to_lower parse_duration cfg certs client lb svc view laws p port d) k))
          (λ out v k. more_ports port ports d left out v tcp k))
    | inr other ↦ rw other (
        Returns-weaken (Synced ports d (mem p left)) (Synced (port ∷ ports) d (mem p left)) _
          (sync_ports-Synced ports left changed _ d (rw (laws.unsupported_protocol svc.name w) h))
          (λ out v k. rw (forwarded-other port ports p other) k))
  ]

  delete_ports-view :
      (ps : List ℕ) (changed : Bool) (w : W) (d : Option ℕ)
      → view w p ≡ d
      → Returns
          (λ _ v. view v p ≡ (if mem p ps then none else d))
          (delete_ports to_lower parse_duration cfg certs client lb svc ps changed w)
  unfolding delete_ports mem
  delete_ports-view [] changed w d h = h
  delete_ports-view (q ∷ ps) changed w d h =
      Returns-bind (λ _ v. view v p ≡ (if nat_eq q p then none else d)) _
        (api_call (client.delete_service lb.id q)) _ w
        (Returns-api_call to_lower parse_duration cfg certs client lb svc view laws p
          (client.delete_service lb.id q) w (if nat_eq q p then none else d)
          (λ a e. laws.delete_service q w a p e ∙ rw h refl))
        (λ a v k.
          Returns-bind (λ _ v. view v p ≡ (if nat_eq q p then none else d)) _
            (api_call (client.wait_for a)) _ v
            (wait-view to_lower parse_duration cfg certs client lb svc view laws p a v
              (if nat_eq q p then none else d) k)
            (λ _ u l.
              Returns-weaken _ (λ _ x. view x p ≡ (if mem p (q ∷ ps) then none else d)) _
                (delete_ports-view ps true u (if nat_eq q p then none else d) l)
                (λ _ x m. m ∙ deleted_twice (nat_eq q p) (mem p ps) d)))

  -- The ports that are left over are deleted, and the others are as the service wants.
  left_over :
      (left : List ℕ) (d : Option ℕ) (listed : Bool) (v : W)
      → (listed ≡ false → d ≡ none)
      → mem p left ≡ (listed && not (is_some (forwarded svc.ports p)))
      → view v p ≡ (if mem p left then none else first_of (forwarded svc.ports p) d)
      → view v p ≡ forwarded svc.ports p
  left_over left d listed v h m e = elim (Option-cases (forwarded svc.ports p)) [
    | inr (n, wanted) ↦ e ∙ rw (m, wanted) (ground arith)
    | inl unwanted ↦ elim (Bool-cases listed) [
      | inl old ↦ e ∙ rw (m, unwanted, old) refl
      | inr new ↦ e ∙ rw (m, unwanted, new) (h new)
    ]
  ]

  reconcile-Forwards :
      (w : W)
      → (mem p lb.listen_ports ≡ false → view w p ≡ none)
      → Returns
          (λ (_ : Bool) v. view v p ≡ forwarded svc.ports p)
          (reconcile_hclb_services to_lower parse_duration cfg certs client lb svc w)
  unfolding reconcile_hclb_services
  reconcile-Forwards w h =
      let start = port_set lb.listen_ports [] in
      Returns-bind (λ _ v. view v p ≡ view w p) (λ _ v. view v p ≡ forwarded svc.ports p)
        (reconcile_managed_certificate certs svc)
        (λ _. do
          out ← sync_ports to_lower parse_duration cfg certs client lb svc svc.ports start false
          delete_ports to_lower parse_duration cfg certs client lb svc (client.range out.0) out.1)
        w
        (Returns-after (λ v. view v p ≡ view w p) (reconcile_managed_certificate certs svc w)
          (Keeps-reconcile_managed_certificate (λ v. view v p ≡ view w p) certs
            (laws.certificates p (view w p)) svc w refl))
        (λ _ v k.
          Returns-bind (Synced svc.ports (view w p) (mem p start))
            (λ _ u. view u p ≡ forwarded svc.ports p)
            (sync_ports to_lower parse_duration cfg certs client lb svc svc.ports start false)
            (λ out.
              delete_ports to_lower parse_duration cfg certs client lb svc (client.range out.0)
                out.1)
            v (sync_ports-Synced svc.ports start false v (view w p) k)
            (λ out u (there, over).
              Returns-weaken _ (λ _ x. view x p ≡ forwarded svc.ports p) _
                (delete_ports-view (client.range out.0) out.1 u _ there)
                (λ _ x m.
                  left_over out.0 (view w p) (mem p start) x
                    (λ gone. h (ground (arith, mem-port_set p lb.listen_ports [], gone))) over
                    (m ∙ rw (laws.range out.0 p) refl))))

  -- If `ReconcileHCLBServices` succeeds, the load balancer forwards exactly the TCP ports of the
  -- service, each to the node port of the last of its number; given that the API changes its
  -- services as the calls ask, and that the load balancer's list had all listen ports of the API at
  -- the start.
  pub reconcile_hclb_services_forwards :
      (w : W) (changed : Bool) (w' : W)
      → (mem p lb.listen_ports ≡ false → view w p ≡ none)
      → reconcile_hclb_services to_lower parse_duration cfg certs client lb svc w ≡ (ok changed, w')
      → view w' p ≡ forwarded svc.ports p
  reconcile_hclb_services_forwards w changed w' h e =
      subst (λ (x : Result (Error E) Bool × W). Returns (λ _ v. view v p ≡ forwarded svc.ports p) x)
        e (reconcile-Forwards w h)
