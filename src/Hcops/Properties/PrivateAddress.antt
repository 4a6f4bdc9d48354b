-- ===== src/Hcops/Properties/PrivateAddress.antt =====
-- internal/hcops/load_balancer.go: the steps for networks where the annotation of the private
-- address is set but empty.
use hcloud_cloud_controller.Common.{
  ℤ, pos, String, true, false, Option, some, List, [], ◌∷◌, ◌≡◌, refl, Result, ok, err, continue,
  pure, int_eq, int_eq_iff, Bool-cases, inl, inr, Duration, Eq-string, ◌==◌,
}
use hcloud_cloud_controller.Kube.{Service, LoadBalancer, PrivateNet}
use hcloud_cloud_controller.Config.{LoadBalancerConfiguration}
use hcloud_cloud_controller.Annotation.{string_from_service, lb_private_ipv4}
use hcloud_cloud_controller.Hcops.Requests
use hcloud_cloud_controller.Hcops.Requests.{State}
use hcloud_cloud_controller.Hcops.Properties.{
  Client, act, ip_matches, lb_attached, text_or_empty, detach_loop, detach_from_network,
  attach_to_network,
}

same_id : (i : ℤ) → int_eq i i ≡ true
same_id i = (int_eq_iff i i).1 refl

continue-pure :
    {S X A : Type 0} (r : Result X A) (s : S) → continue r (λ a. pure {E = X} a) s ≡ (r, s)
continue-pure (ok a) s = refl
continue-pure (err c) s = refl

module _ {W E T Act Net Ip Cidr : Type 0} (req : Requests.Client W E T Act)
    (client : Client W E T Act Net Ip Cidr) (cfg : LoadBalancerConfiguration)
    (delay : Duration) where
  detach_one :
      (lb : LoadBalancer) (n : PrivateNet) (ip : Option String) (ns : List PrivateNet)
      (s : State W T)
      → ip ≡ some ""
      → ns ≡ n ∷ []
      → ("" == n.ip) ≡ false
      → detach_loop req client n.network_id ip lb ns false s
        ≡ act req client (client.detach_from_network lb n.network_id) s
  unfolding detach_loop ip_matches
  detach_one lb n ip ns s empty alone known =
      rw (alone, empty, same_id n.network_id, known)
        (continue-pure (act req client (client.detach_from_network lb n.network_id) s).0
          (act req client (client.detach_from_network lb n.network_id) s).1)

  attached_one :
      (n : PrivateNet) (ip : Option String) (ns : List PrivateNet)
      → ip ≡ some ""
      → ns ≡ n ∷ []
      → lb_attached ns n.network_id (text_or_empty ip) ≡ true
  unfolding lb_attached text_or_empty
  attached_one n ip ns empty alone = rw (alone, empty, same_id n.network_id) refl

  -- Where the annotation of the private address is set to the empty text, and the load balancer is
  -- attached to the configured network alone with an address, `detachFromNetwork` detaches it from
  -- that network, and `attachToNetwork` of the same load balancer then does nothing.
  pub detached_only :
      (lb : LoadBalancer) (svc : Service) (n : PrivateNet) (s s' : State W T)
      → string_from_service lb_private_ipv4 svc ≡ some ""
      → lb.private_net ≡ n ∷ []
      → ("" == n.ip) ≡ false
      → (detach_from_network req client n.network_id lb svc s
          ≡ act req client (client.detach_from_network lb n.network_id) s)
        × (attach_to_network req client cfg n.network_id delay lb svc s' ≡ (ok false, s'))
  unfolding detach_from_network attach_to_network
  detached_only lb svc n s s' empty alone known = (
    detach_one lb n (string_from_service lb_private_ipv4 svc) lb.private_net s empty alone known,
    let on = attached_one n (string_from_service lb_private_ipv4 svc) lb.private_net empty alone in
        elim (Bool-cases (int_eq n.network_id (pos 0))) [
          | inl off ↦ rw off refl
          | inr set ↦ rw (set, on) refl
        ],
  )
