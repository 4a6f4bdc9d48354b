-- ===== src/Hcops/Requests/Placement.antt =====
-- internal/hcops/load_balancer.go: what `Create` asks the API for, and what the search by UID
-- returns.
use hcloud_cloud_controller.Common.{
  String, false, Option, none, some, List, [], ◌∷◌, ◌≡◌, ◌⊎◌, ◌↔◌, inl, inr, sym, ap, ◌∙◌, Result,
  Result-cases, ok, err, ◌==◌, Eq-string, Bool-cases,
}
use hcloud_cloud_controller.Kube.{Service, LoadBalancer}
use hcloud_cloud_controller.Config.{LoadBalancerConfiguration}
use hcloud_cloud_controller.Annotation.{AnnotationError}
use hcloud_cloud_controller.Hcops.{Error}
use hcloud_cloud_controller.Hcops.Requests.{
  CreateOpts, Client, State, label_service_uid, call, unique, get_by_k8s_service_uid, place,
  with_interface, with_algorithm, with_place, create_opts, location, network_zone, algorithm,
  public_interface,
}

module _ {W E T Act : Type 0} (client : Client W E T Act) where
  unique-ok :
      (lbs : List LoadBalancer) (lb : LoadBalancer) → (unique client lbs ≡ ok lb) ↔ (lbs ≡ lb ∷ [])
  unfolding unique
  unique-ok [] lb = (λ h. absurd cc, λ h. absurd cc)
  unique-ok (x ∷ []) lb = (λ h. cc, λ h. cc)
  unique-ok (x ∷ y ∷ lbs) lb = (λ h. absurd cc, λ h. absurd cc)

  -- `GetByK8SServiceUID` returns a load balancer exactly when the API lists it, and no other, under
  -- the label of the service's UID.
  pub get_by_k8s_service_uid_unique :
      (svc : Service) (s : State W T) (lb : LoadBalancer)
      → ((get_by_k8s_service_uid client svc s).0 ≡ ok lb)
        ↔ ((client.all_with_label label_service_uid svc.uid s.world).0 ≡ ok (lb ∷ []))
  unfolding get_by_k8s_service_uid call
  get_by_k8s_service_uid_unique svc s lb =
      elim (Result-cases (client.all_with_label label_service_uid svc.uid s.world).0) [
        | inl (lbs, e) ↦
            rw e (λ h. (let h' = (unique-ok lbs lb).0 h in cc), λ h. (unique-ok lbs lb).1 cc)
        | inr (c, e) ↦ rw e (λ h. absurd cc, λ h. absurd cc)
      ]

  module _ (cfg : LoadBalancerConfiguration) where
    place-exclusive :
        (at : Option String) (zone : String) (p : Option String × String)
        → place {E = E} client cfg at zone ≡ ok p
        → ((l : String) × (p.0 ≡ some l) × (p.1 ≡ "")) ⊎ ((p.0 ≡ none) × ((p.1 == "") ≡ false))
    unfolding place
    place-exclusive none zone (at', zone') h = elim (Bool-cases (zone == "")) [
      | inl empty ↦ absurd (let h' = rw empty at h in cc)
      | inr given ↦
          let h' = rw given at h in let same : zone ≡ zone' = cc in inr (cc, rw (sym same) given)
    ]
    place-exclusive (some l) zone (at', zone') h = inl (l, cc, cc)

    sent :
        (name : String) (svc : Service) (t : T) (p : Option String × String)
        (a : Result AnnotationError (Option String)) (o : CreateOpts T)
        → with_algorithm {E = E} client cfg name svc t p a ≡ ok o
        → (o.location ≡ p.0)
          × (o.network_zone ≡ p.1)
          × (o.labels ≡ (label_service_uid, svc.uid) ∷ [])
    unfolding with_algorithm with_interface
    sent name svc t p (err e) o h = absurd cc
    sent name svc t p (ok a) o h = elim (Result-cases (public_interface client cfg svc)) [
      | inl (i, e) ↦
          let h' = rw (e, with_interface) at h in
          (
            ap (λ (r : Result (Error E) (CreateOpts T)). elim r [ ok q ↦ q.location | err _ ↦ p.0 ])
                (sym h'),
            ap
                (λ (r : Result (Error E) (CreateOpts T)). elim r [
                  | ok q ↦ q.network_zone
                  | err _ ↦ p.1
                ])
                (sym h'),
            ap
                (λ (r : Result (Error E) (CreateOpts T)). elim r [
                  | ok q ↦ q.labels
                  | err _ ↦ (label_service_uid, svc.uid) ∷ []
                ])
                (sym h'),
          )
      | inr (c, e) ↦ absurd (let h' = rw (e, with_interface) at h in cc)
    ]

    -- A request that `Create` sends has a location or a network zone that is not empty, but not
    -- both, and the label by which the search by the service's UID finds the load balancer, with
    -- that UID.
    pub create_opts_placed :
        (name : String) (svc : Service) (t : T) (o : CreateOpts T)
        → create_opts {E = E} client cfg name svc t ≡ ok o
        → (((l : String) × (o.location ≡ some l) × (o.network_zone ≡ ""))
            ⊎ ((o.location ≡ none) × ((o.network_zone == "") ≡ false)))
          × (o.labels ≡ (label_service_uid, svc.uid) ∷ [])
    unfolding create_opts with_place
    create_opts_placed name svc t o h =
        elim (Result-cases
          (place {E = E} client cfg (location client cfg svc) (network_zone client cfg svc))) [
            | inl (p, e) ↦
                let (at, zone, labels) =
                  sent name svc t p (algorithm client cfg svc) o (rw (e, with_place) at h) in
                (
                  elim (place-exclusive (location client cfg svc) (network_zone client cfg svc) p
                      e) [
                        | inl (l, e₁, e₂) ↦ inl (l, at ∙ e₁, zone ∙ e₂)
                        | inr (e₁, e₂) ↦ inr (at ∙ e₁, rw (sym zone) at e₂)
                      ],
                  labels,
                )
            | inr (c, e) ↦ absurd (let h' = rw (e, with_place) at h in cc)
          ]
