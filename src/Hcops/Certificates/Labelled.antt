-- ===== src/Hcops/Certificates/Labelled.antt =====
-- internal/hcops/certificates.go and `reconcileManagedCertificate`: the certificate that is made is the
-- one that the label of the service finds.
use hcloud_cloud_controller.Common.{
  String, Bool, true, false, some, List, [], ◌∷◌, ◌≡◌, refl, ap, ◌∙◌, if◌then◌else◌, Result, ok,
  err, Exec, ◌⊎◌, inl, inr, Returns, Returns-weaken, lookup, insert, Eq-string, ◌>>=◌,
}
use hcloud_cloud_controller.Kube.{Service}
use hcloud_cloud_controller.Annotation.{bool_from_service}
use hcloud_cloud_controller.Annotation.ServiceNames.{
  lb_svc_http_managed_certificate_domains, lb_svc_http_managed_certificate_use_acme_staging,
}
use hcloud_cloud_controller.Annotation.Values.{Certificate, strings_from_service}
use hcloud_cloud_controller.Hcops.{Error, already_exists, api}
use hcloud_cloud_controller.Hcops.Requests.{label_service_uid}
use hcloud_cloud_controller.Hcops.Certificates.{
  CertClient, CreateOpts, api_call, known, is_managed, is_true, managed_domains, managed_labels,
  managed_opts, finish_create, create_managed_certificate, accept_existing, ensure_certificate,
  reconcile_managed_certificate, single, get_certificate_by_label,
}

-- `labelled` are the certificates at the API with a service's UID as their label.
pub record LabelLaws {W E Act : Type 0} (labelled : String → W → List Certificate)
    (client : CertClient W E Act) : Type 0 where
  pub created :
      (opts : CreateOpts) (uid : String) (w : W)
      → lookup label_service_uid opts.labels ≡ some uid
      → Returns
          (λ _ v. (c : Certificate) × (labelled uid v ≡ c ∷ labelled uid w))
          (client.create_certificate opts w)
  pub waited :
      (act : Act) (uid : String) (w : W) → labelled uid (client.wait_for act w).1 ≡ labelled uid w
  pub listed :
      (uid : String) (w : W)
      → Returns (λ cs v. cs ≡ labelled uid w) (client.all_with_label label_service_uid uid w)

staging :
    (uid : String) (b : Bool)
    → lookup label_service_uid (
        if b
        then insert "HC-Use-Staging-CA" "true" ((label_service_uid, uid) ∷ [])
        else (label_service_uid, uid) ∷ [])
      ≡ some uid
unfolding lookup insert
staging uid true = refl
staging uid false = refl

managed_labels_uid : (svc : Service) → lookup label_service_uid (managed_labels svc) ≡ some svc.uid
unfolding managed_labels
managed_labels_uid svc =
    staging svc.uid
      (is_true (bool_from_service lb_svc_http_managed_certificate_use_acme_staging svc))

module _ {W E Act : Type 0} (labelled : String → W → List Certificate)
    (client : CertClient W E Act) where
  -- The search by the UID finds this certificate, unless the API fails.
  abbrev pub Finds : String → Certificate → W → Type 0
  Finds uid c w =
      ((get_certificate_by_label client label_service_uid uid w).0 ≡ ok c)
      ⊎ ((a : E) × ((get_certificate_by_label client label_service_uid uid w).0 ≡ err (api a)))

  -- The name is in use by another certificate.
  abbrev pub IsTaken : CreateOpts → W → Type 0
  IsTaken opts w =
      (e : E) × ((client.create_certificate opts w).0 ≡ err e)
      × (client.is_uniqueness_error e ≡ true)

  abbrev pub Outcome : CreateOpts → String → W → W → Type 0
  Outcome opts uid w v = ((c : Certificate) × Finds uid c v) ⊎ IsTaken opts w

  single-found :
      (c : Certificate) (x : Result E (List Certificate) × W)
      → Returns (λ cs _. cs ≡ c ∷ []) x
      → (((api_call (λ (w : W). x) >>= (λ certs. known (single client certs))) x.1).0 ≡ ok c)
        ⊎ ((a : E) × (((api_call (λ (w : W). x) >>= (λ certs. known (single client certs))) x.1).0
              ≡ err (api a)))
  unfolding api_call known single
  single-found c (ok cs, w) h = inl (rw h refl)
  single-found c (err a, w) h = inr (a, refl)

  accept_existing-wait :
      (Q : W → Type 0) (y : Result E (Unit {0}) × W)
      → Q y.1
      → Returns (λ _ v. Q v) (accept_existing client (api_call (λ (w : W). y) y.1).0, y.1)
  unfolding accept_existing api_call
  accept_existing-wait Q (ok u, w) h = h
  accept_existing-wait Q (err e, w) h = tt

  known-bind :
      {A B : Type 0} (Q : B → W → Type 0) (r : Result (Error E) A) (f : A → Exec W (Error E) B)
      (w : W)
      → ((a : A) → r ≡ ok a → Returns Q (f a w))
      → Returns Q ((known r >>= f) w)
  unfolding known
  known-bind Q (ok a) f w h = h a refl
  known-bind Q (err e) f w h = tt

  accept_existing-refused :
      (b : Bool) (e : E) (Q : W → Type 0) (w : W)
      → (b ≡ true → Q w)
      → Returns (λ _ v. Q v) (accept_existing client (err (if b then already_exists else api e)), w)
  unfolding accept_existing
  accept_existing-refused true e Q w h = h refl
  accept_existing-refused false e Q w h = tt

  module _ (laws : LabelLaws labelled client) where
    get_certificate_by_label-Finds :
        (uid : String) (c : Certificate) (w : W) → labelled uid w ≡ c ∷ [] → Finds uid c w
    unfolding get_certificate_by_label
    get_certificate_by_label-Finds uid c w h =
        single-found c (client.all_with_label label_service_uid uid w) (
          Returns-weaken _ _ (client.all_with_label label_service_uid uid w) (laws.listed uid w)
            (λ cs _ e. e ∙ h))

    finish_create-Finds :
        (uid : String) (x : Result E Act × W) (T : Type 0)
        → Returns (λ _ v. (c : Certificate) × (labelled uid v ≡ c ∷ [])) x
        → ((e : E) → x.0 ≡ err e → client.is_uniqueness_error e ≡ true → T)
        → Returns
            (λ _ v. ((c : Certificate) × Finds uid c v) ⊎ T)
            (
              accept_existing client (finish_create client x.0 x.1).0,
              (finish_create client x.0 x.1).1,
            )
    unfolding finish_create
    finish_create-Finds uid (ok act, w) T (c, h) taken =
        accept_existing-wait (λ v. ((c : Certificate) × Finds uid c v) ⊎ T) (client.wait_for act w)
          (inl (c, get_certificate_by_label-Finds uid c _ (laws.waited act uid w ∙ h)))
    finish_create-Finds uid (err e, w) T h taken =
        accept_existing-refused (client.is_uniqueness_error e) e
          (λ v. ((c : Certificate) × Finds uid c v) ⊎ T) w (λ u. inr (taken e refl u))

    ensure_certificate-Finds :
        (opts : CreateOpts) (uid : String) (w : W)
        → lookup label_service_uid opts.labels ≡ some uid
        → labelled uid w ≡ []
        → Returns (λ _ v. Outcome opts uid w v) (ensure_certificate client opts w)
    unfolding ensure_certificate create_managed_certificate
    ensure_certificate-Finds opts uid w label empty =
        finish_create-Finds uid (client.create_certificate opts w) (IsTaken opts w)
          (Returns-weaken _ _ (client.create_certificate opts w) (laws.created opts uid w label)
            (λ _ v h. (h.0, h.1 ∙ ap (λ cs. h.0 ∷ cs) empty)))
          (λ e refused unique. (e, refused, unique))

    -- For a service with a managed certificate and without a certificate of its UID, after
    -- `reconcileManagedCertificate` has succeeded the search by the UID finds the one certificate, unless
    -- the API fails; or the API refused a certificate for the domains since its name is in use.
    pub reconcile_managed_certificate_finds :
        (svc : Service) (w : W)
        → is_managed svc ≡ true
        → labelled svc.uid w ≡ []
        → Returns
            (λ _ v.
              (domains : List String) × (managed_domains {E = E}
                  (strings_from_service lb_svc_http_managed_certificate_domains svc)
                ≡ ok domains)
              × Outcome (managed_opts client svc domains) svc.uid w v)
            (reconcile_managed_certificate client svc w)
    unfolding reconcile_managed_certificate
    reconcile_managed_certificate_finds svc w managed empty = rw managed (
        known-bind _
          (managed_domains (strings_from_service lb_svc_http_managed_certificate_domains svc))
          (λ domains. ensure_certificate client (managed_opts client svc domains)) w
          (λ domains some'.
            Returns-weaken _ _ (ensure_certificate client (managed_opts client svc domains) w)
              (ensure_certificate-Finds (managed_opts client svc domains) svc.uid w
                (managed_labels_uid svc) empty)
              (λ _ v h. (domains, some', h))))
