-- ===== src/Hcops/Services/Kept.antt =====
-- internal/hcops/certificates.go and internal/hcops/load_balancer.go: the calls for certificates
-- keep what the single calls of the API keep.
use hcloud_cloud_controller.Common.{
  String, Bool, true, false, Option, List, [], ◌∷◌, Duration, Result, ok, err, Exec, ◌>>=◌, pure,
  int_eq, pos, if◌then◌else◌, All, Keeps, Keeps-bind,
}
use hcloud_cloud_controller.Kube.{Service, ServicePort}
use hcloud_cloud_controller.Config.{LoadBalancerConfiguration}
use hcloud_cloud_controller.Annotation.{AnnotationError, not_set, invalid}
use hcloud_cloud_controller.Annotation.Values.{Certificate, certificates_from_service}
use hcloud_cloud_controller.Annotation.ServiceNames.{lb_svc_http_certificates}
use hcloud_cloud_controller.Hcops.{Error}
use hcloud_cloud_controller.Hcops.Requests.{label_service_uid}
use hcloud_cloud_controller.Hcops.Certificates.{
  CertClient, CreateOpts, api_call, known, is_managed, get_certificate_by_name_or_id,
  get_certificate_by_label, finish_create, create_managed_certificate, ensure_certificate,
  reconcile_managed_certificate,
}
use hcloud_cloud_controller.Hcops.Services.Builder.{
  Step, do_steps, health_check_steps, steps, extract_health_protocol, local, initial_builder,
  resolve_cert, resolve_certs_by_name_or_id, use_certificates, extract_certificates,
  extract_health_check, extract,
}
use hcloud_cloud_controller.Hcops.Services.Data.{Builder}

-- Each call for certificates keeps `P`.
pub record CertKeeps {W E Act : Type 0} (P : W → Type 0) (certs : CertClient W E Act) : Type 0 where
  pub get : (id : String) → Keeps P (certs.get id)
  pub all_with_label : (k v : String) → Keeps P (certs.all_with_label k v)
  pub create_certificate : (opts : CreateOpts) → Keeps P (certs.create_certificate opts)
  pub wait_for : (a : Act) → Keeps P (certs.wait_for a)

module _ {W E Act : Type 0} (P : W → Type 0) (certs : CertClient W E Act)
    (kept : CertKeeps P certs) where
  pub Keeps-api_call : {A : Type 0} (m : Exec W E A) → Keeps P m → Keeps P (api_call m)
  unfolding api_call
  Keeps-api_call m h w = h w

  Keeps-if :
      {A : Type 0} (b : Bool) (m n : Exec W (Error E) A)
      → Keeps P m
      → Keeps P n
      → Keeps P (if b then m else n)
  Keeps-if true m n hm hn = hm
  Keeps-if false m n hm hn = hn

  Keeps-by_name : (n : String) → Keeps P (get_certificate_by_name_or_id certs n)
  unfolding get_certificate_by_name_or_id known
  Keeps-by_name n = Keeps-bind P _ _ (Keeps-api_call (certs.get n) (kept.get n)) (λ c w h. h)

  Keeps-by_label : (k v : String) → Keeps P (get_certificate_by_label certs k v)
  unfolding get_certificate_by_label known
  Keeps-by_label k v =
      Keeps-bind P _ _ (Keeps-api_call (certs.all_with_label k v) (kept.all_with_label k v))
        (λ c w h. h)

  Keeps-finish_create : (r : Result E Act) → Keeps P (finish_create certs r)
  unfolding finish_create
  Keeps-finish_create (ok a) = Keeps-api_call (certs.wait_for a) (kept.wait_for a)
  Keeps-finish_create (err e) = λ w h. h

  Keeps-ensure_certificate : (opts : CreateOpts) → Keeps P (ensure_certificate certs opts)
  unfolding ensure_certificate create_managed_certificate
  Keeps-ensure_certificate opts w h =
      Keeps-finish_create (certs.create_certificate opts w).0 (certs.create_certificate opts w).1
        (kept.create_certificate opts w h)

  pub Keeps-reconcile_managed_certificate :
      (svc : Service) → Keeps P (reconcile_managed_certificate certs svc)
  unfolding reconcile_managed_certificate known
  Keeps-reconcile_managed_certificate svc =
      Keeps-if (is_managed svc) _ _
        (Keeps-bind P _ _ (λ w h. h) (λ domains. Keeps-ensure_certificate _)) (λ w h. h)

  module _ (to_lower : String → String) (parse_duration : String → Option Duration)
      (cfg : LoadBalancerConfiguration) (svc : Service) where
    Keeps-resolve_cert :
        (c : Certificate) → Keeps P (resolve_cert to_lower parse_duration cfg svc certs c)
    unfolding resolve_cert
    Keeps-resolve_cert c =
        Keeps-if (int_eq c.id (pos 0)) _ _
          (Keeps-bind P _ _ (Keeps-by_name c.name) (λ found w h. h)) (λ w h. h)

    Keeps-resolve_certs :
        (cs : List Certificate)
        → Keeps P (resolve_certs_by_name_or_id to_lower parse_duration cfg svc certs cs)
    unfolding resolve_certs_by_name_or_id
    Keeps-resolve_certs [] = λ w h. h
    Keeps-resolve_certs (c ∷ cs) =
        let rest = resolve_certs_by_name_or_id to_lower parse_duration cfg svc certs cs in
        Keeps-bind P (resolve_cert to_lower parse_duration cfg svc certs c)
          (λ r. do found ← rest; pure (r ∷ found)) (Keeps-resolve_cert c)
          (λ r. Keeps-bind P rest (λ found. pure (r ∷ found)) (Keeps-resolve_certs cs) (λ _ w h. h))

    Keeps-use_certificates :
        (r : Result AnnotationError (List Certificate)) (b : _)
        → Keeps P (use_certificates to_lower parse_duration cfg svc certs r b)
    unfolding use_certificates known
    Keeps-use_certificates (ok cs) b = Keeps-bind P _ _ (Keeps-resolve_certs cs) (λ _ w h. h)
    Keeps-use_certificates (err not_set) b = λ w h. h
    Keeps-use_certificates (err invalid) b = λ w h. h

    Keeps-extract_certificates :
        (b : _) → Keeps P (extract_certificates to_lower parse_duration cfg svc certs b)
    unfolding extract_certificates
    Keeps-extract_certificates b =
        Keeps-if (is_managed svc) _ _
          (Keeps-bind P _ _ (Keeps-by_label label_service_uid svc.uid) (λ cert w h. h))
          (Keeps-use_certificates (certificates_from_service lb_svc_http_certificates svc) b)

    Keeps-do_steps :
        (fs : List (Step to_lower parse_duration cfg svc certs)) (b : Builder)
        → All (λ f. (c : Builder) → Keeps P (f c)) fs
        → Keeps P (do_steps to_lower parse_duration cfg svc certs fs b)
    unfolding do_steps
    Keeps-do_steps [] b h = λ w k. k
    Keeps-do_steps (f ∷ fs) b (h, hs) =
        Keeps-bind P (f b) (do_steps to_lower parse_duration cfg svc certs fs) (h b)
          (λ c. Keeps-do_steps fs c hs)

    Keeps-extract_health_check :
        (b : Builder) → Keeps P (extract_health_check to_lower parse_duration cfg svc certs b)
    unfolding extract_health_check health_check_steps local known
    Keeps-extract_health_check b =
        Keeps-bind P
          (local to_lower parse_duration cfg svc certs
            (extract_health_protocol to_lower parse_duration cfg svc) b)
          (do_steps to_lower parse_duration cfg svc certs
            (health_check_steps to_lower parse_duration cfg svc certs))
          (λ w h. h)
          (λ c.
            Keeps-do_steps (health_check_steps to_lower parse_duration cfg svc certs) c
              (λ _ w h. h, (λ _ w h. h, (λ _ w h. h, (λ _ w h. h, (λ _ w h. h, tt))))))

    pub Keeps-extract :
        (port : ServicePort) → Keeps P (extract to_lower parse_duration cfg svc certs port)
    unfolding extract steps local known
    Keeps-extract port =
        Keeps-bind P
          (do_steps to_lower parse_duration cfg svc certs
            (steps to_lower parse_duration cfg svc certs) (initial_builder port))
          (extract_health_check to_lower parse_duration cfg svc certs)
          (Keeps-do_steps (steps to_lower parse_duration cfg svc certs) (initial_builder port) (
            λ _ w h. h,
            (
              λ _ w h. h,
              (
                λ _ w h. h,
                (λ _ w h. h, (Keeps-extract_certificates, (λ _ w h. h, (λ _ w h. h, tt)))),
              ),
            ),
          ))
          Keeps-extract_health_check
