-- ===== src/Hcops/Services/Builder.antt =====
-- internal/hcops/load_balancer.go: `hclbServiceOptsBuilder`. Its method `do` skips each step after
-- the first error, which the monad of programs does here, and `initialize` runs `extract` once. The
-- parameters are `strings.ToLower` and `time.ParseDuration`.
pub mod Fields
unfoldable pub use Fields.*
use hcloud_cloud_controller.Common.{
  ℤ, pos, String, true, false, Option, none, some, List, [], ◌∷◌, if◌then◌else◌, int_eq, Result, ok,
  err, Exec, ◌>>=◌, pure, Duration, ◌==◌, Eq-string,
}
use hcloud_cloud_controller.Kube.{Service, ServicePort}
use hcloud_cloud_controller.Config.{LoadBalancerConfiguration}
use hcloud_cloud_controller.Annotation.{
  AnnotationError, not_set, invalid, string_from_service, bool_from_service, lb_svc_proxy_protocol,
}
use hcloud_cloud_controller.Annotation.Values.{
  Certificate, strings_from_service, duration_from_service, int_from_service,
  lb_svc_protocol_from_service, certificates_from_service,
}
use hcloud_cloud_controller.Annotation.ServiceNames.{
  lb_svc_protocol, lb_svc_http_cookie_name, lb_svc_http_cookie_lifetime, lb_svc_http_timeout_idle,
  lb_svc_http_certificates, lb_svc_redirect_http, lb_svc_http_sticky_sessions,
  lb_svc_health_check_protocol, lb_svc_health_check_port, lb_svc_health_check_interval,
  lb_svc_health_check_timeout, lb_svc_health_check_retries, lb_svc_health_check_http_domain,
  lb_svc_health_check_http_path, lb_svc_health_check_http_validate_certificate,
  lb_svc_health_check_http_status_codes,
}
use hcloud_cloud_controller.Hcops.{Error, annotation_error}
use hcloud_cloud_controller.Hcops.Requests.{label_service_uid}
use hcloud_cloud_controller.Hcops.Certificates.{
  CertClient, known, is_managed, get_certificate_by_name_or_id, get_certificate_by_label,
}
use hcloud_cloud_controller.Hcops.Services.Data.{HttpOpts, HealthHttpOpts, HealthCheckOpts, Builder}

module _ (to_lower : String → String) (parse_duration : String → Option Duration)
    (cfg : LoadBalancerConfiguration) (svc : Service) where
  module _ {W E Act : Type 0} (certs : CertClient W E Act) where
    abbrev pub Step : Type 0
    Step = Builder → Exec W (Error E) Builder

    -- Each step is done as long as none has failed.
    unfoldable pub do_steps : List Step → Step
    do_steps [] b = pure b
    do_steps (f ∷ fs) b = do b ← f b; do_steps fs b

    unfoldable pub local : (Builder → Result (Error E) Builder) → Step
    unfolding known
    local f b = known (f b)

    unfoldable pub health_check_steps : List Step
    unfolding local extract_health_port extract_health_interval extract_health_timeout
        extract_health_retries extract_health_http
    health_check_steps =
        (local (extract_health_port to_lower parse_duration cfg svc)
          ∷ local (extract_health_interval to_lower parse_duration cfg svc)
          ∷ local (extract_health_timeout to_lower parse_duration cfg svc)
          ∷ local (extract_health_retries to_lower parse_duration cfg svc)
          ∷ local (extract_health_http to_lower parse_duration cfg svc)
          ∷ [])

    unfoldable pub extract_health_check : Step
    unfolding local extract_health_protocol do_steps health_check_steps
    extract_health_check b = do
      b ← local (extract_health_protocol to_lower parse_duration cfg svc) b
      do_steps health_check_steps b

    -- A certificate without an ID is looked up by its name, and known by the ID that is found.
    unfoldable pub resolve_cert : Certificate → Exec W (Error E) Certificate
    unfolding get_certificate_by_name_or_id
    resolve_cert c =
        if int_eq c.id (pos 0)
        then (do
          found ← get_certificate_by_name_or_id certs c.name
          pure (record { id = found.id; name = "" }))
        else pure c

    unfoldable pub resolve_certs_by_name_or_id :
        List Certificate → Exec W (Error E) (List Certificate)
    unfolding resolve_cert
    resolve_certs_by_name_or_id [] = pure []
    resolve_certs_by_name_or_id (c ∷ cs) = do
      resolved ← resolve_cert c
      rest ← resolve_certs_by_name_or_id cs
      pure (resolved ∷ rest)

    unfoldable pub set_certificates : Builder → List Certificate → Builder
    unfolding set_http
    set_certificates b cs = set_http (λ h. record h { certificates = cs }) b

    unfoldable pub use_certificates :
        Result AnnotationError (List Certificate) → Builder → Exec W (Error E) Builder
    unfolding resolve_certs_by_name_or_id set_certificates known
    use_certificates (ok cs) b = do
      resolved ← resolve_certs_by_name_or_id cs
      pure (set_certificates b resolved)
    use_certificates (err not_set) b = pure b
    use_certificates (err invalid) b = known (err (annotation_error invalid))

    -- The certificates that the annotation lists, or the managed one, which has the label of the
    -- service's UID.
    unfoldable pub extract_certificates : Builder → Exec W (Error E) Builder
    unfolding is_managed use_certificates certificates_from_service get_certificate_by_label
        set_certificates
    extract_certificates b =
        if is_managed svc
        then (do
          cert ← get_certificate_by_label certs label_service_uid svc.uid
          pure (set_certificates b (record { id = cert.id; name = "" } ∷ [])))
        else use_certificates (certificates_from_service lb_svc_http_certificates svc) b

    unfoldable pub steps : List Step
    unfolding local extract_proxy_protocol extract_protocol extract_cookie_name
        extract_cookie_lifetime extract_timeout_idle extract_certificates extract_redirect_http
        extract_sticky_sessions
    steps =
        (local (extract_proxy_protocol to_lower parse_duration cfg svc)
          ∷ local (extract_protocol to_lower parse_duration cfg svc)
          ∷ local (λ b.
            extract_cookie_lifetime to_lower parse_duration cfg svc
              (extract_cookie_name to_lower parse_duration cfg svc b))
          ∷ local (extract_timeout_idle to_lower parse_duration cfg svc)
          ∷ extract_certificates
          ∷ local (extract_redirect_http to_lower parse_duration cfg svc)
          ∷ local (extract_sticky_sessions to_lower parse_duration cfg svc)
          ∷ [])

    unfoldable pub extract : ServicePort → Exec W (Error E) Builder
    unfolding do_steps steps extract_health_check
    extract port = do b ← do_steps steps (initial_builder port); extract_health_check b
