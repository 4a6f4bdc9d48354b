-- ===== src/Hcops/Services/Sound.antt =====
-- internal/hcops/load_balancer.go: `extract` keeps the two ports that it starts from, and leaves a
-- protocol that hcloud-go knows, for the service and for its health check.
use hcloud_cloud_controller.Common.{
  String, Option, List, [], ◌∷◌, refl, Duration, All, Bool, true, false, if◌then◌else◌, Result, ok,
  err, Exec, ◌>>=◌, pure, Returns, Returns-bind, inl, Eq-string,
}
use hcloud_cloud_controller.Kube.{Service, ServicePort}
use hcloud_cloud_controller.Config.{LoadBalancerConfiguration}
use hcloud_cloud_controller.Annotation.{AnnotationError, not_set, invalid}
use hcloud_cloud_controller.Annotation.Values.{Certificate, certificates_from_service}
use hcloud_cloud_controller.Annotation.ServiceNames.{lb_svc_http_certificates}
use hcloud_cloud_controller.Hcops.{Error}
use hcloud_cloud_controller.Hcops.Requests.{label_service_uid}
use hcloud_cloud_controller.Hcops.Certificates.{
  CertClient, known, is_managed, get_certificate_by_label,
}
use hcloud_cloud_controller.Hcops.Services.Data.{Builder}
use hcloud_cloud_controller.Hcops.Services.Builder
use hcloud_cloud_controller.Hcops.Services.Builder.{
  initial_builder, with_cookie_name, with_domain, with_path, set_http, set_health, set_health_http,
  default_to, do_steps, extract, steps, health_check_steps, extract_health_check,
  extract_certificates, use_certificates, set_certificates, resolve_certs_by_name_or_id,
}
use hcloud_cloud_controller.Hcops.Services.Ports.{
  Sound, Checked, Leads, Leads-local, Leads-do_steps,
}
use hcloud_cloud_controller.Hcops.Services.Steps.{
  proxy_protocol-Sound, protocol-Sound, cookie-Sound, timeout-Sound, redirect-Sound, sticky-Sound,
  health_protocol-Checked, health_port-Checked, interval-Checked, health_timeout-Checked,
  retries-Checked, health_http-Checked,
}

module _ (E : Type 0) (to_lower : String → String) (parse_duration : String → Option Duration)
    (cfg : LoadBalancerConfiguration) (svc : Service) (port : ServicePort) where
  module _ {W Act : Type 0} (certs : CertClient W E Act) where
    anything : {A : Type 0} (x : Result (Error E) A × W) → Returns (λ _ _. Unit {0}) x
    anything (ok a, v) = tt
    anything (err c, v) = tt

    returned-Sound :
        {A : Type 0} (m : Exec W (Error E) A) (set : A → Builder) (w : W)
        → ((a : A) → Sound port (set a))
        → Returns (λ c _. Sound port c) ((do a ← m; pure (set a)) w)
    returned-Sound m set w h =
        Returns-bind (λ _ _. Unit {0}) (λ c _. Sound port c) m (λ a. pure (set a)) w
          (anything (m w)) (λ a v _. h a)

    use_certificates-Sound :
        (r : Result AnnotationError (List Certificate)) (b : Builder) (w : W)
        → Sound port b
        → Returns
            (λ c _. Sound port c)
            (use_certificates to_lower parse_duration cfg svc certs r b w)
    unfolding use_certificates set_certificates set_http known
    use_certificates-Sound (ok cs) b w h =
        returned-Sound (resolve_certs_by_name_or_id to_lower parse_duration cfg svc certs cs)
          (set_certificates to_lower parse_duration cfg svc certs b) w (λ _. h)
    use_certificates-Sound (err not_set) b w h = h
    use_certificates-Sound (err invalid) b w h = tt

    either-Sound :
        (t : Bool) (m n : Exec W (Error E) Builder) (w : W)
        → Returns (λ c _. Sound port c) (m w)
        → Returns (λ c _. Sound port c) (n w)
        → Returns (λ c _. Sound port c) ((if t then m else n) w)
    either-Sound true m n w hm hn = hm
    either-Sound false m n w hm hn = hn

    abbrev managed : Builder → Certificate → Builder
    managed b cert =
        set_certificates to_lower parse_duration cfg svc certs b
          (record { id = cert.id; name = "" } ∷ [])

    extract_certificates-Sound :
        Leads to_lower parse_duration cfg svc certs
          (Sound port)
          (Sound port)
          (extract_certificates to_lower parse_duration cfg svc certs)
    unfolding extract_certificates set_certificates set_http
    extract_certificates-Sound b w h =
        either-Sound (is_managed svc)
          (do
            cert ← get_certificate_by_label certs label_service_uid svc.uid
            pure (managed b cert))
          (use_certificates to_lower parse_duration cfg svc certs
            (certificates_from_service lb_svc_http_certificates svc) b)
          w
          (returned-Sound (get_certificate_by_label certs label_service_uid svc.uid) (managed b) w
            (λ _. h))
          (use_certificates-Sound (certificates_from_service lb_svc_http_certificates svc) b w h)

    health_check_steps-Checked :
        All
          (Leads to_lower parse_duration cfg svc certs (Checked port) (Checked port))
          (health_check_steps to_lower parse_duration cfg svc certs)
    unfolding health_check_steps
    health_check_steps-Checked =
        let keep =
          Leads-local to_lower parse_duration cfg svc certs (Checked port) (Checked port) in
        (
          keep _ (health_port-Checked E to_lower parse_duration cfg svc port),
          (
            keep _ (interval-Checked E to_lower parse_duration cfg svc port),
            (
              keep _ (health_timeout-Checked E to_lower parse_duration cfg svc port),
              (
                keep _ (retries-Checked E to_lower parse_duration cfg svc port),
                (keep _ (health_http-Checked E to_lower parse_duration cfg svc port), tt),
              ),
            ),
          ),
        )

    steps-Sound :
        All
          (Leads to_lower parse_duration cfg svc certs (Sound port) (Sound port))
          (steps to_lower parse_duration cfg svc certs)
    unfolding steps
    steps-Sound =
        let keep = Leads-local to_lower parse_duration cfg svc certs (Sound port) (Sound port) in
        (
          keep _ (proxy_protocol-Sound E to_lower parse_duration cfg svc port),
          (
            keep _ (protocol-Sound E to_lower parse_duration cfg svc port),
            (
              keep _ (cookie-Sound E to_lower parse_duration cfg svc port),
              (
                keep _ (timeout-Sound E to_lower parse_duration cfg svc port),
                (
                  extract_certificates-Sound,
                  (
                    keep _ (redirect-Sound E to_lower parse_duration cfg svc port),
                    (keep _ (sticky-Sound E to_lower parse_duration cfg svc port), tt),
                  ),
                ),
              ),
            ),
          ),
        )

    extract_health_check-Checked :
        Leads to_lower parse_duration cfg svc certs
          (Sound port)
          (Checked port)
          (extract_health_check to_lower parse_duration cfg svc certs)
    unfolding extract_health_check
    extract_health_check-Checked b w h =
        Returns-bind (λ c _. Checked port c) (λ c _. Checked port c)
          (Builder.local to_lower parse_duration cfg svc certs
            (Builder.extract_health_protocol to_lower parse_duration cfg svc) b)
          (do_steps to_lower parse_duration cfg svc certs
            (health_check_steps to_lower parse_duration cfg svc certs))
          w
          (Leads-local to_lower parse_duration cfg svc certs (Sound port) (Checked port)
            (Builder.extract_health_protocol to_lower parse_duration cfg svc)
            (health_protocol-Checked E to_lower parse_duration cfg svc port) b w h)
          (λ c v k.
            Leads-do_steps to_lower parse_duration cfg svc certs (Checked port)
              (health_check_steps to_lower parse_duration cfg svc certs) health_check_steps-Checked
              c v k)

    pub extract-Checked :
        (w : W)
        → Returns (λ c _. Checked port c) (extract to_lower parse_duration cfg svc certs port w)
    unfolding extract
    extract-Checked w =
        Returns-bind (λ c _. Sound port c) (λ c _. Checked port c)
          (do_steps to_lower parse_duration cfg svc certs
            (steps to_lower parse_duration cfg svc certs) (initial_builder port))
          (extract_health_check to_lower parse_duration cfg svc certs) w
          (Leads-do_steps to_lower parse_duration cfg svc certs (Sound port)
            (steps to_lower parse_duration cfg svc certs) steps-Sound (initial_builder port) w
            (refl, refl, inl refl))
          extract_health_check-Checked
