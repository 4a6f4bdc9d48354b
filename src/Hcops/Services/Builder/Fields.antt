-- ===== src/Hcops/Services/Builder/Fields.antt =====
-- internal/hcops/load_balancer.go: the builder of the options of a service, the reading of its fields.
use hcloud_cloud_controller.Common.{
  ℤ, pos, String, true, false, Option, none, some, [], if◌then◌else◌, int_eq, Result, ok, err,
  Duration, ◌==◌, Eq-string,
}
use hcloud_cloud_controller.Kube.{Service, ServicePort}
use hcloud_cloud_controller.Config.{LoadBalancerConfiguration}
use hcloud_cloud_controller.Annotation.{
  AnnotationError, not_set, invalid, string_from_service, bool_from_service, lb_svc_proxy_protocol,
}
use hcloud_cloud_controller.Annotation.Values.{
  strings_from_service, duration_from_service, int_from_service, lb_svc_protocol_from_service,
}
use hcloud_cloud_controller.Annotation.ServiceNames.{
  lb_svc_protocol, lb_svc_http_cookie_name, lb_svc_http_cookie_lifetime, lb_svc_http_timeout_idle,
  lb_svc_redirect_http, lb_svc_http_sticky_sessions, lb_svc_health_check_protocol,
  lb_svc_health_check_port, lb_svc_health_check_interval, lb_svc_health_check_timeout,
  lb_svc_health_check_retries, lb_svc_health_check_http_domain, lb_svc_health_check_http_path,
  lb_svc_health_check_http_validate_certificate, lb_svc_health_check_http_status_codes,
}
use hcloud_cloud_controller.Hcops.{Error, annotation_error}
use hcloud_cloud_controller.Hcops.Services.Data.{HttpOpts, HealthHttpOpts, HealthCheckOpts, Builder}

abbrev pub initial_builder : ServicePort → Builder
initial_builder port = record {
  listen_port = port.port;
  destination_port = port.node_port;
  proxy_protocol = none;
  protocol = "tcp";
  http_opts = record {
    cookie_name = none;
    cookie_lifetime = none;
    certificates = [];
    redirect_http = none;
    sticky_sessions = none;
    timeout_idle = none;
  };
  add_http = false;
  health_check_opts = record {
    protocol = "";
    port = none;
    interval = none;
    timeout = none;
    retries = none;
    http_opts = record { domain = none; path = none; status_codes = []; tls = none };
  };
  add_health_check = false;
}

-- A step of the builder for an annotation: a value is stored by `set`, a missing annotation gives
-- `otherwise`, and any other error ends the extraction.
unfoldable pub step :
    {E A : Type 0} → Result AnnotationError A → (A → Builder) → Builder → Result (Error E) Builder
step (ok a) set otherwise = ok (set a)
step (err not_set) set otherwise = ok otherwise
step (err invalid) set otherwise = err (annotation_error invalid)

unfoldable pub set_http : (HttpOpts → HttpOpts) → Builder → Builder
set_http f b = record b { http_opts = f b.http_opts; add_http = true }

unfoldable pub set_health : (HealthCheckOpts → HealthCheckOpts) → Builder → Builder
set_health f b = record b { health_check_opts = f b.health_check_opts; add_health_check = true }

-- The health check's options for HTTP do not set the flag.
unfoldable pub set_health_http : (HealthHttpOpts → HealthHttpOpts) → Builder → Builder
set_health_http f b =
    let h = b.health_check_opts in
    let http : HealthHttpOpts = f h.http_opts in
    let h' : HealthCheckOpts = record h { http_opts = http } in record b { health_check_opts = h' }

unfoldable pub with_cookie_name : Option String → Builder → Builder
unfolding set_http
with_cookie_name none b = b
with_cookie_name (some v) b = set_http (λ h. record h { cookie_name = some v }) b

unfoldable pub with_domain : Option String → Builder → Builder
unfolding set_health_http
with_domain none b = b
with_domain (some v) b = set_health_http (λ h. record h { domain = some v }) b

unfoldable pub with_path : Option String → Builder → Builder
unfolding set_health_http
with_path none b = b
with_path (some v) b = set_health_http (λ h. record h { path = some v }) b

-- A setting of zero is not set.
unfoldable pub default_to : ℤ → (ℤ → Builder) → Builder → Builder
default_to setting set b = if int_eq setting (pos 0) then b else set setting

module _ (to_lower : String → String) (parse_duration : String → Option Duration)
    (cfg : LoadBalancerConfiguration) (svc : Service) where
  unfoldable pub extract_proxy_protocol : {E : Type 0} → Builder → Result (Error E) Builder
  unfolding step bool_from_service
  extract_proxy_protocol b =
      step (bool_from_service lb_svc_proxy_protocol svc)
        (λ pp. record b { proxy_protocol = some pp })
        (record b { proxy_protocol = cfg.proxy_protocol_enabled })

  unfoldable pub extract_protocol : {E : Type 0} → Builder → Result (Error E) Builder
  unfolding step lb_svc_protocol_from_service
  extract_protocol b =
      step (lb_svc_protocol_from_service to_lower lb_svc_protocol svc)
        (λ p. record b { protocol = p }) b

  unfoldable pub extract_cookie_name : Builder → Builder
  unfolding string_from_service with_cookie_name
  extract_cookie_name b = with_cookie_name (string_from_service lb_svc_http_cookie_name svc) b

  unfoldable pub extract_cookie_lifetime : {E : Type 0} → Builder → Result (Error E) Builder
  unfolding step duration_from_service set_http
  extract_cookie_lifetime b =
      step (duration_from_service parse_duration lb_svc_http_cookie_lifetime svc)
        (λ lt. set_http (λ h. record h { cookie_lifetime = some lt }) b) b

  unfoldable pub extract_timeout_idle : {E : Type 0} → Builder → Result (Error E) Builder
  unfolding step duration_from_service set_http
  extract_timeout_idle b =
      step (duration_from_service parse_duration lb_svc_http_timeout_idle svc)
        (λ timeout. set_http (λ h. record h { timeout_idle = some timeout }) b) b

  unfoldable pub extract_redirect_http : {E : Type 0} → Builder → Result (Error E) Builder
  unfolding step bool_from_service set_http
  extract_redirect_http b =
      step (bool_from_service lb_svc_redirect_http svc)
        (λ redirect. set_http (λ h. record h { redirect_http = some redirect }) b) b

  unfoldable pub extract_sticky_sessions : {E : Type 0} → Builder → Result (Error E) Builder
  unfolding step bool_from_service set_http
  extract_sticky_sessions b =
      step (bool_from_service lb_svc_http_sticky_sessions svc)
        (λ sticky. set_http (λ h. record h { sticky_sessions = some sticky }) b) b

  -- Without the annotation the health check's protocol is the service's, and the flag stays.
  unfoldable pub extract_health_protocol : {E : Type 0} → Builder → Result (Error E) Builder
  unfolding step lb_svc_protocol_from_service set_health
  extract_health_protocol b =
      let service_protocol = b.protocol in
      let h = b.health_check_opts in
      let h' : HealthCheckOpts = record h { protocol = service_protocol } in
      step (lb_svc_protocol_from_service to_lower lb_svc_health_check_protocol svc)
        (λ p. set_health (λ h. record h { protocol = p }) b) (record b { health_check_opts = h' })

  unfoldable pub extract_health_port : {E : Type 0} → Builder → Result (Error E) Builder
  unfolding step int_from_service set_health
  extract_health_port b =
      step (int_from_service lb_svc_health_check_port svc)
        (λ p. set_health (λ h. record h { port = some p }) b) b

  unfoldable pub extract_health_interval : {E : Type 0} → Builder → Result (Error E) Builder
  unfolding step duration_from_service set_health default_to
  extract_health_interval b =
      let set = λ (i : Duration). set_health (λ h. record h { interval = some i }) b in
      step (duration_from_service parse_duration lb_svc_health_check_interval svc) set
        (default_to cfg.health_check_interval set b)

  unfoldable pub extract_health_timeout : {E : Type 0} → Builder → Result (Error E) Builder
  unfolding step duration_from_service set_health default_to
  extract_health_timeout b =
      let set = λ (t : Duration). set_health (λ h. record h { timeout = some t }) b in
      step (duration_from_service parse_duration lb_svc_health_check_timeout svc) set
        (default_to cfg.health_check_timeout set b)

  unfoldable pub extract_health_retries : {E : Type 0} → Builder → Result (Error E) Builder
  unfolding step int_from_service set_health default_to
  extract_health_retries b =
      let set = λ (n : ℤ). set_health (λ h. record h { retries = some n }) b in
      step (int_from_service lb_svc_health_check_retries svc) set
        (default_to cfg.health_check_retries set b)

  unfoldable pub extract_health_tls : {E : Type 0} → Builder → Result (Error E) Builder
  unfolding step bool_from_service set_health_http
  extract_health_tls b =
      step (bool_from_service lb_svc_health_check_http_validate_certificate svc)
        (λ v. set_health_http (λ h. record h { tls = some v }) b) b

  unfoldable pub extract_status_codes : {E : Type 0} → Builder → Result (Error E) Builder
  unfolding step strings_from_service set_health_http
  extract_status_codes b =
      step (strings_from_service lb_svc_health_check_http_status_codes svc)
        (λ codes. set_health_http (λ h. record h { status_codes = codes }) b) b

  -- The steps for HTTP are left out for a health check by TCP.
  unfoldable pub extract_health_http : {E : Type 0} → Builder → Result (Error E) Builder
  unfolding string_from_service with_domain with_path extract_health_tls extract_status_codes
  extract_health_http b =
      if b.health_check_opts.protocol == "tcp"
      then ok b
      else let b₁ = with_domain (string_from_service lb_svc_health_check_http_domain svc) b in
        let b₂ = with_path (string_from_service lb_svc_health_check_http_path svc) b₁ in
        elim (extract_health_tls b₂) [ err e ↦ err e | ok b₃ ↦ extract_status_codes b₃ ]
