-- ===== src/Hcops/Services/Steps.antt =====
-- internal/hcops/load_balancer.go: each step of `extract` keeps the two ports and leaves protocols
-- that hcloud-go knows.
use hcloud_cloud_controller.Common.{
  String, Option, none, some, Duration, Bool, true, false, if◌then◌else◌, Result, ok, err, ◌==◌,
  Eq-string, int_eq, pos, ℤ,
}
use hcloud_cloud_controller.Kube.{Service, ServicePort}
use hcloud_cloud_controller.Config.{LoadBalancerConfiguration}
use hcloud_cloud_controller.Annotation.{string_from_service}
use hcloud_cloud_controller.Annotation.Values.{lb_svc_protocol_from_service, from_service}
use hcloud_cloud_controller.Annotation.ServiceNames.{lb_svc_http_cookie_name}
use hcloud_cloud_controller.Hcops.{Error}
use hcloud_cloud_controller.Hcops.Services.Data.{Builder}
use hcloud_cloud_controller.Hcops.Services.Builder
use hcloud_cloud_controller.Hcops.Services.Builder.{
  initial_builder, with_cookie_name, with_domain, with_path, set_http, set_health, set_health_http,
  default_to, do_steps, extract, steps, health_check_steps, extract_health_check,
  extract_certificates, use_certificates, set_certificates, resolve_certs_by_name_or_id,
}
use hcloud_cloud_controller.Hcops.Services.Ports.{
  Gives, Gives-step, read-IsProtocol, Sound, Checked,
}

cookie_name-Sound :
    (port : ServicePort) (v : Option String) (b : Builder)
    → Sound port b
    → Sound port (with_cookie_name v b)
unfolding with_cookie_name set_http
cookie_name-Sound port none b h = h
cookie_name-Sound port (some v) b h = h

domain-Checked :
    (port : ServicePort) (v : Option String) (b : Builder)
    → Checked port b
    → Checked port (with_domain v b)
unfolding with_domain set_health_http
domain-Checked port none b h = h
domain-Checked port (some v) b h = h

path-Checked :
    (port : ServicePort) (v : Option String) (b : Builder)
    → Checked port b
    → Checked port (with_path v b)
unfolding with_path set_health_http
path-Checked port none b h = h
path-Checked port (some v) b h = h

default-Checked :
    (port : ServicePort) (n : ℤ) (set : ℤ → Builder) (b : Builder)
    → ((m : ℤ) → Checked port (set m))
    → Checked port b
    → Checked port (default_to n set b)
unfolding default_to
default-Checked port n set b hs h = if-Checked (int_eq n (pos 0))
  where
    if-Checked : (t : Bool) → Checked port (if t then b else set n)
    if-Checked true = h
    if-Checked false = hs n

module _ (E : Type 0) (to_lower : String → String) (parse_duration : String → Option Duration)
    (cfg : LoadBalancerConfiguration) (svc : Service) (port : ServicePort) where
  pub proxy_protocol-Sound :
      (b : Builder)
      → Sound port b
      → Gives
          (Sound port)
          (Builder.extract_proxy_protocol to_lower parse_duration cfg svc {E = E} b)
  unfolding Builder.extract_proxy_protocol
  proxy_protocol-Sound b h = Gives-step E (Sound port) _ _ _ (λ _ _. h) h

  pub protocol-Sound :
      (b : Builder)
      → Sound port b
      → Gives (Sound port) (Builder.extract_protocol to_lower parse_duration cfg svc {E = E} b)
  unfolding Builder.extract_protocol lb_svc_protocol_from_service from_service
  protocol-Sound b (l, d, p) =
      Gives-step E (Sound port) _ _ _ (λ q e. (l, d, read-IsProtocol to_lower _ q e)) (l, d, p)

  pub cookie-Sound :
      (b : Builder)
      → Sound port b
      → Gives (Sound port) (
          Builder.extract_cookie_lifetime to_lower parse_duration cfg svc {E = E}
            (Builder.extract_cookie_name to_lower parse_duration cfg svc b))
  unfolding Builder.extract_cookie_lifetime Builder.extract_cookie_name set_http
  cookie-Sound b h =
      let h' = cookie_name-Sound port (string_from_service lb_svc_http_cookie_name svc) b h in
      Gives-step E (Sound port) _ _ _ (λ _ _. h') h'

  pub timeout-Sound :
      (b : Builder)
      → Sound port b
      → Gives (Sound port) (Builder.extract_timeout_idle to_lower parse_duration cfg svc {E = E} b)
  unfolding Builder.extract_timeout_idle set_http
  timeout-Sound b h = Gives-step E (Sound port) _ _ _ (λ _ _. h) h

  pub redirect-Sound :
      (b : Builder)
      → Sound port b
      → Gives (Sound port) (Builder.extract_redirect_http to_lower parse_duration cfg svc {E = E} b)
  unfolding Builder.extract_redirect_http set_http
  redirect-Sound b h = Gives-step E (Sound port) _ _ _ (λ _ _. h) h

  pub sticky-Sound :
      (b : Builder)
      → Sound port b
      → Gives
          (Sound port)
          (Builder.extract_sticky_sessions to_lower parse_duration cfg svc {E = E} b)
  unfolding Builder.extract_sticky_sessions set_http
  sticky-Sound b h = Gives-step E (Sound port) _ _ _ (λ _ _. h) h

  pub health_protocol-Checked :
      (b : Builder)
      → Sound port b
      → Gives
          (Checked port)
          (Builder.extract_health_protocol to_lower parse_duration cfg svc {E = E} b)
  unfolding Builder.extract_health_protocol lb_svc_protocol_from_service from_service set_health
  health_protocol-Checked b (l, d, p) =
      Gives-step E (Checked port) _ _ _ (λ q e. ((l, d, p), read-IsProtocol to_lower _ q e))
        ((l, d, p), p)

  pub health_port-Checked :
      (b : Builder)
      → Checked port b
      → Gives (Checked port) (Builder.extract_health_port to_lower parse_duration cfg svc {E = E} b)
  unfolding Builder.extract_health_port set_health
  health_port-Checked b h = Gives-step E (Checked port) _ _ _ (λ _ _. h) h

  pub interval-Checked :
      (b : Builder)
      → Checked port b
      → Gives
          (Checked port)
          (Builder.extract_health_interval to_lower parse_duration cfg svc {E = E} b)
  unfolding Builder.extract_health_interval set_health
  interval-Checked b h =
      let set = λ (n : ℤ). set_health (λ o. record o { interval = some n }) b in
      Gives-step E (Checked port) _ set _ (λ _ _. h)
        (default-Checked port cfg.health_check_interval set b (λ _. h) h)

  pub health_timeout-Checked :
      (b : Builder)
      → Checked port b
      → Gives
          (Checked port)
          (Builder.extract_health_timeout to_lower parse_duration cfg svc {E = E} b)
  unfolding Builder.extract_health_timeout set_health
  health_timeout-Checked b h =
      let set = λ (n : ℤ). set_health (λ o. record o { timeout = some n }) b in
      Gives-step E (Checked port) _ set _ (λ _ _. h)
        (default-Checked port cfg.health_check_timeout set b (λ _. h) h)

  pub retries-Checked :
      (b : Builder)
      → Checked port b
      → Gives
          (Checked port)
          (Builder.extract_health_retries to_lower parse_duration cfg svc {E = E} b)
  unfolding Builder.extract_health_retries set_health
  retries-Checked b h =
      let set = λ (n : ℤ). set_health (λ o. record o { retries = some n }) b in
      Gives-step E (Checked port) _ set _ (λ _ _. h)
        (default-Checked port cfg.health_check_retries set b (λ _. h) h)

  pub tls-Checked :
      (b : Builder)
      → Checked port b
      → Gives (Checked port) (Builder.extract_health_tls to_lower parse_duration cfg svc {E = E} b)
  unfolding Builder.extract_health_tls set_health_http
  tls-Checked b h = Gives-step E (Checked port) _ _ _ (λ _ _. h) h

  pub codes-Checked :
      (b : Builder)
      → Checked port b
      → Gives
          (Checked port)
          (Builder.extract_status_codes to_lower parse_duration cfg svc {E = E} b)
  unfolding Builder.extract_status_codes set_health_http
  codes-Checked b h = Gives-step E (Checked port) _ _ _ (λ _ _. h) h

  pub http_steps-Checked :
      (r : Result (Error E) Builder)
      → Gives (Checked port) r
      → Gives (Checked port) (elim r [
        | err e ↦ err e
        | ok b ↦ Builder.extract_status_codes to_lower parse_duration cfg svc {E = E} b
      ])
  http_steps-Checked (ok c) g = codes-Checked c g
  http_steps-Checked (err e) g = tt

  if-Gives :
      (t : Bool) (b : Builder) (r : Result (Error E) Builder)
      → Checked port b
      → Gives (Checked port) r
      → Gives (Checked port) (if t then ok b else r)
  if-Gives true b r h g = h
  if-Gives false b r h g = g

  pub health_http-Checked :
      (b : Builder)
      → Checked port b
      → Gives (Checked port) (Builder.extract_health_http to_lower parse_duration cfg svc {E = E} b)
  unfolding Builder.extract_health_http
  health_http-Checked b h =
      if-Gives (b.health_check_opts.protocol == "tcp") b _ h
        (http_steps-Checked _ (tls-Checked _ (path-Checked port _ _ (domain-Checked port _ b h))))
