-- ===== src/Annotation/ServiceNames.antt =====
-- internal/annotation/load_balancer.go: the names of the annotations of a load balancer's services.
use hcloud_cloud_controller.Annotation.{Name}

abbrev pub lb_svc_protocol : Name
lb_svc_protocol = "load-balancer.hetzner.cloud/protocol"

abbrev pub lb_svc_http_cookie_name : Name
lb_svc_http_cookie_name = "load-balancer.hetzner.cloud/http-cookie-name"

abbrev pub lb_svc_http_cookie_lifetime : Name
lb_svc_http_cookie_lifetime = "load-balancer.hetzner.cloud/http-cookie-lifetime"

abbrev pub lb_svc_http_timeout_idle : Name
lb_svc_http_timeout_idle = "load-balancer.hetzner.cloud/http-timeout-idle"

abbrev pub lb_svc_http_certificate_type : Name
lb_svc_http_certificate_type = "load-balancer.hetzner.cloud/certificate-type"

abbrev pub lb_svc_http_certificates : Name
lb_svc_http_certificates = "load-balancer.hetzner.cloud/http-certificates"

abbrev pub lb_svc_http_managed_certificate_name : Name
lb_svc_http_managed_certificate_name = "load-balancer.hetzner.cloud/http-managed-certificate-name"

abbrev pub lb_svc_http_managed_certificate_use_acme_staging : Name
lb_svc_http_managed_certificate_use_acme_staging =
    "load-balancer.hetzner.cloud/http-managed-certificate-acme-staging"

abbrev pub lb_svc_http_managed_certificate_domains : Name
lb_svc_http_managed_certificate_domains =
    "load-balancer.hetzner.cloud/http-managed-certificate-domains"

abbrev pub lb_svc_redirect_http : Name
lb_svc_redirect_http = "load-balancer.hetzner.cloud/http-redirect-http"

abbrev pub lb_svc_http_sticky_sessions : Name
lb_svc_http_sticky_sessions = "load-balancer.hetzner.cloud/http-sticky-sessions"

abbrev pub lb_svc_health_check_protocol : Name
lb_svc_health_check_protocol = "load-balancer.hetzner.cloud/health-check-protocol"

abbrev pub lb_svc_health_check_port : Name
lb_svc_health_check_port = "load-balancer.hetzner.cloud/health-check-port"

abbrev pub lb_svc_health_check_interval : Name
lb_svc_health_check_interval = "load-balancer.hetzner.cloud/health-check-interval"

abbrev pub lb_svc_health_check_timeout : Name
lb_svc_health_check_timeout = "load-balancer.hetzner.cloud/health-check-timeout"

abbrev pub lb_svc_health_check_retries : Name
lb_svc_health_check_retries = "load-balancer.hetzner.cloud/health-check-retries"

abbrev pub lb_svc_health_check_http_domain : Name
lb_svc_health_check_http_domain = "load-balancer.hetzner.cloud/health-check-http-domain"

abbrev pub lb_svc_health_check_http_path : Name
lb_svc_health_check_http_path = "load-balancer.hetzner.cloud/health-check-http-path"

abbrev pub lb_svc_health_check_http_validate_certificate : Name
lb_svc_health_check_http_validate_certificate =
    "load-balancer.hetzner.cloud/health-check-http-validate-certificate"

abbrev pub lb_svc_health_check_http_status_codes : Name
lb_svc_health_check_http_status_codes = "load-balancer.hetzner.cloud/http-status-codes"
