-- ===== src/Tests/ServiceSync.antt =====
-- internal/hcops/load_balancer.go: `ReconcileHCLBServices` for a load balancer with one listen port
-- that the service keeps and one that it does not have any more.
use hcloud_cloud_controller.Common.{
  ℕ, pos, String, Bool, true, false, Option, none, some, [], ◌∷◌, ◌≡◌, refl, ok, if◌then◌else◌,
  nat_eq, nat_eq_iff, arith, Duration, Eq-string, Eq-nat, mem, include, lookup, IsOk,
}
use hcloud_cloud_controller.Kube.{Service, ServicePort, LoadBalancer}
use hcloud_cloud_controller.Config.{LoadBalancerConfiguration}
use hcloud_cloud_controller.Annotation.{
  string_from_service, bool_from_service, bool_of_value, parse_bool,
}
use hcloud_cloud_controller.Annotation.ServiceNames.{lb_svc_protocol, lb_svc_health_check_http_path}
use hcloud_cloud_controller.Annotation.Values.{
  apply_to_value, from_service, duration_from_service, int_from_service, strings_from_service,
  certificates_from_service, lb_svc_protocol_from_service, validate_service_protocol, atoi, split,
  extend,
}
use hcloud_cloud_controller.Hcops.Certificates.{
  CertClient, api_call, known, is_managed, reconcile_managed_certificate,
}
use hcloud_cloud_controller.Hcops.Services.Data.{ServiceClient, AddServiceOpts}
use hcloud_cloud_controller.Hcops.Services.Builder.{
  step, set_http, set_health, set_health_http, with_cookie_name, with_domain, with_path, default_to,
  extract_proxy_protocol, extract_protocol, extract_cookie_name, extract_cookie_lifetime,
  extract_timeout_idle, extract_redirect_http, extract_sticky_sessions, extract_health_protocol,
  extract_health_port, extract_health_interval, extract_health_timeout, extract_health_retries,
  extract_health_tls, extract_status_codes, extract_health_http, do_steps, local,
  health_check_steps, extract_health_check, resolve_cert, resolve_certs_by_name_or_id,
  set_certificates, use_certificates, extract_certificates, steps, extract,
}
use hcloud_cloud_controller.Hcops.Services.Options.{
  port_or, is_http, add_opts, update_opts, build_add_service_opts, build_update_service_opts,
}
use hcloud_cloud_controller.Hcops.Services.{
  is_tcp, exclude, port_set, update_port, add_port, sync_port, skip, sync_ports, delete_ports,
  reconcile_hclb_services,
}
use hcloud_cloud_controller.Hcops.Services.Kept.{CertKeeps}
use hcloud_cloud_controller.Hcops.Services.Wanted.{forwarded}
use hcloud_cloud_controller.Hcops.Services.Valid.{
  Fits, as_update_result, build_add_service_opts-Fits, build_update_service_opts_agrees,
}
use hcloud_cloud_controller.Hcops.Services.Forwarding.{reconcile_hclb_services_forwards}
use hcloud_cloud_controller.Hcops.Services.Calls.{ServiceLaws}
use hcloud_cloud_controller.Hcops.Services.Success.{Accepts, reconcile_hclb_services_succeeds}

-- The destination of each listen port.
abbrev World : Type 0
World = ℕ → Option ℕ

abbrev certs : CertClient World String (Unit {0})
certs = record {
  get = λ id w. (ok none, w);
  all_with_label = λ k v w. (ok [], w);
  create_certificate = λ o w. (ok tt, w);
  wait_for = λ a w. (ok tt, w);
  is_uniqueness_error = λ e. false;
}

abbrev client : ServiceClient World String (Unit {0})
client = record {
  add_service =
      λ id o w. (ok tt, λ p. if nat_eq o.listen_port p then some o.destination_port else w p);
  update_service = λ id q o w. (ok tt, λ p. if nat_eq q p then some o.destination_port else w p);
  delete_service = λ id q w. (ok tt, λ p. if nat_eq q p then none else w p);
  wait_for = λ a w. (ok tt, w);
  unsupported_protocol = λ n w. w;
  range = λ s. s;
}

abbrev lower : String → String
lower s = s

abbrev duration : String → Option Duration
duration s = none

abbrev cfg : LoadBalancerConfiguration
cfg = record {
  algorithm_type = "";
  disable_public_network = none;
  enabled = true;
  health_check_interval = pos 15_000_000_000;
  health_check_retries = pos 0;
  health_check_timeout = pos 0;
  ipv6_enabled = true;
  location = "fsn1";
  network_zone = "";
  private_ingress_enabled = true;
  private_ip_enabled = false;
  private_subnet_ip_range = "";
  proxy_protocol_enabled = none;
  type = "";
}

abbrev lb : LoadBalancer
lb = record {
  id = pos 1;
  name = "lb";
  labels = [];
  public_net = record {
    enabled = true;
    ipv4 = "1.2.3.4";
    ipv4_dns_ptr = "";
    ipv6 = "2001:db8::1";
    ipv6_dns_ptr = "";
  };
  private_net = [];
  algorithm_type = "round_robin";
  type_name = "lb11";
  max_targets = 25;
  targets = [];
  listen_ports = 443 ∷ 8080 ∷ [];
  protected_from_delete = false;
}

abbrev https : ServicePort
https = record { port = 443; node_port = 30443; protocol = "TCP" }

abbrev svc : Service
svc = record {
  name = "web";
  uid = "uid-1";
  annotations = (lb_svc_protocol, "http") ∷ (lb_svc_health_check_http_path, "/ready") ∷ [];
  ports =
      record { port = 80; node_port = 30080; protocol = "" }
      ∷ record { port = 53; node_port = 30053; protocol = "UDP" }
      ∷ https
      ∷ [];
}

abbrev before : World
before p = if nat_eq p 443 then some 1 else (if nat_eq p 8080 then some 2 else none)

keeps : (P : World → Type 0) → CertKeeps P certs
keeps P = record {
  get = λ id w h. h;
  all_with_label = λ k v w h. h;
  create_certificate = λ o w h. h;
  wait_for = λ a w h. h;
}

laws : ServiceLaws (pos 1) (λ (w : World). w) certs client
laws = record {
  certificates = λ p d. keeps (λ w. w p ≡ d);
  add_service = λ o w a p e. refl;
  update_service = λ q o w a p e. refl;
  delete_service = λ q w a p e. refl;
  wait_for = λ a w. refl;
  unsupported_protocol = λ n w. refl;
  range = λ s p. refl;
}

accepts : Accepts (pos 1) client
accepts = record {
  add_service = λ o w. tt;
  update_service = λ q o w. tt;
  delete_service = λ q w. tt;
  wait_for = λ a w. tt;
}

reading : Unit {0}
unfolding lookup string_from_service bool_from_service bool_of_value parse_bool apply_to_value
    from_service duration_from_service int_from_service strings_from_service
    certificates_from_service lb_svc_protocol_from_service validate_service_protocol atoi split
    extend api_call known is_managed step set_http set_health set_health_http with_cookie_name
    with_domain with_path default_to extract_proxy_protocol extract_protocol extract_cookie_name
    extract_cookie_lifetime extract_timeout_idle extract_redirect_http extract_sticky_sessions
    extract_health_protocol extract_health_port extract_health_interval extract_health_timeout
    extract_health_retries extract_health_tls extract_status_codes extract_health_http do_steps
    local health_check_steps extract_health_check resolve_cert resolve_certs_by_name_or_id
    set_certificates use_certificates extract_certificates steps extract port_or is_http add_opts
    update_opts build_add_service_opts build_update_service_opts
reading = tt

syncing : Unit {0}
unfolding reading mem include reconcile_managed_certificate is_tcp exclude port_set update_port
    add_port sync_port skip sync_ports delete_ports reconcile_hclb_services
syncing = tt

before-listed : (p : ℕ) → mem p (443 ∷ 8080 ∷ []) ≡ false → before p ≡ none
unfolding mem
before-listed p h = ground (arith, nat_eq_iff p 443, nat_eq_iff p 8080)

abbrev after : World
after = (reconcile_hclb_services lower duration cfg certs client lb svc before).1

reconciled :
    reconcile_hclb_services lower duration cfg certs client lb svc before ≡ (ok true, after)
unfolding syncing
reconciled = refl

reconcile_hclb_services_forwards_example : after 443 ≡ forwarded svc.ports 443
reconcile_hclb_services_forwards_example =
    reconcile_hclb_services_forwards lower duration cfg certs client lb svc (λ (w : World). w) laws
      443 before true after (before-listed 443) reconciled

after_kept : after 443 ≡ some 30443
unfolding syncing
after_kept = refl

after_deleted : after 8080 ≡ none
unfolding syncing
after_deleted = refl

after_skipped : after 53 ≡ none
unfolding syncing
after_skipped = refl

builds : (port : ServicePort) (w : World) → IsOk (extract lower duration cfg svc certs port w)
unfolding reading
builds port w = tt

no_certificate : IsOk (reconcile_managed_certificate certs svc before)
unfolding syncing
no_certificate = tt

reconcile_hclb_services_succeeds_example :
    (changed : Bool) × (w' : World) × (reconcile_hclb_services lower duration cfg certs client lb
        svc before
      ≡ (ok changed, w'))
    × ((p : ℕ) → w' p ≡ forwarded svc.ports p)
reconcile_hclb_services_succeeds_example =
    reconcile_hclb_services_succeeds lower duration cfg certs client lb svc accepts builds
      (λ (w : World). w) laws before no_certificate before-listed

-- The options for the port 443: the health check has the protocol of the service.
abbrev expected : AddServiceOpts
expected = record {
  listen_port = 443;
  destination_port = 30443;
  protocol = "http";
  proxyprotocol = none;
  http = none;
  health_check = record {
    protocol = "http";
    port = pos 30443;
    interval = some (pos 15_000_000_000);
    timeout = none;
    retries = none;
    http = some (record { domain = none; path = some "/ready"; status_codes = []; tls = none });
  };
}

built : build_add_service_opts lower duration cfg certs svc https before ≡ (ok expected, before)
unfolding reading
built = refl

build_add_service_opts-Fits_example : Fits https expected
build_add_service_opts-Fits_example =
    build_add_service_opts-Fits lower duration cfg certs svc https before expected before built

build_update_service_opts_agrees_example :
    build_update_service_opts lower duration cfg certs svc https before ≡ (
      as_update_result (build_add_service_opts lower duration cfg certs svc https before).0,
      (build_add_service_opts lower duration cfg certs svc https before).1,
    )
build_update_service_opts_agrees_example =
    build_update_service_opts_agrees lower duration cfg certs svc https before
