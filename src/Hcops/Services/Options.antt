-- ===== src/Hcops/Services/Options.antt =====
-- internal/hcops/load_balancer.go: `buildAddServiceOpts` and `buildUpdateServiceOpts`.
use hcloud_cloud_controller.Common.{
  ℕ, ℤ, pos, String, Bool, ◌||◌, Option, none, some, if◌then◌else◌, Exec, ◌>>=◌, pure, Duration,
  ◌==◌, Eq-string,
}
use hcloud_cloud_controller.Kube.{Service, ServicePort}
use hcloud_cloud_controller.Config.{LoadBalancerConfiguration}
use hcloud_cloud_controller.Hcops.{Error}
use hcloud_cloud_controller.Hcops.Certificates.{CertClient}
use hcloud_cloud_controller.Hcops.Services.Data.{Builder, AddServiceOpts, UpdateServiceOpts}
use hcloud_cloud_controller.Hcops.Services.Builder.{extract}

unfoldable pub port_or : ℕ → Option ℤ → ℤ
port_or destination none = pos destination
port_or destination (some p) = p

unfoldable pub is_http : String → Bool
is_http p = p == "http" || p == "https"

unfoldable pub add_opts : Builder → AddServiceOpts
unfolding port_or is_http
add_opts b =
    let h = b.health_check_opts in
    record {
      listen_port = b.listen_port;
      destination_port = b.destination_port;
      protocol = b.protocol;
      proxyprotocol = b.proxy_protocol;
      http = if b.add_http then some b.http_opts else none;
      health_check =
          if b.add_health_check
          then record {
            protocol = h.protocol;
            port = port_or b.destination_port h.port;
            interval = h.interval;
            timeout = h.timeout;
            retries = h.retries;
            http = if is_http h.protocol then some h.http_opts else none;
          }
          else record {
            protocol = "tcp";
            port = pos b.destination_port;
            interval = none;
            timeout = none;
            retries = none;
            http = none;
          };
    }

unfoldable pub update_opts : Builder → UpdateServiceOpts
unfolding port_or is_http
update_opts b =
    let h = b.health_check_opts in
    record {
      destination_port = b.destination_port;
      protocol = b.protocol;
      proxyprotocol = b.proxy_protocol;
      http = if b.add_http then some b.http_opts else none;
      health_check =
          if b.add_health_check
          then record {
            protocol = h.protocol;
            port = port_or b.destination_port h.port;
            interval = h.interval;
            timeout = h.timeout;
            retries = h.retries;
            http = if is_http h.protocol then some h.http_opts else none;
          }
          else record {
            protocol = "tcp";
            port = pos b.destination_port;
            interval = none;
            timeout = none;
            retries = none;
            http = none;
          };
    }

module _ {W E Act : Type 0} (to_lower : String → String) (parse_duration : String → Option Duration)
    (cfg : LoadBalancerConfiguration) (certs : CertClient W E Act) (svc : Service)
    (port : ServicePort) where
  unfoldable pub build_add_service_opts : Exec W (Error E) AddServiceOpts
  unfolding extract add_opts
  build_add_service_opts = do
    b ← extract to_lower parse_duration cfg svc certs port
    pure (add_opts b)

  unfoldable pub build_update_service_opts : Exec W (Error E) UpdateServiceOpts
  unfolding extract update_opts
  build_update_service_opts = do
    b ← extract to_lower parse_duration cfg svc certs port
    pure (update_opts b)
