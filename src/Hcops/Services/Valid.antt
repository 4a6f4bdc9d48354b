-- ===== src/Hcops/Services/Valid.antt =====
-- internal/hcops/load_balancer.go: what `buildAddServiceOpts` and `buildUpdateServiceOpts` build.
use mathlib.Core.Path.{subst}
use hcloud_cloud_controller.Common.{
  String, true, false, Option, none, some, ◌≡◌, refl, ◌↔◌, inr, Duration, if◌then◌else◌, Result, ok,
  err, pure, continue, Returns, Returns-bind, inl,
}
use hcloud_cloud_controller.Kube.{Service, ServicePort}
use hcloud_cloud_controller.Config.{LoadBalancerConfiguration}
use hcloud_cloud_controller.Hcops.{Error}
use hcloud_cloud_controller.Hcops.Certificates.{CertClient}
use hcloud_cloud_controller.Hcops.Services.Data.{Builder, AddServiceOpts, UpdateServiceOpts}
use hcloud_cloud_controller.Hcops.Services.Builder.{extract}
use hcloud_cloud_controller.Hcops.Services.Options.{
  add_opts, update_opts, is_http, build_add_service_opts, build_update_service_opts,
}
use hcloud_cloud_controller.Hcops.Services.Ports.{IsProtocol, Checked}
use hcloud_cloud_controller.Hcops.Services.Sound.{extract-Checked}

-- The ports are the service port's, both protocols are known ones, and the health check has options
-- for HTTP exactly if its protocol is not TCP.
abbrev pub Fits : ServicePort → AddServiceOpts → Type 0
Fits port opts =
    (opts.listen_port ≡ port.port)
    × (opts.destination_port ≡ port.node_port)
    × IsProtocol opts.protocol
    × IsProtocol opts.health_check.protocol
    × ((opts.health_check.http ≡ none) ↔ (opts.health_check.protocol ≡ "tcp"))

none_iff_tcp :
    {A : Type 0} (p : String) (a : A)
    → IsProtocol p
    → ((if is_http p then some a else none) ≡ none) ↔ (p ≡ "tcp")
unfolding is_http
none_iff_tcp p a (inl tcp) = rw tcp (λ h. refl, λ h. refl)
none_iff_tcp p a (inr (inl http)) = rw http (λ h. absurd cc, λ h. absurd cc)
none_iff_tcp p a (inr (inr https)) = rw https (λ h. absurd cc, λ h. absurd cc)

pub add_opts-Fits : (port : ServicePort) (b : Builder) → Checked port b → Fits port (add_opts b)
unfolding add_opts is_http
add_opts-Fits port b ((l, d, p), h) =
    elim b.add_health_check as (λ t. Fits port (add_opts (record b { add_health_check = t }))) [
      | true ↦
          (l, d, p, h, none_iff_tcp b.health_check_opts.protocol b.health_check_opts.http_opts h)
      | false ↦ (l, d, p, inl refl, (λ e. refl, λ e. refl))
    ]

abbrev as_update : AddServiceOpts → UpdateServiceOpts
as_update o = record {
  destination_port = o.destination_port;
  protocol = o.protocol;
  proxyprotocol = o.proxyprotocol;
  http = o.http;
  health_check = o.health_check;
}

-- The options for an update that go with the ones for an addition.
abbrev pub as_update_result : {E : Type 0} → Result E AddServiceOpts → Result E UpdateServiceOpts
as_update_result (ok o) = ok (as_update o)
as_update_result (err e) = err e

module _ {W E Act : Type 0} (to_lower : String → String) (parse_duration : String → Option Duration)
    (cfg : LoadBalancerConfiguration) (certs : CertClient W E Act) (svc : Service)
    (port : ServicePort) where
  pub build_add-Fits :
      (w : W)
      → Returns
          (λ o _. Fits port o)
          (build_add_service_opts to_lower parse_duration cfg certs svc port w)
  unfolding build_add_service_opts
  build_add-Fits w =
      Returns-bind (λ b _. Checked port b) (λ o _. Fits port o)
        (extract to_lower parse_duration cfg svc certs port) (λ b. pure (add_opts b)) w
        (extract-Checked E to_lower parse_duration cfg svc port certs w)
        (λ b v h. add_opts-Fits port b h)

  -- If `buildAddServiceOpts` succeeds, its options have the ports of the service port, a protocol
  -- and a protocol of the health check that are `tcp`, `http` or `https`, and options of the health
  -- check for HTTP exactly if its protocol is not `tcp`.
  pub build_add_service_opts-Fits :
      (w : W) (opts : AddServiceOpts) (w' : W)
      → build_add_service_opts to_lower parse_duration cfg certs svc port w ≡ (ok opts, w')
      → Fits port opts
  build_add_service_opts-Fits w opts w' e =
      subst (λ (x : Result (Error E) AddServiceOpts × W). Returns (λ o _. Fits port o) x) e
        (build_add-Fits w)

  opts_agree :
      (x : Result (Error E) Builder × W)
      → continue x.0 (λ b. pure {E = Error E} (update_opts b)) x.1 ≡ (
        as_update_result (continue x.0 (λ b. pure {E = Error E} (add_opts b)) x.1).0,
        (continue x.0 (λ b. pure {E = Error E} (add_opts b)) x.1).1,
      )
  unfolding add_opts update_opts
  opts_agree (ok b, w) = refl
  opts_agree (err c, w) = refl

  -- `buildUpdateServiceOpts` is the reading of the annotations by `buildAddServiceOpts`, with the
  -- same calls of the API and the same errors: where they succeed, the options differ in the listen
  -- port alone, which an update does not have.
  pub build_update_service_opts_agrees :
      (w : W)
      → build_update_service_opts to_lower parse_duration cfg certs svc port w ≡ (
        as_update_result (build_add_service_opts to_lower parse_duration cfg certs svc port w).0,
        (build_add_service_opts to_lower parse_duration cfg certs svc port w).1,
      )
  unfolding build_add_service_opts build_update_service_opts
  build_update_service_opts_agrees w =
      opts_agree (extract to_lower parse_duration cfg svc certs port w)
