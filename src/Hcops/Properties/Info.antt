-- ===== src/Hcops/Properties/Info.antt =====
-- internal/hcops/load_balancer.go: `changeHCLBInfo` is settled after it has succeeded.
use hcloud_cloud_controller.Common.{
  Bool, false, Option, none, some, ◌≡◌, if◌then◌else◌, Result, ok, err, String, Eq-string, ◌==◌,
}
use hcloud_cloud_controller.Kube.{Service, LoadBalancer}
use hcloud_cloud_controller.Hcops.{Error}
use hcloud_cloud_controller.Hcops.Requests
use hcloud_cloud_controller.Hcops.Requests.{State}
use hcloud_cloud_controller.Hcops.Properties.{Client, UpdateOpts, needs_update}

-- The name in the options, or the old one if it is empty.
abbrev pub or_name : String → String → String
or_name name old = if name == "" then old else name

abbrev pub or_present : {A : Type 0} → Option A → A → A
or_present none a = a
or_present (some b) a = b

-- An accepted update sets what the options set and keeps the rest.
abbrev pub Updates : {W E : Type 0} → LoadBalancer → UpdateOpts → Result E LoadBalancer × W → Type 0
Updates lb opts (ok u, w) =
    (u.name ≡ or_name opts.name lb.name) × (u.labels ≡ or_present opts.labels lb.labels)
Updates lb opts (err _, w) = Unit

module _ {W E T Act Net Ip Cidr : Type 0} (req : Requests.Client W E T Act)
    (client : Client W E T Act Net Ip Cidr) (svc : Service) where
  abbrev SettledAfter : Result (Error E) (Bool × LoadBalancer) × State W T → Type 0
  SettledAfter (ok (_, lb'), _) = needs_update req client lb' svc ≡ false
  SettledAfter (err _, _) = Unit
