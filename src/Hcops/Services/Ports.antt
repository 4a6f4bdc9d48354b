-- ===== src/Hcops/Services/Ports.antt =====
-- internal/hcops/load_balancer.go: conditions on the fields of `hclbServiceOptsBuilder`, and how a
-- list of its steps keeps them.
use hcloud_cloud_controller.Common.{
  String, Option, none, some, List, [], ◌∷◌, ◌≡◌, refl, Duration, All, Result, ok, err, Returns,
  Returns-bind, ◌⊎◌, inl, inr, ◌==◌, Eq, Eq-string, Bool-cases, Option-cases, sym,
}
use hcloud_cloud_controller.Kube.{Service, ServicePort}
use hcloud_cloud_controller.Config.{LoadBalancerConfiguration}
use hcloud_cloud_controller.Annotation.{AnnotationError, not_set, invalid}
use hcloud_cloud_controller.Annotation.Values.{apply_to_value, validate_service_protocol}
use hcloud_cloud_controller.Hcops.{Error}
use hcloud_cloud_controller.Hcops.Certificates.{CertClient, known}
use hcloud_cloud_controller.Hcops.Services.Data.{Builder}
use hcloud_cloud_controller.Hcops.Services.Builder
use hcloud_cloud_controller.Hcops.Services.Builder.{Step, do_steps, step}

-- `r` gives only builders with `I`.
abbrev pub Gives : {E : Type 0} → (Builder → Type 0) → Result E Builder → Type 0
Gives I (ok b) = I b
Gives I (err c) = Unit

pub Gives-step :
    (E : Type 0) {A : Type 0} (I : Builder → Type 0) (r : Result AnnotationError A)
    (set : A → Builder) (otherwise : Builder)
    → ((a : A) → r ≡ ok a → I (set a))
    → I otherwise
    → Gives {E = Error E} I (step r set otherwise)
unfolding step
Gives-step E I (ok a) set otherwise hs ho = hs a refl
Gives-step E I (err not_set) set otherwise hs ho = ho
Gives-step E I (err invalid) set otherwise hs ho = tt

abbrev pub IsProtocol : String → Type 0
IsProtocol p = (p ≡ "tcp") ⊎ ((p ≡ "http") ⊎ (p ≡ "https"))

validated-IsProtocol :
    (to_lower : String → String) (v p : String)
    → validate_service_protocol to_lower v ≡ some p
    → IsProtocol p
unfolding validate_service_protocol
validated-IsProtocol to_lower v p e = elim (Bool-cases (to_lower v == "tcp")) [
  | inl tcp ↦
      inl (let e' = rw tcp at e in let same = (keys.test_iff (to_lower v) "tcp").0 tcp in cc)
  | inr other ↦ elim (Bool-cases (to_lower v == "https")) [
    | inl https ↦ inr (
        inr (
          let e' = rw (other, https) at e in
          let same = (keys.test_iff (to_lower v) "https").0 https in cc))
    | inr other₂ ↦ elim (Bool-cases (to_lower v == "http")) [
      | inl http ↦ inr (
          inl (
            let e' = rw (other, other₂, http) at e in
            let same = (keys.test_iff (to_lower v) "http").0 http in cc))
      | inr other₃ ↦ absurd (let e' = rw (other, other₂, other₃) at e in cc)
    ]
  ]
]
  where
    keys : Eq String
    keys = Eq-string

pub read-IsProtocol :
    (to_lower : String → String) (v : Option String) (p : String)
    → apply_to_value (validate_service_protocol to_lower) v ≡ ok p
    → IsProtocol p
unfolding apply_to_value
read-IsProtocol to_lower none p e = absurd cc
read-IsProtocol to_lower (some v) p e = elim (Option-cases (validate_service_protocol to_lower v)) [
  | inl failed ↦ absurd (let e' = rw (failed, apply_to_value) at e in cc)
  | inr (q, found) ↦
      let e' = rw (found, apply_to_value) at e in
      let same : q ≡ p = cc in rw (sym same) (validated-IsProtocol to_lower v q found)
]

-- The ports of the builder and its protocol.
abbrev pub Sound : ServicePort → Builder → Type 0
Sound port b =
    (b.listen_port ≡ port.port) × (b.destination_port ≡ port.node_port) × IsProtocol b.protocol

abbrev pub Checked : ServicePort → Builder → Type 0
Checked port b = Sound port b × IsProtocol b.health_check_opts.protocol

module _ {W E Act : Type 0} (to_lower : String → String) (parse_duration : String → Option Duration)
    (cfg : LoadBalancerConfiguration) (svc : Service) (certs : CertClient W E Act) where
  -- The step turns builders with `I` into builders with `J`.
  abbrev pub Leads :
      (Builder → Type 0) → (Builder → Type 0) → Step to_lower parse_duration cfg svc certs → Type 0
  Leads I J f = (b : Builder) (w : W) → I b → Returns (λ c _. J c) (f b w)

  pub Leads-do_steps :
      (I : Builder → Type 0) (fs : List (Step to_lower parse_duration cfg svc certs))
      → All (Leads I I) fs
      → Leads I I (do_steps to_lower parse_duration cfg svc certs fs)
  unfolding do_steps
  Leads-do_steps I [] hs b w h = h
  Leads-do_steps I (f ∷ fs) (hf, hs) b w h =
      Returns-bind (λ c _. I c) (λ c _. I c) (f b)
        (do_steps to_lower parse_duration cfg svc certs fs) w (hf b w h)
        (λ c v. Leads-do_steps I fs hs c v)

  pub Leads-local :
      (I J : Builder → Type 0) (f : Builder → Result (Error E) Builder)
      → ((b : Builder) → I b → Gives J (f b))
      → Leads I J (Builder.local to_lower parse_duration cfg svc certs f)
  unfolding Builder.local known
  Leads-local I J f h b w i = Returns-of (f b) w (h b i)
    where
      Returns-of : (r : Result (Error E) Builder) (w : W) → Gives J r → Returns (λ c _. J c) (r, w)
      Returns-of (ok c) w g = g
      Returns-of (err c) w g = tt
