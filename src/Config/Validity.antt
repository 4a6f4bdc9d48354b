-- ===== src/Config/Validity.antt =====
-- internal/config/config.go: what holds of settings that are valid.
use hcloud_cloud_controller.Common.{
  text_iff, text_ne, String, Bool, true, false, ◌&&◌, not, List, [], ◌∷◌, ◌≡◌, ◌≢◌, ◌↔◌, ◌⊎◌, inl,
  inr, refl, All, Bool-cases, ◌==◌, Eq-string, arith,
}
use hcloud_cloud_controller.Cache.{Mode, all, one, off, unknown}
use hcloud_cloud_controller.Config.{HccmConfiguration}
use hcloud_cloud_controller.Config.Validation.{
  Invalid, validate, checks, report, is_mode, is_address_family, differ,
  parse_load_balancer_algorithm_type, is_none,
}

report-nil :
    (cs : List (Bool × Invalid)) → (report cs ≡ []) ↔ All (λ (c : Bool × Invalid). c.0 ≡ false) cs
unfolding report
report-nil [] = (λ e. tt, λ t. refl)
report-nil ((true, x) ∷ cs) = (λ e. absurd cc, λ h. absurd (let e = h.0 in cc))
report-nil ((false, x) ∷ cs) = let (to, from) = report-nil cs in (λ e. (refl, to e), λ h. from h.1)

module _ (trim_space to_lower : String → String) (is_cidr : String → Bool) where
  -- The algorithm's name is one of the two, up to case and surrounding space.
  abbrev IsAlgorithm : String → Type 0
  IsAlgorithm s =
      (to_lower (trim_space s) ≡ "round_robin") ⊎ (to_lower (trim_space s) ≡ "least_connections")

  pub record IsValid (c : HccmConfiguration) : Type 0 where
    pub has_token : c.hcloud_client.token ≢ ""
    pub family :
        (c.instance_configuration.address_family ≡ "dualstack")
        ⊎ ((c.instance_configuration.address_family ≡ "ipv4")
            ⊎ (c.instance_configuration.address_family ≡ "ipv6"))
    pub known_mode :
        (c.server_cache.mode ≡ all) ⊎ ((c.server_cache.mode ≡ one) ⊎ (c.server_cache.mode ≡ off))
    pub one_place : (c.load_balancer.location ≡ "") ⊎ (c.load_balancer.network_zone ≡ "")
    pub subnet :
        (c.load_balancer.private_subnet_ip_range ≡ "")
        ⊎ (is_cidr c.load_balancer.private_subnet_ip_range ≡ true)
    pub algorithm :
        (c.load_balancer.algorithm_type ≡ "") ⊎ IsAlgorithm c.load_balancer.algorithm_type
    pub credentials : c.robot.enabled ≡ true → (c.robot.user ≡ "") ↔ (c.robot.password ≡ "")
    pub no_routes : c.robot.enabled ≡ true → c.route.enabled ≡ false

  family_ok :
      (f : String)
      → (not (is_address_family f) ≡ false) ↔ ((f ≡ "dualstack") ⊎ ((f ≡ "ipv4") ⊎ (f ≡ "ipv6")))
  unfolding is_address_family
  family_ok f = (
    λ h. elim (Bool-cases (f == "dualstack")) [
      | inl a ↦ inl ((text_iff f "dualstack").0 a)
      | inr na ↦ elim (Bool-cases (f == "ipv4")) [
        | inl b ↦ inr (inl ((text_iff f "ipv4").0 b))
        | inr nb ↦ inr (inr ((text_iff f "ipv6").0 (let h' = rw (na, nb) at h in ground arith)))
      ]
    ],
    λ h. elim h [
      | inl a ↦ rw ((text_iff f "dualstack").1 a) refl
      | inr (inl b) ↦ rw ((text_iff f "ipv4").1 b) (ground arith)
      | inr (inr c) ↦ rw ((text_iff f "ipv6").1 c) (ground arith)
    ],
  )

  mode_ok : (m : Mode) → (not (is_mode m) ≡ false) ↔ ((m ≡ all) ⊎ ((m ≡ one) ⊎ (m ≡ off)))
  unfolding is_mode
  mode_ok all = (λ h. inl refl, λ h. refl)
  mode_ok one = (λ h. inr (inl refl), λ h. refl)
  mode_ok off = (λ h. inr (inr refl), λ h. refl)
  mode_ok (unknown s) = (
    λ h. absurd cc,
    λ h. elim h [ inl a ↦ absurd cc | inr (inl b) ↦ absurd cc | inr (inr c) ↦ absurd cc ],
  )

  one_ok : (s t : String) → ((not (s == "") && not (t == "")) ≡ false) ↔ ((s ≡ "") ⊎ (t ≡ ""))
  one_ok s t = (
    λ h. elim (Bool-cases (s == "")) [
      | inl a ↦ inl ((text_iff s "").0 a)
      | inr na ↦ inr ((text_iff t "").0 (let h' = rw na at h in ground arith))
    ],
    λ h. elim h [
      | inl a ↦ rw ((text_iff s "").1 a) refl
      | inr b ↦ rw ((text_iff t "").1 b) (ground arith)
    ],
  )

  unless_empty :
      {P : Type 0} (s : String) (t : Bool)
      → (t ≡ false) ↔ P
      → ((not (s == "") && t) ≡ false) ↔ ((s ≡ "") ⊎ P)
  unless_empty s t (to, from) = (
    λ h. elim (Bool-cases (s == "")) [
      | inl a ↦ inl ((text_iff s "").0 a)
      | inr na ↦ inr (to (let h' = rw na at h in ground arith))
    ],
    λ h. elim h [ inl a ↦ rw ((text_iff s "").1 a) refl | inr p ↦ rw (from p) (ground arith) ],
  )

  undo_not : (b : Bool) → (not b ≡ false) ↔ (b ≡ true)
  undo_not b = (λ h. ground arith, λ h. ground arith)

  when_enabled : {P : Type 0} (b t : Bool) → (t ≡ false) ↔ P → ((b && t) ≡ false) ↔ (b ≡ true → P)
  when_enabled true t (to, from) = (λ h _. to h, λ h. from (h refl))
  when_enabled false t (to, from) = (λ h e. absurd cc, λ h. refl)

  both_or_none : (s t : String) → (differ (s == "") (t == "") ≡ false) ↔ ((s ≡ "") ↔ (t ≡ ""))
  unfolding differ
  both_or_none s t = (
    λ h. (
      λ e. (text_iff t "").0 (let k = (text_iff s "").1 e in let h' = rw k at h in ground arith),
      λ e. (text_iff s "").0 (let k = (text_iff t "").1 e in let h' = rw k at h in ground arith),
    ),
    λ (to, from). elim (Bool-cases (s == "")) [
      | inl a ↦ rw (a, (text_iff t "").1 (to ((text_iff s "").0 a))) refl
      | inr na ↦ elim (Bool-cases (t == "")) [
        | inl b ↦ absurd (let k = (text_iff s "").1 (from ((text_iff t "").0 b)) in cc)
        | inr nb ↦ rw (na, nb) refl
      ]
    ],
  )

  parsed :
      (s : String)
      → (is_none trim_space to_lower is_cidr
            (parse_load_balancer_algorithm_type trim_space to_lower is_cidr s)
          ≡ false)
        ↔ IsAlgorithm s
  unfolding is_none parse_load_balancer_algorithm_type
  parsed s = (
    λ h. elim (Bool-cases (to_lower (trim_space s) == "round_robin")) [
      | inl a ↦ inl ((text_iff _ "round_robin").0 a)
      | inr na ↦ elim (Bool-cases (to_lower (trim_space s) == "least_connections")) [
        | inl b ↦ inr ((text_iff _ "least_connections").0 b)
        | inr nb ↦ absurd (let h' = rw (na, nb) at h in cc)
      ]
    ],
    λ h. elim h [ inl a ↦ rw a refl | inr b ↦ rw b refl ],
  )

  passed :
      (c : HccmConfiguration)
      → All (λ (x : Bool × Invalid). x.0 ≡ false) (checks trim_space to_lower is_cidr c)
      → IsValid c
  unfolding checks
  passed c (a₁, (a₂, (a₃, (a₄, (a₅, (a₆, (a₇, (a₈, _)))))))) =
      let lb = c.load_balancer in
      record {
        has_token = (text_ne c.hcloud_client.token "").0 a₁;
        family = (family_ok c.instance_configuration.address_family).0 a₂;
        known_mode = (mode_ok c.server_cache.mode).0 a₃;
        one_place = (one_ok lb.location lb.network_zone).0 a₄;
        subnet =
            (unless_empty lb.private_subnet_ip_range _
                (undo_not (is_cidr lb.private_subnet_ip_range))).0
              a₅;
        algorithm = (unless_empty lb.algorithm_type _ (parsed lb.algorithm_type)).0 a₆;
        credentials =
            (when_enabled c.robot.enabled _ (both_or_none c.robot.user c.robot.password)).0 a₇;
        no_routes = (when_enabled c.robot.enabled c.route.enabled (λ h. h, λ h. h)).0 a₈;
      }

  passes :
      (c : HccmConfiguration)
      → IsValid c
      → All (λ (x : Bool × Invalid). x.0 ≡ false) (checks trim_space to_lower is_cidr c)
  unfolding checks
  passes c v =
      let lb = c.load_balancer in
      (
        (text_ne c.hcloud_client.token "").1 v.has_token,
        (
          (family_ok c.instance_configuration.address_family).1 v.family,
          (
            (mode_ok c.server_cache.mode).1 v.known_mode,
            (
              (one_ok lb.location lb.network_zone).1 v.one_place,
              (
                (unless_empty lb.private_subnet_ip_range _
                      (undo_not (is_cidr lb.private_subnet_ip_range))).1
                    v.subnet,
                (
                  (unless_empty lb.algorithm_type _ (parsed lb.algorithm_type)).1 v.algorithm,
                  (
                    (when_enabled c.robot.enabled _ (both_or_none c.robot.user c.robot.password)).1
                        v.credentials,
                    (
                      (when_enabled c.robot.enabled c.route.enabled (λ h. h, λ h. h)).1 v.no_routes,
                      tt,
                    ),
                  ),
                ),
              ),
            ),
          ),
        ),
      )

  -- `Validate` reports no error exactly for settings with a token, a known address family and cache
  -- mode, not both a location and a network zone, a readable subnet range and algorithm where these
  -- are set, and, with Robot enabled, both credentials or neither, and no routes.
  pub validate_iff :
      (c : HccmConfiguration) → (validate trim_space to_lower is_cidr c ≡ []) ↔ IsValid c
  unfolding validate
  validate_iff c =
      let (to, from) = report-nil (checks trim_space to_lower is_cidr c) in
      (λ e. passed c (to e), λ v. from (passes c v))
