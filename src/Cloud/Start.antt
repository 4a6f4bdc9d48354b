-- ===== src/Cloud/Start.antt =====
-- hcloud/cloud.go: what holds of a provider that has started.
use mathlib.Core.Path.{subst}
use hcloud_cloud_controller.Common.{
  ◌↔◌, ◌≢◌, not, text_ne, arith, String, is_some, Bool, true, false, ◌&&◌, none, some, List, [],
  ◌∷◌, ◌≡◌, refl, if◌then◌else◌, Result, ok, err, Result-cases, inl, inr, Returns, Returns-bind,
  ◌==◌, Eq-string,
}
use hcloud_cloud_controller.Config.{HccmConfiguration, RobotConfiguration}
use hcloud_cloud_controller.Config.Reading.{Environment, read}
use hcloud_cloud_controller.Config.Validation.{Invalid, validate}
use hcloud_cloud_controller.Config.Settings.{IsRead, read-IsRead}
use hcloud_cloud_controller.Config.Validity.{IsValid, validate_iff}
use hcloud_cloud_controller.Cloud.Attached.{IsNetwork, find_network-IsNetwork}
use hcloud_cloud_controller.Cloud.{
  StartClient, StartError, Cloud, new_robot_client, lift, read_settings, validated, find_network,
  new_cloud,
}

some_iff :
    {A : Type 0} (t : Bool) (a : A) → (is_some (if t then some a else none) ≡ true) ↔ (t ≡ true)
some_iff true a = (λ h. refl, λ h. refl)
some_iff false a = (λ h. absurd cc, λ h. absurd cc)

robot_client_iff :
    (robot : RobotConfiguration)
    → (robot.enabled ≡ true → (robot.user ≡ "") ↔ (robot.password ≡ ""))
    → (is_some (new_robot_client robot) ≡ true) ↔ ((robot.enabled ≡ true) × (robot.user ≢ ""))
unfolding new_robot_client
robot_client_iff robot credentials =
    let (to, from) =
      some_iff (robot.enabled && (not (robot.user == "") && not (robot.password == ""))) _ in
    (
      λ h.
          let both = to h in
          let user : (robot.user == "") ≡ false = ground arith in
          let enabled : robot.enabled ≡ true = ground arith in
          (enabled, (text_ne robot.user "").0 user),
      λ (enabled, named).
          let user = (text_ne robot.user "").1 named in
          let password = (text_ne robot.password "").1 (λ e. named ((credentials enabled).1 e)) in
          from (rw (enabled, user, password) refl),
    )

always :
    {W E A : Type 0} (Q : A → Type 0) (x : Result E A × W)
    → ((a : A) → Q a)
    → Returns (λ a _. Q a) x
always Q (ok a, w) h = h a
always Q (err c, w) h = tt

without_robot :
    (robot routes : Bool) → routes ≡ true → (robot ≡ true → routes ≡ false) → robot ≡ false
without_robot true routes on h = absurd (let off = h refl in cc)
without_robot false routes on h = refl

routes_without_robot :
    {trim_space to_lower : String → String} {is_cidr : String → Bool} (cfg : HccmConfiguration)
    → IsRead cfg
    → IsValid trim_space to_lower is_cidr cfg
    → cfg.route.enabled ≡ true
    → (cfg.network.name_or_id ≢ "") × (cfg.robot.enabled ≡ false)
routes_without_robot cfg r v on = (
  (text_ne cfg.network.name_or_id "").0 (r.routes_with_network on),
  without_robot cfg.robot.enabled cfg.route.enabled on v.no_routes,
)

module _ {W E : Type 0} (env : Environment) (trim_space to_lower : String → String)
    (is_cidr : String → Bool) (client : StartClient W E) where
  -- The settings are those of the environment and are valid; there is a Robot client exactly with Robot
  -- enabled and credentials; the network is the configured one; and routes need a network and exclude
  -- Robot.
  pub record IsStarted (c : Cloud W E) : Type 0 where
    pub settings_read : read env ≡ ok c.cfg
    pub settings_valid : IsValid trim_space to_lower is_cidr c.cfg
    pub robot :
        (is_some c.robot_client ≡ true) ↔ ((c.cfg.robot.enabled ≡ true) × (c.cfg.robot.user ≢ ""))
    pub network : IsNetwork client c.cfg.network c.network_id
    pub routes_need :
        c.cfg.route.enabled ≡ true → (c.cfg.network.name_or_id ≢ "") × (c.cfg.robot.enabled ≡ false)

  read_settings-read :
      (w : W)
      → Returns (λ c _. read env ≡ ok c) (read_settings env trim_space to_lower is_cidr client w)
  unfolding read_settings
  read_settings-read w = elim (Result-cases (read env)) [
    | inl (c, e) ↦ rw (e, Returns) e
    | inr (es, e) ↦ rw (e, Returns) tt
  ]

  validated_ok :
      (es : List Invalid) (w : W)
      → Returns (λ _ _. es ≡ []) (validated env trim_space to_lower is_cidr client es w)
  unfolding validated
  validated_ok [] w = refl
  validated_ok (e ∷ es) w = tt

  module _ (cidr : String) where
    new_cloud-Returns :
        (w : W)
        → Returns
            (λ (c : Cloud W E) _. IsStarted c)
            (new_cloud env trim_space to_lower is_cidr client cidr w)
    unfolding new_cloud
    new_cloud-Returns w =
        let started = λ (c : Cloud W E) (v : W). IsStarted c in
        Returns-bind (λ c _. read env ≡ ok c) started
          (read_settings env trim_space to_lower is_cidr client) _ w (read_settings-read w)
          (λ cfg v e.
            Returns-bind (λ _ _. validate trim_space to_lower is_cidr cfg ≡ []) started
              (validated env trim_space to_lower is_cidr client
                (validate trim_space to_lower is_cidr cfg))
              _ v (validated_ok (validate trim_space to_lower is_cidr cfg) v)
              (λ _ u valid.
                Returns-bind (λ id _. IsNetwork client cfg.network id) started
                  (find_network env trim_space to_lower is_cidr client cfg.network) _ u
                  (find_network-IsNetwork client env trim_space to_lower is_cidr cfg.network u)
                  (λ id t known.
                    Returns-bind (λ _ _. Unit {0}) started
                      (lift env trim_space to_lower is_cidr client client.list_locations) _ t
                      (always (λ _. Unit {0}) _ (λ _. tt))
                      (λ _ r _. record {
                        settings_read = e;
                        settings_valid = (validate_iff trim_space to_lower is_cidr cfg).0 valid;
                        robot =
                            robot_client_iff cfg.robot
                              ((validate_iff trim_space to_lower is_cidr cfg).0 valid).credentials;
                        network = known;
                        routes_need =
                            routes_without_robot cfg (read-IsRead env cfg e)
                              ((validate_iff trim_space to_lower is_cidr cfg).0 valid);
                      }))))

    -- A provider that `NewCloud` returns has the settings of the environment, and these are valid. It
    -- has a Robot client exactly with Robot enabled and a user. Its network ID is zero without a
    -- configured network; otherwise the API gave it for the configured name, and where the check is
    -- enabled the metadata of this server then named the network. It has routes enabled only with a
    -- network and without Robot.
    pub new_cloud-IsStarted :
        (w : W) (c : Cloud W E) (w' : W)
        → new_cloud env trim_space to_lower is_cidr client cidr w ≡ (ok c, w')
        → IsStarted c
    new_cloud-IsStarted w c w' e =
        subst (λ (x : Result (StartError E) (Cloud W E) × W). Returns (λ d _. IsStarted d) x) e
          (new_cloud-Returns w)
