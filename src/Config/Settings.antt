-- ===== src/Config/Settings.antt =====
-- internal/config/config.go: what holds of settings that were read.
use mathlib.Core.Path.{subst}
use hcloud_cloud_controller.Common.{
  ℤ, pos, String, Bool, true, false, ◌&&◌, List, [], ◌∷◌, ◌≡◌, inl, inr, refl, if◌then◌else◌,
  int_eq, ok, Bool-cases, ◌==◌, Eq-string, arith,
}
use hcloud_cloud_controller.Config.{HccmConfiguration}
use hcloud_cloud_controller.Config.Reading.{
  Environment, ReadError, read, or_errors, read_robot, read_route, read_instance, get_env_duration,
  getenv,
}

-- What `Read` ensures of its settings.
pub record IsRead (c : HccmConfiguration) : Type 0 where
  pub forwards_with_robot : c.robot.forward_internal_ips ≡ true → c.robot.enabled ≡ true
  pub routes_with_network : c.route.enabled ≡ true → (c.network.name_or_id == "") ≡ false
  pub caches_for_a_time : int_eq c.robot.cache_timeout (pos 0) ≡ false
  pub has_address_family : (c.instance_configuration.address_family == "") ≡ false

and_right : (a b : Bool) → (a && b) ≡ true → b ≡ true
and_right a b h = ground arith

timeout_set : (t : ℤ) → int_eq (if int_eq t (pos 0) then pos 300_000_000_000 else t) (pos 0) ≡ false
timeout_set t = elim (Bool-cases (int_eq t (pos 0))) [
  | inl zero' ↦ rw zero' refl
  | inr other ↦ rw (other, other) refl
]

family_set : (f : String) → ((if f == "" then "ipv4" else f) == "") ≡ false
family_set f = elim (Bool-cases (f == "")) [
  | inl empty ↦ rw empty refl
  | inr other ↦ rw (other, other) refl
]

module _ (env : Environment) where
  or_errors-ok : {A : Type 0} (es : List ReadError) (a b : A) → or_errors env es a ≡ ok b → a ≡ b
  unfolding or_errors
  or_errors-ok [] a b e = cc
  or_errors-ok (x ∷ es) a b e = absurd cc

  routed : (network : String) → (read_route env network).0.enabled ≡ true → (network == "") ≡ false
  unfolding read_route
  routed network h = elim (Bool-cases (network == "")) [
    | inl empty ↦ absurd (let h' = rw empty at h in cc)
    | inr other ↦ other
  ]

  -- Settings that `Read` returns forward internal addresses only with Robot enabled, and have
  -- routes only with a network; their Robot cache has a timeout, and they have an address family.
  pub read-IsRead : (c : HccmConfiguration) → read env ≡ ok c → IsRead c
  unfolding read read_robot read_instance
  read-IsRead c e =
      subst (λ x. IsRead x) (or_errors-ok _ _ c e)
        (record {
          forwards_with_robot = and_right _ _;
          routes_with_network = routed _;
          caches_for_a_time = timeout_set (get_env_duration env "ROBOT_CACHE_TIMEOUT").0;
          has_address_family = family_set (getenv env "HCLOUD_INSTANCES_ADDRESS_FAMILY");
        })
