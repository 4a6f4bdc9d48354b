-- ===== src/Hcops/Requests.antt =====
-- internal/hcops/load_balancer.go: the search for a load balancer, its creation and deletion. The
-- state is the cache of load balancer types with the outside world. Metrics and klog output are
-- left out.
pub mod Placement
use hcloud_cloud_controller.Common.{
  ℤ, String, Bool, true, false, not, Option, none, some, List, [], ◌∷◌, if◌then◌else◌, Result, ok,
  err, Exec, ◌>>=◌, ◌>>◌, pure, fail, ◌==◌, Eq-string,
}
use hcloud_cloud_controller.Kube.{Service, LoadBalancer}
use hcloud_cloud_controller.Config.{LoadBalancerConfiguration}
use hcloud_cloud_controller.Annotation.{
  AnnotationError, not_set, invalid, string_from_service, bool_from_service,
  lb_algorithm_type_from_service, lb_type, lb_location, lb_network_zone, lb_disable_public_network,
}
use hcloud_cloud_controller.Hcops.{
  Error, not_found, non_unique_result, no_location_and_zone, type_not_found, type_unavailable,
  annotation_error, api,
}
use hcloud_cloud_controller.Cache
use hcloud_cloud_controller.Cache.{Source}

abbrev pub label_service_uid : String
label_service_uid = "hcloud-ccm/service-uid"

abbrev pub default_load_balancer_type : String
default_load_balancer_type = "lb11"

-- `hcloud.LoadBalancerCreateOpts`; an unset pointer is none.
pub record CreateOpts (T : Type 0) : Type 0 where
  pub name : String
  pub type : T
  pub labels : List (String × String)
  pub location : Option String
  pub network_zone : String
  pub algorithm : Option String
  pub public_interface : Option Bool

-- What the code calls: hcloud-go with the type `T` of load balancer types, the event recorder, and
-- `strings.ToLower`. A deprecation has a message, and says whether the type can no longer be had.
pub record Client (W E T Act : Type 0) : Type 0 where
  pub all_with_label : String → String → Exec W E (List LoadBalancer)
  pub get_by_name : String → Exec W E (Option LoadBalancer)
  pub get_by_id : ℤ → Exec W E (Option LoadBalancer)
  pub create : CreateOpts T → Exec W E (Act × ℤ)
  pub delete : LoadBalancer → Exec W E (Unit {0})
  pub wait_for : Act → Exec W E (Unit {0})
  pub is_not_found_code : E → Bool
  pub type_message : T → W → (String × Bool) × W
  pub type_unconfigured : Service → W → W
  pub type_deprecated : Service → String → W → W
  pub to_lower : String → String

abbrev pub State : Type 0 → Type 0 → Type 0
State W T = Cache.State W T

module _ {W E T Act : Type 0} (client : Client W E T Act) where
  unfoldable pub call : {A : Type 0} → Exec W E A → Exec (State W T) (Error E) A
  call m s =
      let (r, w) = m s.world in
      (elim r [ ok a ↦ ok a | err e ↦ err (api e) ], record s { world = w })

  unfoldable pub cached : {A : Type 0} → Exec (State W T) E A → Exec (State W T) (Error E) A
  cached m s = let (r, s') = m s in (elim r [ ok a ↦ ok a | err e ↦ err (api e) ], s')

  unfoldable pub unique : List LoadBalancer → Result (Error E) LoadBalancer
  unique [] = err not_found
  unique (lb ∷ []) = ok lb
  unique (lb ∷ lb' ∷ lbs) = err non_unique_result

  unfoldable pub get_by_k8s_service_uid : Service → Exec (State W T) (Error E) LoadBalancer
  unfolding call unique
  get_by_k8s_service_uid svc = do
    lbs ← call (client.all_with_label label_service_uid svc.uid)
    λ s. (unique lbs, s)

  -- What `GetByName` and `GetByID` make of the API's answer.
  unfoldable pub found : Result E (Option LoadBalancer) → Result (Error E) LoadBalancer
  found (ok (some lb)) = ok lb
  found (ok none) = err not_found
  found (err e) = err (if client.is_not_found_code e then not_found else api e)

  unfoldable pub get_by_name : String → Exec (State W T) (Error E) LoadBalancer
  unfolding found
  get_by_name name s =
      let (r, w) = client.get_by_name name s.world in (found r, record s { world = w })

  unfoldable pub get_by_id : ℤ → Exec (State W T) (Error E) LoadBalancer
  unfolding found
  get_by_id id s = let (r, w) = client.get_by_id id s.world in (found r, record s { world = w })

  unfoldable pub delete : LoadBalancer → Exec (State W T) (Error E) (Unit {0})
  delete lb s =
      let (r, w) = client.delete lb s.world in
      (
        elim r [ ok _ ↦ ok tt | err e ↦ if client.is_not_found_code e then ok tt else err (api e) ],
        record s { world = w },
      )

  unfoldable pub record_event : (W → W) → Exec (State W T) (Error E) (Unit {0})
  record_event f s = (ok tt, record s { world = f s.world })

  module _ (cfg : LoadBalancerConfiguration) where
    -- The annotation's type, or the configured one; the empty text stands for none.
    unfoldable pub type_name : Service → String
    type_name svc = elim (string_from_service lb_type svc) [ some v ↦ v | none ↦ cfg.type ]

    unfoldable pub check_available : Service → T → Exec (State W T) (Error E) T
    unfolding record_event
    check_available svc t s =
        let ((message, unavailable), w) = client.type_message t s.world in
        let s' : State W T = record s { world = w } in
        if unavailable
        then (err (type_unavailable message), s')
        else if message == ""
        then (ok t, s')
        else (do record_event (client.type_deprecated svc message); pure t) s'

    unfoldable pub known_type : Service → String → Option T → Exec (State W T) (Error E) T
    unfolding check_available
    known_type svc name none = fail (type_not_found name)
    known_type svc name (some t) = check_available svc t

    unfoldable pub look_up_type : Source W E T → Service → String → Exec (State W T) (Error E) T
    unfolding cached known_type
    look_up_type src svc name = do
      t ← cached (Cache.by_name src "load_balancer" name [])
      known_type svc name t

    -- The type, and whether none was configured.
    unfoldable pub get_type : Source W E T → Service → Exec (State W T) (Error E) (T × Bool)
    unfolding type_name record_event look_up_type
    get_type src svc =
        if type_name svc == ""
        then (do
          record_event (client.type_unconfigured svc)
          t ← look_up_type src svc default_load_balancer_type
          pure (t, true))
        else (do t ← look_up_type src svc (type_name svc); pure (t, false))

    unfoldable pub if_set : String → Option String
    if_set v = if v == "" then none else some v

    unfoldable pub location : Service → Option String
    unfolding if_set
    location svc = elim (string_from_service lb_location svc) [
      | some v ↦ if_set v
      | none ↦ if_set cfg.location
    ]

    unfoldable pub network_zone : Service → String
    network_zone svc = elim (string_from_service lb_network_zone svc) [
      | some v ↦ v
      | none ↦ cfg.network_zone
    ]

    -- A location takes precedence over a network zone; one of them is needed.
    unfoldable pub place : Option String → String → Result (Error E) (Option String × String)
    place none zone = if zone == "" then err no_location_and_zone else ok (none, zone)
    place (some l) zone = ok (some l, "")

    unfoldable pub algorithm : Service → Result AnnotationError (Option String)
    unfolding if_set
    algorithm svc = elim (lb_algorithm_type_from_service client.to_lower svc) [
      | ok a ↦ ok (some a)
      | err not_set ↦ ok (if_set cfg.algorithm_type)
      | err invalid ↦ err invalid
    ]

    unfoldable pub public_interface : Service → Result AnnotationError (Option Bool)
    public_interface svc = elim (bool_from_service lb_disable_public_network svc) [
      | ok b ↦ ok (some (not b))
      | err not_set ↦ ok (elim cfg.disable_public_network [ none ↦ none | some b ↦ some (not b) ])
      | err invalid ↦ err invalid
    ]

    unfoldable pub with_interface :
        String
        → Service
        → T
        → Option String × String
        → Option String
        → Result AnnotationError (Option Bool)
        → Result (Error E) (CreateOpts T)
    with_interface name svc t at algorithm (err e) = err (annotation_error e)
    with_interface name svc t at algorithm (ok public_interface) = ok record {
      name = name;
      type = t;
      labels = (label_service_uid, svc.uid) ∷ [];
      location = at.0;
      network_zone = at.1;
      algorithm = algorithm;
      public_interface = public_interface;
    }

    unfoldable pub with_algorithm :
        String
        → Service
        → T
        → Option String × String
        → Result AnnotationError (Option String)
        → Result (Error E) (CreateOpts T)
    unfolding public_interface with_interface
    with_algorithm name svc t at (err e) = err (annotation_error e)
    with_algorithm name svc t at (ok a) = with_interface name svc t at a (public_interface svc)

    unfoldable pub with_place :
        String
        → Service
        → T
        → Result (Error E) (Option String × String)
        → Result (Error E) (CreateOpts T)
    unfolding algorithm with_algorithm
    with_place name svc t (err e) = err e
    with_place name svc t (ok at) = with_algorithm name svc t at (algorithm svc)

    -- The options that `Create` sends.
    unfoldable pub create_opts : String → Service → T → Result (Error E) (CreateOpts T)
    unfolding location network_zone place with_place
    create_opts name svc t = with_place name svc t (place (location svc) (network_zone svc))

    unfoldable pub create :
        Source W E T → String → Service → Exec (State W T) (Error E) LoadBalancer
    unfolding get_type create_opts call get_by_id
    create src name svc = do
      (t, _) ← get_type src svc
      opts ← (λ s. (create_opts name svc t, s))
      (action, id) ← call (client.create opts)
      call (client.wait_for action)
      get_by_id id
