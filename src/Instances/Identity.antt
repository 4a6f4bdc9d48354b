-- ===== src/Instances/Identity.antt =====
-- hcloud/instances.go: the server that a node's metadata tells of is the one of its provider ID.
use mathlib.Core.Path.{subst}
use hcloud_cloud_controller.Common.{
  ℤ, String, Bool, true, false, Option, none, some, [], ◌∷◌, ◌≡◌, refl, ◌∙◌, sym, Result, ok, err,
  Exec, ◌>>=◌, pure, Bool-cases, inl, inr, Returns, Returns-bind, ◌==◌, Eq-string,
}
use hcloud_cloud_controller.Kube.{Node}
use hcloud_cloud_controller.ProviderId.{Bytes, to_server_id, IsInt64, has_prefix}
use hcloud_cloud_controller.ProviderId.RoundTrip.{
  to_server_id-from_cloud_server_id, to_server_id-from_robot_server_number,
}
use hcloud_cloud_controller.ProviderId.Accepts.{to_server_id-IsInt64}
use hcloud_cloud_controller.Cache
use hcloud_cloud_controller.Cache.{Source, State, is_off, new_cache_refresh_opts}
use hcloud_cloud_controller.Cache.Keyed.{IsKeyed}
use hcloud_cloud_controller.Cache.Fresh.{by_id_returns_id}
use hcloud_cloud_controller.Config.{HccmConfiguration}
use hcloud_cloud_controller.Robot.RateLimit.{RobotClient}
use hcloud_cloud_controller.Instances.Data.{
  CloudServer, RobotServer, GenericServer, cloud, robot, InstanceError, api, InstanceMetadata,
  Environment,
}
use hcloud_cloud_controller.Instances.{
  cached, find_robot_server, accept_not_found, check_name, get_robot_server_by_id, as_robot,
  as_cloud, lookup_id, lookup_provider_id, lookup_server, required, metadata, instance_metadata,
  emit,
}

-- The server is the one of the ID, in the cloud or at Robot.
abbrev IsOf : ℤ → Bool → GenericServer → Type 0
IsOf id b (cloud v) = (v.id ≡ id) × (b ≡ true)
IsOf id b (robot v) = (v.server_number ≡ id) × (b ≡ false)

abbrev Every : {A : Type 0} → (A → Type 0) → Option A → Type 0
Every P none = Unit
Every P (some a) = P a

-- The Robot client returns the server of the number that it is asked for.
abbrev pub Numbered : {W E : Type 0} → Option (RobotClient W E RobotServer String) → Type 0
Numbered {W = W} none = Unit
Numbered {W = W} (some client) =
    (id : ℤ) (w : W) (v : RobotServer)
    → (client.server_get id w).0 ≡ ok (some v)
    → v.server_number ≡ id

pub provider_id_not_empty : (id : ℤ) (b : Bool) → to_server_id [] ≡ ok (id, b) → ⊥
unfolding to_server_id has_prefix
provider_id_not_empty id b e = cc

module _ {W E : Type 0} (src : Source W E CloudServer) (env : Environment W E)
    (robot_client : Option (RobotClient W E RobotServer String)) (network_id : ℤ)
    (cfg : HccmConfiguration) (get_id_law : (v : CloudServer) → src.get_id v ≡ v.id)
    (numbered : Numbered robot_client) (id : ℤ) where
  abbrev S : Type 0
  S = State W CloudServer

  Returns-cached :
      {A : Type 0} (Q : A → Type 0) (m : Exec S E A) (s : S)
      → ((a : A) → (m s).0 ≡ ok a → Q a)
      → Returns (λ a _. Q a) (cached src env robot_client network_id cfg m s)
  unfolding cached
  Returns-cached {A = A} Q m s h = wrap (m s).0 (m s).1 h
    where
      wrap :
          (r : Result E A) (v : S)
          → ((a : A) → r ≡ ok a → Q a)
          → Returns {W = S} {E = InstanceError E} {A = A}
              (λ a _. Q a)
              (elim r [ ok a ↦ ok a | err e ↦ err (api e) ], v)
      wrap (ok a) v h = h a refl
      wrap (err e) v h = tt

  cloud_found :
      (node : Node) (s : S)
      → IsKeyed src s.cache
      → is_off (new_cache_refresh_opts s.cache []).mode ≡ false
      → Returns
          (λ r _. Every (IsOf id true) r)
          (lookup_id src env robot_client network_id cfg (id, true) node s)
  unfolding lookup_id as_cloud
  cloud_found node s keyed on =
      Returns-bind (λ r _. Every (λ (v : CloudServer). v.id ≡ id) r) (λ r _. Every (IsOf id true) r)
        (cached src env robot_client network_id cfg (Cache.by_id src "instances_v2" id []))
        (λ server. pure (as_cloud src env robot_client network_id cfg server)) s
        (Returns-cached (Every (λ (v : CloudServer). v.id ≡ id))
          (Cache.by_id src "instances_v2" id []) s (λ r e. found r e))
        (λ r v h. as_found r h)
    where
      found :
          (r : Option CloudServer)
          → (Cache.by_id src "instances_v2" id [] s).0 ≡ ok r
          → Every (λ (v : CloudServer). v.id ≡ id) r
      found none e = tt
      found (some v) e =
          sym (get_id_law v) ∙ by_id_returns_id src "instances_v2" id [] s v keyed on e

      as_found :
          (r : Option CloudServer)
          → Every (λ (v : CloudServer). v.id ≡ id) r
          → Every (IsOf id true) (as_cloud src env robot_client network_id cfg r)
      as_found none h = tt
      as_found (some v) h = (h, refl)

  abbrev Found : Option RobotServer → Type 0
  Found r = Every (λ (v : RobotServer). v.server_number ≡ id) r

  check_name-Found :
      (node : Node) (r : Option RobotServer) (s : S)
      → Found r
      → Returns (λ x _. Found x) (check_name src env robot_client network_id cfg node r s)
  unfolding check_name emit
  check_name-Found node none s h = tt
  check_name-Found node (some v) s h = elim (Bool-cases (v.name == node.name)) [
    | inl same ↦ rw same h
    | inr other ↦ rw other tt
  ]

  accepted :
      (client : RobotClient W E RobotServer String) (r : Result E (Option RobotServer)) (v : S)
      → ((x : RobotServer) → r ≡ ok (some x) → x.server_number ≡ id)
      → Returns (λ x _. Found x) (accept_not_found src env robot_client network_id cfg r, v)
  unfolding accept_not_found
  accepted client (ok none) v h = tt
  accepted client (ok (some x)) v h = h x refl
  accepted client (err e) v h = elim (Bool-cases (env.is_server_not_found e)) [
    | inl gone ↦ rw gone tt
    | inr other ↦ rw other tt
  ]

module _ {W E : Type 0} (src : Source W E CloudServer) (env : Environment W E) (network_id : ℤ)
    (cfg : HccmConfiguration) (get_id_law : (v : CloudServer) → src.get_id v ≡ v.id) (id : ℤ) where
  robot_found :
      (robot_client : Option (RobotClient W E RobotServer String)) (node : Node)
      (s : State W CloudServer)
      → Numbered robot_client
      → Returns
          (λ r _. Every (IsOf id false) r)
          (lookup_id src env robot_client network_id cfg (id, false) node s)
  unfolding lookup_id get_robot_server_by_id find_robot_server as_robot
  robot_found none node s numbered = tt
  robot_found (some client) node s numbered =
      let found = λ (r : Option RobotServer). Every (λ (v : RobotServer). v.server_number ≡ id) r in
      Returns-bind (λ r _. found r) (λ r _. Every (IsOf id false) r)
        (get_robot_server_by_id src env (some client) network_id cfg client id node)
        (λ server. pure (as_robot src env (some client) network_id cfg server)) s
        (Returns-bind (λ r _. found r) (λ r _. found r)
          (find_robot_server src env (some client) network_id cfg client id)
          (check_name src env (some client) network_id cfg node) s
          (accepted src env (some client) network_id cfg get_id_law numbered id client
            (client.server_get id s.world).0 _ (λ x e. numbered id s.world x e))
          (λ r v h.
            check_name-Found src env (some client) network_id cfg get_id_law numbered id node r v
              h))
        (λ r v h. as_found r h)
    where
      as_found :
          (r : Option RobotServer)
          → Every (λ (v : RobotServer). v.server_number ≡ id) r
          → Every (IsOf id false) (as_robot src env (some client) network_id cfg r)
      as_found none h = tt
      as_found (some v) h = (h, refl)

  module _ (robot_client : Option (RobotClient W E RobotServer String)) where
    lookup_found :
        (b : Bool) (node : Node) (s : State W CloudServer)
        → Numbered robot_client
        → IsKeyed src s.cache
        → is_off (new_cache_refresh_opts s.cache []).mode ≡ false
        → Returns
            (λ r _. Every (IsOf id b) r)
            (lookup_id src env robot_client network_id cfg (id, b) node s)
    lookup_found true node s numbered keyed on =
        cloud_found src env robot_client network_id cfg get_id_law numbered id node s keyed on
    lookup_found false node s numbered keyed on = robot_found robot_client node s numbered

    lookup_provider_id-found :
        (b : Bool) (p : Bytes) (node : Node) (s : State W CloudServer)
        → Numbered robot_client
        → IsKeyed src s.cache
        → is_off (new_cache_refresh_opts s.cache []).mode ≡ false
        → to_server_id p ≡ ok (id, b)
        → Returns
            (λ r _. Every (IsOf id b) r)
            (lookup_provider_id src env robot_client network_id cfg p node s)
    unfolding lookup_provider_id
    lookup_provider_id-found b [] node s numbered keyed on e = absurd (provider_id_not_empty id b e)
    lookup_provider_id-found b (c ∷ p) node s numbered keyed on e =
        rw (e, lookup_provider_id) (lookup_found b node s numbered keyed on)

    required-IsOf :
        (b : Bool) (r : Option GenericServer) (s : State W CloudServer)
        → Every (IsOf id b) r
        → Returns (λ g _. IsOf id b g) (required src env robot_client network_id cfg r s)
    unfolding required
    required-IsOf b none s h = tt
    required-IsOf b (some g) s h = h

    metadata-Names :
        (b : Bool) (node : Node) (g : GenericServer) (s : State W CloudServer)
        → IsInt64 id
        → IsOf id b g
        → Returns
            (λ md _. to_server_id md.provider_id ≡ ok (id, b))
            (metadata src env robot_client network_id cfg node g s)
    unfolding metadata
    metadata-Names b node (cloud v) s h (same, here) =
        rw (same, here) (to_server_id-from_cloud_server_id id h)
    metadata-Names b node (robot v) s h (same, here) =
        rw (same, here) ((to_server_id-from_robot_server_number id h).0)

    instance_metadata-Names :
        (b : Bool) (node : Node) (s : State W CloudServer)
        → Numbered robot_client
        → IsKeyed src s.cache
        → is_off (new_cache_refresh_opts s.cache []).mode ≡ false
        → to_server_id node.provider_id ≡ ok (id, b)
        → Returns
            (λ md _. to_server_id md.provider_id ≡ ok (id, b))
            (instance_metadata src env robot_client network_id cfg node s)
    unfolding instance_metadata lookup_server
    instance_metadata-Names b node s numbered keyed on e =
        Returns-bind (λ r _. Every (IsOf id b) r) (λ md _. to_server_id md.provider_id ≡ ok (id, b))
          (lookup_server src env robot_client network_id cfg node)
          (λ server. do
            found ← required src env robot_client network_id cfg server
            metadata src env robot_client network_id cfg node found)
          s (lookup_provider_id-found b node.provider_id node s numbered keyed on e)
          (λ r v h.
            Returns-bind (λ g _. IsOf id b g) (λ md _. to_server_id md.provider_id ≡ ok (id, b))
              (required src env robot_client network_id cfg r)
              (metadata src env robot_client network_id cfg node) v (required-IsOf b r v h)
              (λ g u k. metadata-Names b node g u (to_server_id-IsInt64 node.provider_id id b e) k))

    -- If `InstanceMetadata` succeeds for a node with a provider ID, the provider ID that it gives
    -- reads as the node's own: the same ID, of a server in the cloud or at Robot alike; given a
    -- cache that is on and has its entries under their keys, and that the Robot API returns the
    -- server of the number that it is asked for.
    pub instance_metadata_names :
        (b : Bool) (node : Node) (s : State W CloudServer) (md : InstanceMetadata)
        (s' : State W CloudServer)
        → Numbered robot_client
        → IsKeyed src s.cache
        → is_off (new_cache_refresh_opts s.cache []).mode ≡ false
        → to_server_id node.provider_id ≡ ok (id, b)
        → instance_metadata src env robot_client network_id cfg node s ≡ (ok md, s')
        → to_server_id md.provider_id ≡ ok (id, b)
    instance_metadata_names b node s md s' numbered keyed on e r =
        subst
          (λ (x : Result (InstanceError E) InstanceMetadata × State W CloudServer).
            Returns (λ m _. to_server_id m.provider_id ≡ ok (id, b)) x)
          r (instance_metadata-Names b node s numbered keyed on e)
