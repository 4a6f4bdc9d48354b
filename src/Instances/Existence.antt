-- ===== src/Instances/Existence.antt =====
-- hcloud/instances.go: when a node with the provider ID of a Robot server is said to exist, also
-- with the client of internal/robot/ratelimit.go.
use hcloud_cloud_controller.Common.{
  ℤ, String, Bool, true, false, Option, none, some, [], ◌∷◌, ◌≡◌, refl, ap, ◌∙◌, if◌then◌else◌, ltb,
  Result, ok, err, ◌>>=◌, pure, Bool-cases, inl, inr, ◌==◌, Eq-string,
}
use hcloud_cloud_controller.Kube.{Node}
use hcloud_cloud_controller.ProviderId.{Bytes, to_server_id}
use hcloud_cloud_controller.Cache
use hcloud_cloud_controller.Cache.{Source}
use hcloud_cloud_controller.Config.{HccmConfiguration}
use hcloud_cloud_controller.Robot.RateLimit
use hcloud_cloud_controller.Robot.RateLimit.{RobotClient, ClientError}
use hcloud_cloud_controller.Robot.RateLimitLaws.{
  first_reading, second_reading, next_possible_call, nil_without_error,
}
use hcloud_cloud_controller.Instances.Data.{
  CloudServer, RobotServer, InstanceError, Environment, api,
}
use hcloud_cloud_controller.Instances.{
  accept_not_found, find_robot_server, check_name, get_robot_server_by_id, as_robot, is_found,
  lookup_id, lookup_provider_id, lookup_server, instance_exists, emit,
}
use hcloud_cloud_controller.Instances.Identity.{provider_id_not_empty}

module _ {W E : Type 0} (src : Source W E CloudServer) (env : Environment W E)
    (client : RobotClient W E RobotServer String) (network_id : ℤ) (cfg : HccmConfiguration) where
  -- What follows for the node from the answer of the Robot API.
  abbrev pub exists_of : Node → Result E (Option RobotServer) → Result (InstanceError E) Bool
  exists_of node (ok none) = ok false
  exists_of node (ok (some server)) = ok (server.name == node.name)
  exists_of node (err e) = if env.is_server_not_found e then ok false else err (api e)

  abbrev S : Type 0
  S = Cache.State W CloudServer

  answered :
      (node : Node) (r : Result E (Option RobotServer)) (v s : S)
      → ((do
        g ← (do
          server ← (do
            x ← (λ _. (accept_not_found src env (some client) network_id cfg r, v))
            check_name src env (some client) network_id cfg node x)
          pure {E = InstanceError E} (as_robot src env (some client) network_id cfg server))
        pure {E = InstanceError E} (is_found src env (some client) network_id cfg g))
          s).0
        ≡ exists_of node r
  unfolding accept_not_found check_name as_robot is_found emit
  answered node (ok none) v s = refl
  answered node (ok (some server)) v s = elim (Bool-cases (server.name == node.name)) [
    | inl same ↦ rw same refl
    | inr other ↦ rw other refl
  ]
  answered node (err e) v s = elim (Bool-cases (env.is_server_not_found e)) [
    | inl gone ↦ rw gone refl
    | inr other ↦ rw other refl
  ]

  found_by_id :
      (p : Bytes) (id : ℤ) (node : Node) (s : S)
      → to_server_id p ≡ ok (id, false)
      → ((do
        g ← lookup_provider_id src env (some client) network_id cfg p node
        pure {E = InstanceError E} (is_found src env (some client) network_id cfg g))
          s).0
        ≡ exists_of node (client.server_get id s.world).0
  unfolding lookup_provider_id lookup_id get_robot_server_by_id find_robot_server
  found_by_id [] id node s e = absurd (provider_id_not_empty id false e)
  found_by_id (c ∷ p) id node s e =
      rw (e, lookup_provider_id) (answered node (client.server_get id s.world).0 _ s)

  -- `InstanceExists` for a node with the provider ID of a Robot server, on every answer of the
  -- Robot client: there is none if the client gives none or says that it is not found; a server of
  -- another name does not count; and any other error is passed on.
  pub instance_exists_robot :
      (id : ℤ) (node : Node) (s : S)
      → to_server_id node.provider_id ≡ ok (id, false)
      → (instance_exists src env (some client) network_id cfg node s).0
        ≡ exists_of node (client.server_get id s.world).0
  unfolding instance_exists lookup_server
  instance_exists_robot id node s e = found_by_id node.provider_id id node s e

-- The rate-limited client, as a client.
abbrev pub limited :
    {W E : Type 0}
    → RateLimit.Environment W E
    → RobotClient W E RobotServer String
    → RobotClient (RateLimit.State W) (ClientError E) RobotServer String
limited env client = record {
  server_get = RateLimit.server_get env client;
  server_get_list = RateLimit.server_get_list env client;
  reset_get = RateLimit.reset_get env client;
}

module _ {W E : Type 0} (limits : RateLimit.Environment W E)
    (client : RobotClient W E RobotServer String)
    (src : Source (RateLimit.State W) (ClientError E) CloudServer)
    (env : Environment (RateLimit.State W) (ClientError E)) (network_id : ℤ)
    (cfg : HccmConfiguration) where
  -- With the rate-limited Robot client, `InstanceExists` says without an error that the server of a
  -- Robot node does not exist, whatever the Robot API has, if the wait time ends between the two
  -- readings of the clock that one call takes while the limit is exceeded.
  pub instance_exists_race :
      (id : ℤ) (node : Node) (s : Cache.State (RateLimit.State W) CloudServer)
      → to_server_id node.provider_id ≡ ok (id, false)
      → s.world.limit.exceeded ≡ true
      → ltb (first_reading limits s.world) (next_possible_call s.world) ≡ true
      → ltb (second_reading limits s.world) (next_possible_call s.world) ≡ false
      → (instance_exists src env (some (limited limits client)) network_id cfg node s).0 ≡ ok false
  instance_exists_race id node s e on first second =
      instance_exists_robot src env (limited limits client) network_id cfg id node s e
      ∙ ap (exists_of src env (limited limits client) network_id cfg node)
          (nil_without_error limits client id s.world on first second).0
