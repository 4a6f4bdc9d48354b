-- ===== src/Hcops/Properties.antt =====
-- internal/hcops/load_balancer.go: `ReconcileHCLB` and its steps. The state is as for the requests:
-- the cache of load balancer types with the outside world. A step that fails keeps only the error,
-- since no caller reads what else it returns.
pub mod Info
pub mod PrivateAddress
use hcloud_cloud_controller.Common.{
  is_some, ◌||◌, ℤ, pos, String, Bool, true, false, ◌&&◌, ◌||◌, Option, none, some, List, [], ◌∷◌,
  if◌then◌else◌, Result, ok, err, Exec, ◌>>=◌, ◌>>◌, pure, fail, ◌==◌, Eq-string, int_eq, lookup,
  insert, Duration, second,
}
use hcloud_cloud_controller.Kube.{Service, LoadBalancer, PrivateNet}
use hcloud_cloud_controller.Config.{LoadBalancerConfiguration}
use hcloud_cloud_controller.Annotation.{
  AnnotationError, not_set, invalid, string_from_service, bool_from_service, lb_name,
  lb_public_ipv4_rdns, lb_public_ipv6_rdns, lb_private_ipv4, private_subnet_ip_range,
  lb_disable_public_network,
}
use hcloud_cloud_controller.Hcops.{
  Error, annotation_error, invalid_private_ip, invalid_subnet, network_not_found,
}
use hcloud_cloud_controller.Hcops.Requests
use hcloud_cloud_controller.Hcops.Requests.{State, label_service_uid, call, algorithm, get_type}
use hcloud_cloud_controller.Cache.{Source}

-- `hcloud.LoadBalancerUpdateOpts`; the empty name and the labels none are not set, and stay.
pub record UpdateOpts : Type 0 where
  pub name : String
  pub labels : Option (List (String × String))

pub record AttachOpts (Net Ip Cidr : Type 0) : Type 0 where
  pub network : Net
  pub ip : Option Ip
  pub ip_range : Option Cidr

-- What the steps call beyond the requests: hcloud-go, `time.Sleep` and Go's `net`.
pub record Client (W E T Act Net Ip Cidr : Type 0) : Type 0 where
  pub update : LoadBalancer → UpdateOpts → Exec W E LoadBalancer
  pub change_dns_ptr : LoadBalancer → String → String → Exec W E Act
  pub change_algorithm : LoadBalancer → String → Exec W E Act
  pub change_type : LoadBalancer → T → Exec W E Act
  pub name_of_type : T → String
  pub detach_from_network : LoadBalancer → ℤ → Exec W E Act
  pub attach_to_network : LoadBalancer → AttachOpts Net Ip Cidr → Exec W E Act
  pub disable_public_interface : LoadBalancer → Exec W E Act
  pub enable_public_interface : LoadBalancer → Exec W E Act
  pub get_network : ℤ → Exec W E (Option Net)
  pub is_conflict_or_locked : E → Bool
  pub sleep : Duration → W → W
  pub parse_ip : String → Option Ip
  pub parse_cidr : String → Option Cidr

-- `privateIPv4configured` with the comparison of the detachment
unfoldable pub ip_matches : Option String → String → Bool
ip_matches none ip = true
ip_matches (some v) ip = v == ip

-- `lbAttached`
unfoldable pub lb_attached : List PrivateNet → ℤ → String → Bool
lb_attached [] network_id private_ipv4 = false
lb_attached (n ∷ ns) network_id private_ipv4 =
    int_eq n.network_id network_id && (private_ipv4 == "" || private_ipv4 == n.ip)
    || lb_attached ns network_id private_ipv4

unfoldable pub text_or_empty : Option String → String
text_or_empty none = ""
text_or_empty (some v) = v

module _ {W E T Act Net Ip Cidr : Type 0} (req : Requests.Client W E T Act)
    (client : Client W E T Act Net Ip Cidr) where
  -- An action that is waited for; the answer is that something was changed.
  unfoldable pub act : Exec W E Act → Exec (State W T) (Error E) Bool
  unfolding call
  act m = do action ← call req m; call req (req.wait_for action); pure true

  -- The label that the update sets, where the present one differs.
  unfoldable pub label_update : LoadBalancer → Service → Option (List (String × String))
  label_update lb svc =
      if text_or_empty (lookup label_service_uid lb.labels) == svc.uid
      then none
      else some (insert label_service_uid svc.uid lb.labels)

  -- The name that is assigned to the options, if the branch is taken; it may be empty.
  unfoldable pub name_update : LoadBalancer → Service → Option String
  unfolding string_from_service
  name_update lb svc = elim (string_from_service lb_name svc) [
    | none ↦ none
    | some v ↦ if v == lb.name then none else some v
  ]

  unfoldable pub send_update :
      LoadBalancer → UpdateOpts → Exec (State W T) (Error E) (Bool × LoadBalancer)
  unfolding call
  send_update lb opts = do
    updated ← call req (client.update lb opts)
    pure (true, record lb { name = updated.name; labels = updated.labels })

  -- The variable `update`: whether one of the branches is taken.
  unfoldable pub needs_update : LoadBalancer → Service → Bool
  unfolding label_update name_update
  needs_update lb svc = is_some (label_update lb svc) || is_some (name_update lb svc)

  unfoldable pub info_opts : LoadBalancer → Service → UpdateOpts
  unfolding label_update name_update text_or_empty
  info_opts lb svc = record {
    name = text_or_empty (name_update lb svc);
    labels = label_update lb svc;
  }

  unfoldable pub change_hclb_info :
      LoadBalancer → Service → Exec (State W T) (Error E) (Bool × LoadBalancer)
  unfolding info_opts needs_update send_update
  change_hclb_info lb svc =
      if needs_update lb svc then send_update lb (info_opts lb svc) else pure (false, lb)

  unfoldable pub change_rdns :
      Option String → String → String → LoadBalancer → Exec (State W T) (Error E) Bool
  unfolding act
  change_rdns none dns_ptr ip lb = pure false
  change_rdns (some rdns) dns_ptr ip lb =
      if rdns == dns_ptr then pure false else act (client.change_dns_ptr lb ip rdns)

  unfoldable pub change_ipv4_rdns : LoadBalancer → Service → Exec (State W T) (Error E) Bool
  unfolding change_rdns
  change_ipv4_rdns lb svc =
      change_rdns (string_from_service lb_public_ipv4_rdns svc) lb.public_net.ipv4_dns_ptr
        lb.public_net.ipv4 lb

  unfoldable pub change_ipv6_rdns : LoadBalancer → Service → Exec (State W T) (Error E) Bool
  unfolding change_rdns
  change_ipv6_rdns lb svc =
      change_rdns (string_from_service lb_public_ipv6_rdns svc) lb.public_net.ipv6_dns_ptr
        lb.public_net.ipv6 lb

  unfoldable pub detach_loop :
      ℤ → Option String → LoadBalancer → List PrivateNet → Bool → Exec (State W T) (Error E) Bool
  unfolding act ip_matches
  detach_loop network_id ip lb [] changed = pure changed
  detach_loop network_id ip lb (n ∷ ns) changed =
      if int_eq network_id n.network_id && ip_matches ip n.ip
      then detach_loop network_id ip lb ns changed
      else act (client.detach_from_network lb n.network_id) >>= detach_loop network_id ip lb ns

  unfoldable pub detach_from_network : ℤ → LoadBalancer → Service → Exec (State W T) (Error E) Bool
  unfolding detach_loop
  detach_from_network network_id lb svc =
      detach_loop network_id (string_from_service lb_private_ipv4 svc) lb lb.private_net false

  -- The second try, after a pause, if the first one met a conflict or a lock.
  unfoldable pub retry :
      Duration → LoadBalancer → AttachOpts Net Ip Cidr → Result E Act × W → Result E Act × W
  retry delay lb opts (ok a, w) = (ok a, w)
  retry delay lb opts (err e, w) =
      if client.is_conflict_or_locked e
      then client.attach_to_network lb opts (client.sleep delay w)
      else (err e, w)

  unfoldable pub retry_delay : Duration → Duration
  retry_delay delay = if int_eq delay (pos 0) then pos second else delay

  unfoldable pub attach :
      Duration → LoadBalancer → AttachOpts Net Ip Cidr → Exec (State W T) (Error E) Bool
  unfolding act retry retry_delay
  attach delay lb opts =
      act (λ w. retry (retry_delay delay) lb opts (client.attach_to_network lb opts w))

  unfoldable pub parsed_ip : Option String → Result (Error E) (Option Ip)
  parsed_ip none = ok none
  parsed_ip (some v) = elim (client.parse_ip v) [
    | none ↦ err (invalid_private_ip v)
    | some ip ↦ ok (some ip)
  ]

  unfoldable pub parsed_subnet : Option String → Result (Error E) (Option Cidr)
  parsed_subnet none = ok none
  parsed_subnet (some v) = elim (client.parse_cidr v) [
    | none ↦ err (invalid_subnet v)
    | some c ↦ ok (some c)
  ]

  unfoldable pub known_network : ℤ → Option Net → Result (Error E) Net
  known_network id none = err (network_not_found id)
  known_network id (some n) = ok n

  unfoldable pub returned : {A : Type 0} → Result (Error E) A → Exec (State W T) (Error E) A
  returned r s = (r, s)

  module _ (cfg : LoadBalancerConfiguration) (network_id : ℤ) (delay : Duration) where
    unfoldable pub subnet_of : Service → Option String
    subnet_of svc = elim (string_from_service private_subnet_ip_range svc) [
      | some v ↦ some v
      | none ↦ if cfg.private_subnet_ip_range == "" then none else some cfg.private_subnet_ip_range
    ]

    unfoldable pub attach_to_network : LoadBalancer → Service → Exec (State W T) (Error E) Bool
    unfolding subnet_of lb_attached text_or_empty parsed_ip parsed_subnet known_network returned
        attach call
    attach_to_network lb svc =
        let private_ipv4 = string_from_service lb_private_ipv4 svc in
        if int_eq network_id (pos 0)
          || lb_attached lb.private_net network_id (text_or_empty private_ipv4)
        then pure false
        else (do
          ip ← returned (parsed_ip private_ipv4)
          subnet ← returned (parsed_subnet (subnet_of svc))
          answer ← call req (client.get_network network_id)
          network ← returned (known_network network_id answer)
          attach delay lb (record { network = network; ip = ip; ip_range = subnet }))

    unfoldable pub change_to : Option String → LoadBalancer → Exec (State W T) (Error E) Bool
    unfolding act
    change_to none lb = pure false
    change_to (some at) lb =
        if at == lb.algorithm_type then pure false else act (client.change_algorithm lb at)

    -- The desired algorithm is the one of `Create`.
    unfoldable pub change_algorithm : LoadBalancer → Service → Exec (State W T) (Error E) Bool
    unfolding change_to
    change_algorithm lb svc = elim (algorithm req cfg svc) [
      | err e ↦ fail (annotation_error e)
      | ok at ↦ change_to at lb
    ]

    unfoldable pub change_unless : Bool → LoadBalancer → T → Exec (State W T) (Error E) Bool
    unfolding act
    change_unless same lb t = if same then pure false else act (client.change_type lb t)

    unfoldable pub change_type :
        Source W E T → LoadBalancer → Service → Exec (State W T) (Error E) Bool
    unfolding get_type change_unless
    change_type src lb svc = do
      (t, unset) ← get_type req cfg src svc
      change_unless (unset || lb.type_name == client.name_of_type t) lb t

    unfoldable pub desired_disable : Service → Result AnnotationError (Option Bool)
    desired_disable svc = elim (bool_from_service lb_disable_public_network svc) [
      | ok b ↦ ok (some b)
      | err not_set ↦ ok cfg.disable_public_network
      | err invalid ↦ err invalid
    ]

    unfoldable pub toggle_to : Option Bool → LoadBalancer → Exec (State W T) (Error E) Bool
    unfolding act
    toggle_to none lb = pure false
    toggle_to (some true) lb =
        if lb.public_net.enabled then act (client.disable_public_interface lb) else pure false
    toggle_to (some false) lb =
        if lb.public_net.enabled then pure false else act (client.enable_public_interface lb)

    unfoldable pub toggle_public_interface :
        LoadBalancer → Service → Exec (State W T) (Error E) Bool
    unfolding desired_disable toggle_to
    toggle_public_interface lb svc = elim (desired_disable svc) [
      | err e ↦ fail (annotation_error e)
      | ok desired ↦ toggle_to desired lb
    ]

    unfoldable pub reconcile_hclb :
        Source W E T → LoadBalancer → Service → Exec (State W T) (Error E) (Bool × LoadBalancer)
    unfolding change_hclb_info change_ipv4_rdns change_ipv6_rdns change_algorithm change_type
        detach_from_network attach_to_network toggle_public_interface
    reconcile_hclb src lb svc = do
      (label_set, lb) ← change_hclb_info lb svc
      ipv4_changed ← change_ipv4_rdns lb svc
      ipv6_changed ← change_ipv6_rdns lb svc
      algorithm_changed ← change_algorithm lb svc
      type_changed ← change_type src lb svc
      detached ← detach_from_network network_id lb svc
      attached ← attach_to_network lb svc
      toggled ← toggle_public_interface lb svc
      pure (
        label_set
            || (ipv4_changed
                || (ipv6_changed
                    || (algorithm_changed
                        || (type_changed || (detached || (attached || toggled)))))),
        lb,
      )
