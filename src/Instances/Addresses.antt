-- ===== src/Instances/Addresses.antt =====
-- hcloud/instances.go: `hcloudNodeAddresses` and `robotNodeAddresses`.
use Prim.Native.String.{◌++◌ as text_append}
use hcloud_cloud_controller.Common.{
  ℕ, suc, ◌%◌, ℤ, pos, String, Bool, false, ◌&&◌, ◌||◌, not, List, [], ◌∷◌, ◌++◌, if◌then◌else◌,
  nat_eq, int_eq, int_le, ◌==◌, Eq-string,
}
use hcloud_cloud_controller.Kube.{Node, NodeAddress, host_name, external_ip, internal_ip}
use hcloud_cloud_controller.ProviderId.{Bytes}
use hcloud_cloud_controller.Config.{HccmConfiguration}
use hcloud_cloud_controller.Hcops.Targets.{is_internal_ip}
use hcloud_cloud_controller.Instances.Data.{
  CloudServer, RobotServer, Event, misconfigured_internal_ip, Network,
}

unfoldable pub is_dual_stack : HccmConfiguration → Bool
is_dual_stack cfg = cfg.instance_configuration.address_family == "dualstack"

unfoldable pub wants_ipv4 : HccmConfiguration → Bool
unfolding is_dual_stack
wants_ipv4 cfg = cfg.instance_configuration.address_family == "ipv4" || is_dual_stack cfg

unfoldable pub wants_ipv6 : HccmConfiguration → Bool
unfolding is_dual_stack
wants_ipv6 cfg = cfg.instance_configuration.address_family == "ipv6" || is_dual_stack cfg

-- `b | 0x01`
unfoldable pub with_low_bit : ℕ → ℕ
with_low_bit b = if nat_eq (b % 2) 0 then suc b else b

-- The last byte gets its low bit; an address that is not unspecified has one.
unfoldable pub set_host_bit : Bytes → Bytes
unfolding with_low_bit
set_host_bit [] = []
set_host_bit (b ∷ []) = with_low_bit b ∷ []
set_host_bit (b ∷ c ∷ bs) = b ∷ set_host_bit (c ∷ bs)

module _ (net : Network) where
  unfoldable pub ipv4_address : Bool → CloudServer → List NodeAddress
  ipv4_address wanted server =
      if wanted && not (net.ipv4_is_unspecified server.ipv4)
      then record { type = external_ip; address = net.ip_string server.ipv4 } ∷ []
      else []

  -- The address, and the server as it is left.
  unfoldable pub ipv6_address : Bool → CloudServer → List NodeAddress × CloudServer
  unfolding set_host_bit
  ipv6_address wanted server =
      if wanted && not (net.ipv6_is_unspecified server.ipv6)
      then (
        record { type = external_ip; address = net.ip_string (set_host_bit server.ipv6) } ∷ [],
        record server { ipv6 = set_host_bit server.ipv6 },
      )
      else ([], server)

  unfoldable pub private_addresses : ℤ → List (ℤ × Bytes) → List NodeAddress
  private_addresses network_id [] = []
  private_addresses network_id ((id, ip) ∷ nets) =
      let rest = private_addresses network_id nets in
      if int_eq id network_id
      then record { type = internal_ip; address = net.ip_string ip } ∷ rest
      else rest

  unfoldable pub hcloud_node_addresses :
      ℤ → CloudServer → HccmConfiguration → List NodeAddress × CloudServer
  unfolding wants_ipv4 wants_ipv6 ipv4_address ipv6_address private_addresses
  hcloud_node_addresses network_id server cfg =
      let (external, server') = ipv6_address (wants_ipv6 cfg) server in
      let internal =
        if int_le network_id (pos 0) then [] else private_addresses network_id server.private_net in
      (
        record { type = host_name; address = server.name } ∷ ipv4_address (wants_ipv4 cfg) server
            ++ external
            ++ internal,
        server',
      )

  -- Whether an address of the family is not to be added.
  unfoldable pub is_other_family : HccmConfiguration → String → Bool
  unfolding is_dual_stack wants_ipv4 wants_ipv6
  is_other_family cfg address =
      not (is_dual_stack cfg)
      && (net.is_ipv4 address && wants_ipv6 cfg || not (net.is_ipv4 address) && wants_ipv4 cfg)

  unfoldable pub has_address : String → List NodeAddress → Bool
  has_address address [] = false
  has_address address (a ∷ as') = address == a.address || has_address address as'

  module _ {W : Type 0} (event : Event → W → W) (node : Node) (cfg : HccmConfiguration) where
    -- The loop over the addresses of the node.
    unfoldable pub forward_internal_ips :
        List NodeAddress → List NodeAddress → W → List NodeAddress × W
    unfolding is_other_family has_address
    forward_internal_ips [] addresses w = (addresses, w)
    forward_internal_ips (a ∷ as') addresses w =
        let skip = forward_internal_ips as' addresses in
        let warn = event (misconfigured_internal_ip node a.address) in
        if not (is_internal_ip a.type)
        then skip w
        else if is_other_family cfg a.address
        then skip (warn w)
        else if has_address a.address addresses
        then skip (warn w)
        else forward_internal_ips as' (addresses ++ a ∷ []) w

    abbrev external_ipv6 : RobotServer → List NodeAddress
    external_ipv6 server =
        if wants_ipv6 cfg
        then record { type = external_ip; address = text_append server.server_ipv6_net "1" } ∷ []
        else []

    abbrev external_ipv4 : RobotServer → List NodeAddress
    external_ipv4 server =
        if wants_ipv4 cfg
        then record { type = external_ip; address = server.server_ip } ∷ []
        else []

    unfoldable pub own_addresses : RobotServer → List NodeAddress
    unfolding wants_ipv4 wants_ipv6
    own_addresses server =
        record { type = host_name; address = server.name } ∷ external_ipv6 server
        ++ external_ipv4 server

    unfoldable pub robot_node_addresses : RobotServer → W → List NodeAddress × W
    unfolding own_addresses forward_internal_ips
    robot_node_addresses server w =
        if cfg.robot.forward_internal_ips
        then forward_internal_ips node.addresses (own_addresses server) w
        else (own_addresses server, w)
