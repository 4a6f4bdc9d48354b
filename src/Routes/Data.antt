-- ===== src/Routes/Data.antt =====
-- hcloud/routes.go: the networks, the routes, what is called for them, and the IP addresses of Go.
use hcloud_cloud_controller.Common.{
  ℕ, ℤ, String, Bool, true, false, ◌&&◌, ◌||◌, Option, List, [], ◌∷◌, ◌++◌, nat_eq, if◌then◌else◌,
  Exec, length,
}
use hcloud_cloud_controller.Kube.{Node, NodeAddress}
use hcloud_cloud_controller.ProviderId
use hcloud_cloud_controller.ProviderId.{Bytes, has_prefix}

-- `net.IP`: the bytes, none for nil
abbrev pub Ip : Type 0
Ip = Bytes

-- `net.IPNet` with the length of its mask's prefix
pub record IpNet : Type 0 where
  pub ip : Ip
  pub prefix_length : ℕ

pub record NetworkRoute : Type 0 where
  pub destination : IpNet
  pub gateway : Ip

pub record Network : Type 0 where
  pub id : ℤ
  pub name : String
  pub routes : List NetworkRoute

-- `cloudprovider.Route`; a name of no node is the empty text.
pub record Route : Type 0 where
  pub name : String
  pub target_node : String
  pub target_node_addresses : List NodeAddress
  pub destination_cidr : String
  pub blackhole : Bool

pub data RouteError (E : Type 0) : Type 0 where
  api conflict : E → RouteError E
  provider_id_error : ProviderId.Error → RouteError E
  network_not_found invalid_cidr ipv6_unsupported not_a_cloud_server server_not_found : RouteError E
  network_not_attached not_a_target_address route_not_found : RouteError E

-- What the code calls: hcloud-go, the node lister, the event recorder and Go's `net`.
pub record Client (W E Server Act : Type 0) : Type 0 where
  pub get_network : ℤ → Exec W E (Option Network)
  pub add_route : Network → NetworkRoute → Exec W E Act
  pub delete_route : Network → NetworkRoute → Exec W E Act
  pub wait_for : Act → Exec W E (Unit {0})
  pub get_node : String → Exec W E Node
  pub warn_cidr : Node → IpNet → W → W
  pub is_locked_or_conflict : E → Bool
  pub private_net_for : Server → ℤ → Option Ip
  pub parse_cidr : String → Option (Ip × IpNet)
  pub ip_string : Ip → String
  pub cidr_string : IpNet → String
  pub contains : IpNet → Ip → Bool

-- Whether two lists of bytes are the same.
unfoldable pub bytes_eq : Bytes → Bytes → Bool
bytes_eq [] [] = true
bytes_eq (a ∷ s) (b ∷ t) = nat_eq a b && bytes_eq s t
bytes_eq _ _ = false

-- `v4InV6Prefix`
abbrev pub v4_in_v6_prefix : Bytes
v4_in_v6_prefix = 0 ∷ 0 ∷ 0 ∷ 0 ∷ 0 ∷ 0 ∷ 0 ∷ 0 ∷ 0 ∷ 0 ∷ 255 ∷ 255 ∷ []

-- `IP.Equal`: an IPv4 address and its form in IPv6 are equal.
unfoldable pub ip_equal : Ip → Ip → Bool
unfolding bytes_eq
ip_equal ip x =
    if nat_eq (length ip) (length x)
    then bytes_eq ip x
    else if nat_eq (length ip) 4 && nat_eq (length x) 16
    then bytes_eq (v4_in_v6_prefix ++ ip) x
    else nat_eq (length ip) 16 && (nat_eq (length x) 4 && bytes_eq ip (v4_in_v6_prefix ++ x))

abbrev pub ipv4_zero : Ip
ipv4_zero = v4_in_v6_prefix ++ 0 ∷ 0 ∷ 0 ∷ 0 ∷ []

abbrev pub ipv6_unspecified : Ip
ipv6_unspecified = 0 ∷ 0 ∷ 0 ∷ 0 ∷ 0 ∷ 0 ∷ 0 ∷ 0 ∷ 0 ∷ 0 ∷ 0 ∷ 0 ∷ 0 ∷ 0 ∷ 0 ∷ 0 ∷ []

-- `IP.IsUnspecified`
unfoldable pub is_unspecified : Ip → Bool
unfolding ip_equal
is_unspecified ip = ip_equal ip ipv4_zero || ip_equal ip ipv6_unspecified

-- `IP.To4() != nil`
unfoldable pub is_ipv4 : Ip → Bool
unfolding has_prefix
is_ipv4 ip = nat_eq (length ip) 4 || (nat_eq (length ip) 16 && has_prefix ip v4_in_v6_prefix)
