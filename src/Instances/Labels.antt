-- ===== src/Instances/Labels.antt =====
-- hcloud/instances_util.go and internal/legacydatacenter/datacenter.go: the texts in the metadata of a
-- node.
use Prim.Native.Char.{Char, code}
use Prim.Native.String.{◌∷◌ as text_cons}
use hcloud_cloud_controller.Common.{
  String, Bool, ◌&&◌, ◌||◌, List, [], ◌∷◌, if◌then◌else◌, leb, nat_eq, ◌==◌, Eq-string,
}
use hcloud_cloud_controller.Annotation.Values.{split}
use hcloud_cloud_controller.Instances.Data.{RobotServer}

-- `NameFromLocation` of internal/legacydatacenter/datacenter.go
unfoldable pub name_from_location : String → String
name_from_location location =
    if location == "nbg1"
    then "nbg1-dc3"
    else if location == "hel1"
    then "hel1-dc2"
    else if location == "fsn1"
    then "fsn1-dc14"
    else if location == "ash"
    then "ash-dc1"
    else if location == "hil"
    then "hil-dc1"
    else if location == "sin"
    then "sin-dc1"
    else location

unfoldable pub replace_space : Char → Char
replace_space c = if nat_eq (code c) b' ' then "-" else c

-- `[a-zA-Z0-9_.-]`
unfoldable pub is_label_char : Char → Bool
is_label_char c =
    let n = code c in
    leb b'a' n && leb n b'z'
    || (leb b'A' n && leb n b'Z'
        || (leb b'0' n && leb n b'9' || (nat_eq n b'_' || (nat_eq n b'.' || nat_eq n b'-'))))

-- `getInstanceTypeOfRobotServer` for the product of a server
unfoldable pub instance_type_of_product : String → String
unfolding replace_space is_label_char
instance_type_of_product String.[] = ""
instance_type_of_product (String.◌∷◌ c s) =
    let rest = instance_type_of_product s in
    if is_label_char (replace_space c) then text_cons (replace_space c) rest else rest

-- The first part of a split text, which has one.
unfoldable pub first_part : List String → String
first_part [] = ""
first_part (p ∷ ps) = p

unfoldable pub get_zone_of_robot_server : (String → String) → RobotServer → String
get_zone_of_robot_server to_lower server = to_lower server.dc

unfoldable pub get_region_of_robot_server : (String → String) → RobotServer → String
unfolding get_zone_of_robot_server first_part split
get_region_of_robot_server to_lower server =
    first_part (split b'-' (get_zone_of_robot_server to_lower server))
