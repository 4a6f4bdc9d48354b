-- ===== src/Tests/ProviderIds.antt =====
-- internal/providerid/providerid.go on concrete provider IDs.
use hcloud_cloud_controller.Common.{pos, negsuc, true, false, ◌≡◌, refl, ok, ◌++◌}
use hcloud_cloud_controller.ProviderId.{
  codes, prefix_robot_legacy, to_server_id, has_prefix, from_cloud_server_id,
  from_robot_server_number, format_int, remove_all, sweep, parse_id_string, parse_int, parse_uint,
  scan, with_sign,
}
use hcloud_cloud_controller.ProviderId.RoundTrip.{
  to_server_id-from_cloud_server_id, to_server_id-from_robot_server_number,
}

to_server_id-from_cloud_server_id_example :
    to_server_id (from_cloud_server_id (pos 123)) ≡ ok (pos 123, true)
to_server_id-from_cloud_server_id_example = to_server_id-from_cloud_server_id (pos 123) refl

to_server_id-from_robot_server_number_example :
    (to_server_id (from_robot_server_number (pos 321)) ≡ ok (pos 321, false))
    × (to_server_id (prefix_robot_legacy ++ format_int (pos 321)) ≡ ok (pos 321, false))
to_server_id-from_robot_server_number_example = to_server_id-from_robot_server_number (pos 321) refl

runs :
    (to_server_id (codes "hcloud://-5") ≡ ok (negsuc 4, true))
    × (to_server_id (codes "hrobot://12") ≡ ok (pos 12, false))
unfolding to_server_id has_prefix remove_all sweep parse_id_string parse_int parse_uint scan
    with_sign
runs = (refl, refl)
