-- ===== src/ProviderId/RoundTrip.antt =====
-- Provider IDs that the controller writes, and those of the older format, are read back.
use hcloud_cloud_controller.Common.{ℤ, Bool, true, false, some, [], ◌∷◌, ◌++◌, ◌≡◌, ok, arith}
use hcloud_cloud_controller.ProviderId.{
  Bytes, codes, IsInt64, prefix_cloud, prefix_robot, prefix_robot_legacy, has_prefix, remove_all,
  parse_int, format_int, parse_id_string, to_server_id, from_cloud_server_id,
  from_robot_server_number,
}
use hcloud_cloud_controller.ProviderId.Decimal.{parse_int-format_int, format_int-Lacks}
use hcloud_cloud_controller.ProviderId.Replace.{
  remove_all_front, remove_all-Lacks, has_prefix-Lacks,
}

pub to_server_id_robot :
    (s : Bytes)
    → to_server_id (prefix_robot ++ s)
      ≡ parse_id_string (prefix_robot ++ s) (remove_all prefix_robot s) false
unfolding to_server_id
to_server_id_robot s = rw (remove_all_front b'h' (codes "robot://") s)

pub to_server_id_legacy :
    (s : Bytes)
    → to_server_id (prefix_robot_legacy ++ s)
      ≡ parse_id_string (prefix_robot_legacy ++ s) (remove_all prefix_robot_legacy s) false
unfolding to_server_id
to_server_id_legacy s = rw (remove_all_front b'h' (codes "cloud://bm-") s)

pub to_server_id_cloud :
    (s : Bytes)
    → has_prefix s (codes "bm-") ≡ false
    → to_server_id (prefix_cloud ++ s)
      ≡ parse_id_string (prefix_cloud ++ s) (remove_all prefix_cloud s) true
unfolding to_server_id
to_server_id_cloud s h = rw (h, remove_all_front b'h' (codes "cloud://") s)

parse_id_string_of_some :
    (p s : Bytes) (cloud : Bool) (id : ℤ)
    → parse_int s ≡ some id
    → parse_id_string p s cloud ≡ ok (id, cloud)
unfolding parse_id_string
parse_id_string_of_some p [] cloud id h = unfold parse_int in cc
parse_id_string_of_some p (c ∷ s) cloud id h = rw (h, parse_id_string)

-- A printed number is read whatever prefix was removed.
parse_printed :
    (p q : Bytes) (cloud : Bool) (id : ℤ)
    → IsInt64 id
    → parse_id_string p (remove_all (b'h' ∷ q) (format_int id)) cloud ≡ ok (id, cloud)
parse_printed p q cloud id h =
    rw (remove_all-Lacks b'h' q (format_int id) (format_int-Lacks b'h' id (omega arith)))
      (parse_id_string_of_some p (format_int id) cloud id (parse_int-format_int id h))

-- Every int64 ID of a cloud server is read back from its provider ID, as a cloud server's.
pub to_server_id-from_cloud_server_id :
    (id : ℤ) → IsInt64 id → to_server_id (from_cloud_server_id id) ≡ ok (id, true)
unfolding from_cloud_server_id
to_server_id-from_cloud_server_id id h =
    rw
      (
        to_server_id_cloud (format_int id),
        has_prefix-Lacks b'b' (codes "m-") (format_int id) (format_int-Lacks b'b' id (omega arith)),
      )
      (parse_printed (prefix_cloud ++ format_int id) (codes "cloud://") true id h)

-- Every int64 number of a Robot server is read back from its provider ID, and from the provider ID
-- of the legacy format, as a Robot server's.
pub to_server_id-from_robot_server_number :
    (id : ℤ)
    → IsInt64 id
    → (to_server_id (from_robot_server_number id) ≡ ok (id, false))
      × (to_server_id (prefix_robot_legacy ++ format_int id) ≡ ok (id, false))
unfolding from_robot_server_number
to_server_id-from_robot_server_number id h = (
  rw (to_server_id_robot (format_int id))
      (parse_printed (prefix_robot ++ format_int id) (codes "robot://") false id h),
  rw (to_server_id_legacy (format_int id))
      (parse_printed (prefix_robot_legacy ++ format_int id) (codes "cloud://bm-") false id h),
)
