-- ===== src/ProviderId/Accepts.antt =====
-- Which provider IDs `ToServerID` accepts.
use hcloud_cloud_controller.Common.{
  ℤ, Bool, true, false, none, some, Option, [], ◌∷◌, ◌++◌, ◌≡◌, ◌≢◌, ◌↔◌, ℕ, ok, err, arith,
  Bool-cases, inl, inr, nat_eq, pos, negsuc, zero, suc, if◌then◌else◌,
}
use hcloud_cloud_controller.ProviderId.{
  Bytes, codes, unknown_prefix, IsInt64, prefix_cloud, prefix_robot, prefix_robot_legacy,
  has_prefix, remove_all, parse_uint, with_sign, parse_int, parse_id_string, to_server_id,
}
use hcloud_cloud_controller.ProviderId.RoundTrip.{to_server_id_robot}
use hcloud_cloud_controller.ProviderId.Replace.{remove_all_front, has_prefix_shorter}

with_sign-IsInt64 : (neg : Bool) (n : Option ℕ) (id : ℤ) → with_sign neg n ≡ some id → IsInt64 id
unfolding with_sign
with_sign-IsInt64 neg none (pos m) h = cc
with_sign-IsInt64 neg none (negsuc m) h = cc
with_sign-IsInt64 true (some zero) (pos m) h = ground arith
with_sign-IsInt64 true (some (suc n)) (pos m) h = ground arith
with_sign-IsInt64 true (some zero) (negsuc m) h = ground arith
with_sign-IsInt64 true (some (suc n)) (negsuc m) h = ground arith
with_sign-IsInt64 false (some n) (pos m) h = ground arith
with_sign-IsInt64 false (some n) (negsuc m) h = ground arith

parse_int-IsInt64 : (s : Bytes) (id : ℤ) → parse_int s ≡ some id → IsInt64 id
unfolding parse_int
parse_int-IsInt64 [] id h = absurd (cc)
parse_int-IsInt64 (c ∷ s) id h = elim (Bool-cases (nat_eq c b'-')) [
  | inl e ↦ with_sign-IsInt64 true (parse_uint s) id (rw e at h)
  | inr e ↦ with_sign-IsInt64 false (parse_uint (if nat_eq c b'+' then s else c ∷ s)) id (rw e at h)
]

parse_id_string-IsInt64 :
    (p s : Bytes) (b : Bool) (id : ℤ) (cloud : Bool)
    → parse_id_string p s b ≡ ok (id, cloud)
    → IsInt64 id
unfolding parse_id_string
parse_id_string-IsInt64 p [] b id cloud h = absurd (cc)
parse_id_string-IsInt64 p (c ∷ s) b id cloud h = parse_int-IsInt64 (c ∷ s) id (ground arith)

-- Every ID that `ToServerID` returns, whatever its input, is in the range of an int64.
pub to_server_id-IsInt64 :
    (p : Bytes) (id : ℤ) (cloud : Bool) → to_server_id p ≡ ok (id, cloud) → IsInt64 id
unfolding to_server_id
to_server_id-IsInt64 p id cloud h = ground (
  arith,
  parse_id_string-IsInt64 p (remove_all prefix_robot p) false id cloud,
  parse_id_string-IsInt64 p (remove_all prefix_robot_legacy p) false id cloud,
  parse_id_string-IsInt64 p (remove_all prefix_cloud p) true id cloud,
)

parse_id_string-ne-unknown :
    (p s q : Bytes) (cloud : Bool) → parse_id_string p s cloud ≢ err (unknown_prefix q)
unfolding parse_id_string
parse_id_string-ne-unknown p [] q cloud = ground arith
parse_id_string-ne-unknown p (c ∷ s) q cloud = ground arith

-- `ToServerID` fails with an unknown prefix exactly when the provider ID begins with neither the
-- Cloud nor the Robot prefix; the legacy prefix extends the Cloud prefix.
pub to_server_id_unknown :
    (p : Bytes)
    → (to_server_id p ≡ err (unknown_prefix p))
      ↔ ((has_prefix p prefix_robot ≡ false) × (has_prefix p prefix_cloud ≡ false))
unfolding to_server_id
to_server_id_unknown p = ground (
  arith,
  has_prefix_shorter p prefix_cloud (codes "bm-"),
  parse_id_string-ne-unknown p (remove_all prefix_robot p) p false,
  parse_id_string-ne-unknown p (remove_all prefix_robot_legacy p) p false,
  parse_id_string-ne-unknown p (remove_all prefix_cloud p) p true,
)

-- The provider ID itself is used in errors only.
parse_id_string-provider_id :
    (p q s : Bytes) (b : Bool) (r : ℤ × Bool)
    → parse_id_string p s b ≡ ok r
    → parse_id_string q s b ≡ ok r
unfolding parse_id_string
parse_id_string-provider_id p q [] b r h = absurd (cc)
parse_id_string-provider_id p q (c ∷ s) b r h = ground arith

-- A provider ID that repeats the Robot prefix is accepted whenever the one with a single prefix is:
-- each occurrence of the prefix is removed, not only the first.
pub to_server_id_repeated :
    (s : Bytes) (id : ℤ) (cloud : Bool)
    → to_server_id (prefix_robot ++ s) ≡ ok (id, cloud)
    → to_server_id (prefix_robot ++ (prefix_robot ++ s)) ≡ ok (id, cloud)
to_server_id_repeated s id cloud h =
    rw (to_server_id_robot (prefix_robot ++ s), remove_all_front b'h' (codes "robot://") s)
      (parse_id_string-provider_id (prefix_robot ++ s) (prefix_robot ++ (prefix_robot ++ s))
        (remove_all prefix_robot s) false (id, cloud) (rw (to_server_id_robot s) at h))
