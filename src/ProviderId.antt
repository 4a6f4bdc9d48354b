-- ===== src/ProviderId.antt =====
-- internal/providerid/providerid.go: provider IDs of nodes. A Go string is the list of its bytes.
-- An error keeps the constructor of the message and the provider ID in it, and not its English
-- text.
pub mod Decimal
pub mod Replace
pub mod RoundTrip
pub mod Accepts
use Prim.Native.Char.{code}
use hcloud_cloud_controller.Common.{
  ℕ, zero, suc, ◌+◌, ◌-◌, ◌*◌, ◌/◌, ◌%◌, ◌^◌, String, Bool, true, false, ◌&&◌, Option, none, some,
  List, [], ◌∷◌, ◌++◌, ltb, leb, nat_eq, if◌then◌else◌, length, ℤ, pos, negsuc, Result, ok, err,
  ◌≡◌,
}

abbrev pub Bytes : Type 0
Bytes = List ℕ

abbrev pub codes : String → Bytes
codes String.[] = []
codes (String.◌∷◌ c s) = code c ∷ codes s

abbrev pub prefix_cloud : Bytes
prefix_cloud = codes "hcloud://"

abbrev pub prefix_robot : Bytes
prefix_robot = codes "hrobot://"

abbrev pub prefix_robot_legacy : Bytes
prefix_robot_legacy = codes "hcloud://bm-"

pub data Error : Type 0 where
  unknown_prefix missing_server_id unparsable_server_id : Bytes → Error

-- `strings.HasPrefix`
unfoldable pub has_prefix : Bytes → Bytes → Bool
has_prefix s [] = true
has_prefix [] (c ∷ p) = false
has_prefix (d ∷ s) (c ∷ p) = nat_eq c d && has_prefix s p

-- One pass that drops the bytes of each occurrence of `old`, which is not empty; the number counts
-- the bytes of the current occurrence that are still to be dropped.
unfoldable pub sweep : Bytes → ℕ → Bytes → Bytes
unfolding has_prefix
sweep old n [] = []
sweep old (suc n) (c ∷ s) = sweep old n s
sweep old zero (c ∷ s) = elim (has_prefix (c ∷ s) old) [
  | true ↦ sweep old (length old - 1) s
  | false ↦ c ∷ sweep old zero s
]

-- `strings.ReplaceAll(s, old, "")`
unfoldable pub remove_all : Bytes → Bytes → Bytes
unfolding sweep
remove_all old s = sweep old 0 s

unfoldable pub scan : Bytes → ℕ → Option ℕ
scan [] n = some n
scan (c ∷ s) n = if leb b'0' c && leb c b'9' then scan s (n * 10 + (c - b'0')) else none

-- `strconv.ParseUint(s, 10, 64)`
unfoldable pub parse_uint : Bytes → Option ℕ
unfolding scan
parse_uint [] = none
parse_uint (c ∷ s) = elim (scan (c ∷ s) 0) [
  | none ↦ none
  | some n ↦ if ltb n (2 ^ 64) then some n else none
]

abbrev pub to_negative : ℕ → ℤ
to_negative zero = pos 0
to_negative (suc n) = negsuc n

unfoldable pub with_sign : Bool → Option ℕ → Option ℤ
with_sign neg none = none
with_sign false (some n) = if ltb n (2 ^ 63) then some (pos n) else none
with_sign true (some n) = if leb n (2 ^ 63) then some (to_negative n) else none

-- `strconv.ParseInt(s, 10, 64)`
unfoldable pub parse_int : Bytes → Option ℤ
parse_int [] = none
parse_int (c ∷ s) =
    if nat_eq c b'-'
    then with_sign true (parse_uint s)
    else with_sign false (parse_uint (if nat_eq c b'+' then s else c ∷ s))

-- What follows the `switch` of `ToServerID`.
unfoldable pub parse_id_string : Bytes → Bytes → Bool → Result Error (ℤ × Bool)
parse_id_string provider_id [] is_cloud_server = err (missing_server_id provider_id)
parse_id_string provider_id (c ∷ s) is_cloud_server = elim (parse_int (c ∷ s)) [
  | none ↦ err (unparsable_server_id provider_id)
  | some id ↦ ok (id, is_cloud_server)
]

unfoldable pub to_server_id : Bytes → Result Error (ℤ × Bool)
unfolding has_prefix
to_server_id p =
    if has_prefix p prefix_robot
    then parse_id_string p (remove_all prefix_robot p) false
    else if has_prefix p prefix_robot_legacy
    then parse_id_string p (remove_all prefix_robot_legacy p) false
    else if has_prefix p prefix_cloud
    then parse_id_string p (remove_all prefix_cloud p) true
    else err (unknown_prefix p)

-- The decimal digits of a number below `10 ^ fuel`.
unfoldable pub digits : ℕ → ℕ → Bytes
digits zero n = []
digits (suc f) n =
    let front = digits f (n / 10) in
    if ltb n 10 then (b'0' + n) ∷ [] else front ++ (b'0' + n % 10) ∷ []

unfoldable pub decimal : ℕ → Bytes
unfolding digits
decimal n = digits (suc n) n

-- `%d`
unfoldable pub format_int : ℤ → Bytes
unfolding decimal
format_int (pos n) = decimal n
format_int (negsuc n) = b'-' ∷ decimal (suc n)

unfoldable pub from_cloud_server_id : ℤ → Bytes
from_cloud_server_id id = prefix_cloud ++ format_int id

unfoldable pub from_robot_server_number : ℤ → Bytes
from_robot_server_number id = prefix_robot ++ format_int id

-- The numbers that an `int64` holds.
abbrev pub IsInt64 : ℤ → Type 0
IsInt64 (pos n) = ltb n (2 ^ 63) ≡ true
IsInt64 (negsuc n) = ltb n (2 ^ 63) ≡ true
