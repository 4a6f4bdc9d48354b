-- ===== src/Annotation/Values.antt =====
-- internal/annotation/name.go: the readers of lists, numbers, addresses, durations, protocols and
-- certificates. `time.ParseDuration`, `net.ParseIP` and `strings.ToLower` are parameters.
use Prim.Native.Char.{Char, code}
use Prim.Native.String.{◌∷◌ as text_cons}
use hcloud_cloud_controller.Common.{
  ℕ, ℤ, pos, String, ◌||◌, Option, none, some, List, [], ◌∷◌, map, nat_eq, if◌then◌else◌, Result,
  ok, err, ◌==◌, Eq-string, Duration,
}
use hcloud_cloud_controller.Kube.{Service}
use hcloud_cloud_controller.ProviderId.{codes, parse_int}
use hcloud_cloud_controller.Annotation.{
  Name, AnnotationError, not_set, invalid, string_from_service,
}

-- `applyToValue`, where the function gives the value that it stores, or none for an error
unfoldable pub apply_to_value :
    {A : Type 0} → (String → Option A) → Option String → Result AnnotationError A
apply_to_value f none = err not_set
apply_to_value f (some v) = elim (f v) [ none ↦ err invalid | some a ↦ ok a ]

unfoldable pub from_service :
    {A : Type 0} → (String → Option A) → Name → Service → Result AnnotationError A
unfolding apply_to_value string_from_service
from_service f name svc = apply_to_value f (string_from_service name svc)

-- One more character of the first part.
unfoldable pub extend : Char → List String → List String
extend c [] = text_cons c "" ∷ []
extend c (part ∷ parts) = text_cons c part ∷ parts

-- `strings.Split` at a separator of one character
unfoldable pub split : ℕ → String → List String
unfolding extend
split separator String.[] = "" ∷ []
split separator (String.◌∷◌ c s) =
    let rest = split separator s in if nat_eq (code c) separator then "" ∷ rest else extend c rest

unfoldable pub strings_from_service : Name → Service → Result AnnotationError (List String)
unfolding from_service split
strings_from_service = from_service (λ v. some (split b',' v))

-- `strconv.Atoi`, which reads an int of 64 bits
unfoldable pub atoi : String → Option ℤ
unfolding parse_int
atoi v = parse_int (codes v)

unfoldable pub int_from_service : Name → Service → Result AnnotationError ℤ
unfolding from_service atoi
int_from_service = from_service atoi

unfoldable pub read_all : {A : Type 0} → (String → Option A) → List String → Option (List A)
read_all f [] = some []
read_all f (s ∷ ss) = elim (f s) [
  | none ↦ none
  | some a ↦ elim (read_all f ss) [ none ↦ none | some as' ↦ some (a ∷ as') ]
]

unfoldable pub ints_from_service : Name → Service → Result AnnotationError (List ℤ)
unfolding from_service split atoi read_all
ints_from_service = from_service (λ v. read_all atoi (split b',' v))

unfoldable pub ip_from_service :
    {Ip : Type 0} → (String → Option Ip) → Name → Service → Result AnnotationError Ip
unfolding from_service
ip_from_service parse_ip = from_service parse_ip

unfoldable pub duration_from_service :
    (String → Option Duration) → Name → Service → Result AnnotationError Duration
unfolding from_service
duration_from_service parse_duration = from_service parse_duration

unfoldable pub validate_service_protocol : (String → String) → String → Option String
validate_service_protocol to_lower v =
    let p = to_lower v in if p == "tcp" || (p == "https" || p == "http") then some p else none

unfoldable pub lb_svc_protocol_from_service :
    (String → String) → Name → Service → Result AnnotationError String
unfolding from_service validate_service_protocol
lb_svc_protocol_from_service to_lower = from_service (validate_service_protocol to_lower)

unfoldable pub network_zone_from_service : Name → Service → Result AnnotationError String
unfolding from_service
network_zone_from_service = from_service some

-- `hcloud.Certificate`, as far as it is used: an ID of zero and an empty name are not set.
pub record Certificate : Type 0 where
  pub id : ℤ
  pub name : String

-- A text that is no number is taken for a name.
unfoldable pub certificate_of : String → Certificate
unfolding parse_int
certificate_of s = elim (parse_int (codes s)) [
  | none ↦ record { id = pos 0; name = s }
  | some id ↦ record { id = id; name = "" }
]

unfoldable pub certificates_from_service :
    Name → Service → Result AnnotationError (List Certificate)
unfolding from_service split certificate_of
certificates_from_service = from_service (λ v. some (map certificate_of (split b',' v)))

unfoldable pub certificate_type : (String → String) → String → Option String
certificate_type to_lower v =
    if to_lower v == "uploaded"
    then some "uploaded"
    else if to_lower v == "managed"
    then some "managed"
    else none

unfoldable pub certificate_type_from_service :
    (String → String) → Name → Service → Result AnnotationError String
unfolding from_service certificate_type
certificate_type_from_service to_lower = from_service (certificate_type to_lower)
