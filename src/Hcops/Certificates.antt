-- ===== src/Hcops/Certificates.antt =====
-- internal/hcops/certificates.go, and `reconcileManagedCertificate` of
-- internal/hcops/load_balancer.go.
pub mod Labelled
use Prim.Native.String.{◌++◌ as text_append}
use hcloud_cloud_controller.Common.{
  String, Bool, false, Option, none, some, List, [], ◌∷◌, if◌then◌else◌, Result, ok, err, Exec,
  ◌>>=◌, pure, fail, insert, ◌==◌, Eq-string,
}
use hcloud_cloud_controller.Kube.{Service}
use hcloud_cloud_controller.Annotation.{
  AnnotationError, not_set, invalid, string_from_service, bool_from_service,
}
use hcloud_cloud_controller.Annotation.Values.{Certificate, strings_from_service}
use hcloud_cloud_controller.Annotation.ServiceNames.{
  lb_svc_http_certificate_type, lb_svc_http_managed_certificate_name,
  lb_svc_http_managed_certificate_domains, lb_svc_http_managed_certificate_use_acme_staging,
}
use hcloud_cloud_controller.Hcops.{
  Error, not_found, non_unique_result, already_exists, no_domains, api,
}
use hcloud_cloud_controller.Hcops.Requests.{label_service_uid}

-- `hcloud.CertificateCreateOpts`; the type is "managed".
pub record CreateOpts : Type 0 where
  pub name : String
  pub domain_names : List String
  pub labels : List (String × String)

pub record CertClient (W E Act : Type 0) : Type 0 where
  pub get : String → Exec W E (Option Certificate)
  pub all_with_label : String → String → Exec W E (List Certificate)
  pub create_certificate : CreateOpts → Exec W E Act
  pub wait_for : Act → Exec W E (Unit {0})
  pub is_uniqueness_error : E → Bool

-- An API call, whose error is kept.
unfoldable pub api_call : {W E A : Type 0} → Exec W E A → Exec W (Error E) A
api_call m w = let (r, w') = m w in (elim r [ ok a ↦ ok a | err e ↦ err (api e) ], w')

-- A value or an error that is known without a call.
unfoldable pub known : {W E A : Type 0} → Result (Error E) A → Exec W (Error E) A
known r w = (r, w)

unfoldable pub is_managed : Service → Bool
unfolding string_from_service
is_managed svc = elim (string_from_service lb_svc_http_certificate_type svc) [
  | none ↦ false
  | some v ↦ v == "managed"
]

unfoldable pub managed_name : Option String → Service → String
managed_name none svc = text_append "ccm-managed-certificate-" svc.uid
managed_name (some v) svc = if v == "" then text_append "ccm-managed-certificate-" svc.uid else v

-- An error other than a missing annotation is no error here, and gives no domains.
unfoldable pub managed_domains :
    {E : Type 0} → Result AnnotationError (List String) → Result (Error E) (List String)
managed_domains (ok domains) = ok domains
managed_domains (err not_set) = err no_domains
managed_domains (err invalid) = ok []

unfoldable pub is_true : Result AnnotationError Bool → Bool
is_true (ok b) = b
is_true (err _) = false

unfoldable pub managed_labels : Service → List (String × String)
unfolding is_true bool_from_service
managed_labels svc =
    let labels = (label_service_uid, svc.uid) ∷ [] in
    if is_true (bool_from_service lb_svc_http_managed_certificate_use_acme_staging svc)
    then insert "HC-Use-Staging-CA" "true" labels
    else labels

module _ {W E Act : Type 0} (client : CertClient W E Act) where
  unfoldable pub found : Option Certificate → Result (Error E) Certificate
  found none = err not_found
  found (some c) = ok c

  unfoldable pub get_certificate_by_name_or_id : String → Exec W (Error E) Certificate
  unfolding api_call found known
  get_certificate_by_name_or_id id_or_name = do
    cert ← api_call (client.get id_or_name)
    known (found cert)

  unfoldable pub single : List Certificate → Result (Error E) Certificate
  single [] = err not_found
  single (c ∷ []) = ok c
  single (c ∷ d ∷ cs) = err non_unique_result

  unfoldable pub get_certificate_by_label : String → String → Exec W (Error E) Certificate
  unfolding api_call single known
  get_certificate_by_label key value = do
    certs ← api_call (client.all_with_label key value)
    known (single certs)

  unfoldable pub finish_create : Result E Act → Exec W (Error E) (Unit {0})
  unfolding api_call
  finish_create (ok action) = api_call (client.wait_for action)
  finish_create (err e) = fail (if client.is_uniqueness_error e then already_exists else api e)

  unfoldable pub create_managed_certificate : CreateOpts → Exec W (Error E) (Unit {0})
  unfolding finish_create
  create_managed_certificate opts w =
      let (r, w') = client.create_certificate opts w in finish_create r w'

  -- A certificate that exists already is no error.
  unfoldable pub accept_existing : Result (Error E) (Unit {0}) → Result (Error E) (Unit {0})
  accept_existing (err already_exists) = ok tt
  accept_existing r = r

  unfoldable pub managed_opts : Service → List String → CreateOpts
  unfolding managed_name string_from_service managed_labels
  managed_opts svc domains = record {
    name = managed_name (string_from_service lb_svc_http_managed_certificate_name svc) svc;
    domain_names = domains;
    labels = managed_labels svc;
  }

  unfoldable pub ensure_certificate : CreateOpts → Exec W (Error E) (Unit {0})
  unfolding create_managed_certificate accept_existing
  ensure_certificate opts w =
      let (r, w') = create_managed_certificate opts w in (accept_existing r, w')

  unfoldable pub reconcile_managed_certificate : Service → Exec W (Error E) (Unit {0})
  unfolding is_managed managed_domains strings_from_service known managed_opts ensure_certificate
  reconcile_managed_certificate svc =
      if is_managed svc
      then (do
        domains ←
            known
              (managed_domains (strings_from_service lb_svc_http_managed_certificate_domains svc))
        ensure_certificate (managed_opts svc domains))
      else pure tt
