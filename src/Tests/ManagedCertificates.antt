-- ===== src/Tests/ManagedCertificates.antt =====
-- internal/hcops/certificates.go: a managed certificate for a service that has none.
use hcloud_cloud_controller.Common.{
  pos, String, true, Option, none, some, List, [], ◌∷◌, ◌≡◌, refl, ok, if◌then◌else◌, Eq-string,
  ◌==◌, ==-refl, lookup, Returns,
}
use hcloud_cloud_controller.Kube.{Service}
use hcloud_cloud_controller.Annotation.{string_from_service}
use hcloud_cloud_controller.Annotation.ServiceNames.{
  lb_svc_http_certificate_type, lb_svc_http_managed_certificate_domains,
}
use hcloud_cloud_controller.Annotation.Values.{Certificate, strings_from_service}
use hcloud_cloud_controller.Hcops.Requests.{label_service_uid}
use hcloud_cloud_controller.Hcops.Certificates.{
  CertClient, is_managed, managed_domains, managed_opts, reconcile_managed_certificate,
}
use hcloud_cloud_controller.Hcops.Certificates.Labelled.{
  LabelLaws, Outcome, reconcile_managed_certificate_finds,
}

-- The certificates with the UIDs in their labels.
abbrev World : Type 0
World = List (String × Certificate)

abbrev text_or_empty : Option String → String
text_or_empty none = ""
text_or_empty (some s) = s

abbrev labelled : String → World → List Certificate
labelled uid [] = []
labelled uid ((u, c) ∷ w) = if u == uid then c ∷ labelled uid w else labelled uid w

abbrev client : CertClient World String (Unit {0})
client = record {
  get = λ id w. (ok none, w);
  all_with_label = λ k v w. (ok (labelled v w), w);
  create_certificate = λ o w. (
    ok tt,
    (text_or_empty (lookup label_service_uid o.labels), record { id = pos 5; name = o.name }) ∷ w,
  );
  wait_for = λ a w. (ok tt, w);
  is_uniqueness_error = λ e. e == "uniqueness_error";
}

laws : LabelLaws labelled client
laws = record {
  created = λ opts uid w h. rw h (record { id = pos 5; name = opts.name }, rw (==-refl uid) refl);
  waited = λ act uid w. refl;
  listed = λ uid w. refl;
}

abbrev svc : Service
svc = record {
  name = "web";
  uid = "uid-1";
  annotations =
      (lb_svc_http_certificate_type, "managed")
      ∷ (lb_svc_http_managed_certificate_domains, "example.org")
      ∷ [];
  ports = [];
}

managed : is_managed svc ≡ true
unfolding is_managed string_from_service lookup
managed = refl

reconcile_managed_certificate_finds_example :
    Returns
      (λ _ v.
        (domains : List String) × (managed_domains {E = String}
            (strings_from_service lb_svc_http_managed_certificate_domains svc)
          ≡ ok domains)
        × Outcome labelled client (managed_opts client svc domains) "uid-1" [] v)
      (reconcile_managed_certificate client svc [])
reconcile_managed_certificate_finds_example =
    reconcile_managed_certificate_finds labelled client laws svc [] managed refl
