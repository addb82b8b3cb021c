-- ===== src/Controller/Certificates.antt =====
-- The certificates by the type that the spec asks for: `ensureCertificates`, `ensureSelfSignedCert`
-- and `ensureCertFromSecret` of operator/internal/controller/clientnamespace_controller.go. Nothing
-- calls the first of them.
pub mod Copy
use ninekube.Prelude.{
  String, StringMap, ◌<>◌, ◌==◌, Option, none, some, [], ◌∷◌, ◌++◌, if◌then◌else◌,
}
use ninekube.Exec.{Exec, plain, raise, crash, attempt, ◌>>=◌}
use ninekube.Api.{ClientNamespace, CertConfig, CertType, secret_ref, lets_encrypt, self_signed}
use ninekube.Kube.{Object, ObjectMeta, secret, tls, secret_kind, secret_data}
use ninekube.World.{World}
use ninekube.Certs.{tls_secret}
use ninekube.Controller.Ensure.{key, named, if_missing}
use ninekube.Controller.Secrets.{or_wrapped}

-- The label literal of both methods.
unfoldable pub cert_labels : ClientNamespace → String → StringMap
cert_labels cn type =
    ("app.kubernetes.io/part-of", "ninekube")
    ∷ ("app.kubernetes.io/managed-by", "ninekube-operator")
    ∷ ("ninekube.io/client", cn.name)
    ∷ ("ninekube.io/cert-type", type)
    ∷ []

-- The Secret that `ensureCertFromSecret` creates, with the data of the source.
unfoldable pub copied_secret : ClientNamespace → String → String → StringMap → Object
unfolding cert_labels
copied_secret cn ns secret_name values = record {
  meta = named ns secret_name (cert_labels cn "secret");
  body = secret (record { type = tls; binary = values; string_data = [] });
}

-- `quote` is `fmt`'s `%q`.
module _ (W : World) (quote : String → String) where
  unfoldable pub ensure_self_signed_cert :
      ClientNamespace → String → String → Exec W.State (Unit {0})
  unfolding cert_labels
  ensure_self_signed_cert cn ns secret_name =
      if_missing W (key secret_kind ns secret_name)
        (W.create (tls_secret (named ns secret_name (cert_labels cn "selfsigned")) "" ""))

  unfoldable pub copy_cert : ClientNamespace → String → String → String → Exec W.State (Unit {0})
  unfolding or_wrapped copied_secret
  copy_cert cn ns secret_name source_name = do
    found ← attempt (W.get (key secret_kind ns source_name))
    source ← or_wrapped ("source cert secret " <> quote source_name <> " not found") found
    W.create (copied_secret cn ns secret_name (secret_data source.body))

  unfoldable pub copy_from : ClientNamespace → String → String → String → Exec W.State (Unit {0})
  unfolding copy_cert
  copy_from cn ns secret_name source_name =
      if source_name == ""
      then raise (plain "cert.secretName is required when cert.type is 'secret'")
      else if_missing W (key secret_kind ns secret_name) (copy_cert cn ns secret_name source_name)

  -- It dereferences cn.Spec.Cert.
  unfoldable pub ensure_cert_from_secret :
      ClientNamespace → String → String → Option CertConfig → Exec W.State (Unit {0})
  unfolding copy_from
  ensure_cert_from_secret cn ns secret_name none = crash
  ensure_cert_from_secret cn ns secret_name (some cert) =
      copy_from cn ns secret_name cert.secret_name

  unfoldable pub ensure_typed_cert :
      ClientNamespace → String → String → CertType → Exec W.State (Unit {0})
  unfolding ensure_self_signed_cert ensure_cert_from_secret
  ensure_typed_cert cn ns secret_name secret_ref =
      ensure_cert_from_secret cn ns secret_name cn.spec.cert
  ensure_typed_cert cn ns secret_name lets_encrypt = ensure_self_signed_cert cn ns secret_name
  ensure_typed_cert cn ns secret_name self_signed = ensure_self_signed_cert cn ns secret_name

  unfoldable pub ensure_certs_of :
      ClientNamespace → String → String → Option CertConfig → Exec W.State (Unit {0})
  unfolding ensure_self_signed_cert ensure_typed_cert
  ensure_certs_of cn ns secret_name none = ensure_self_signed_cert cn ns secret_name
  ensure_certs_of cn ns secret_name (some cert) = ensure_typed_cert cn ns secret_name cert.type

  unfoldable pub ensure_certificates : ClientNamespace → String → String → Exec W.State (Unit {0})
  unfolding ensure_certs_of
  ensure_certificates cn ns secret_name = ensure_certs_of cn ns secret_name cn.spec.cert
