-- ===== src/Certs.antt =====
-- The CA's Secret and the certificates of the services: `ensureCA`, `getCA`, `ensureServiceCerts`
-- and `ensureCertSecret` of operator/internal/controller/ingress.go.
pub mod Hosts
pub mod Served
use ninekube.Prelude.{String, ◌<>◌, Option, none, some, List, [], ◌∷◌, ◌++◌, if◌then◌else◌, index}
use ninekube.Exec.{Exec, crash, pure, ◌>>=◌, for_each}
use ninekube.Api.{ClientNamespace, ServicesSpec}
use ninekube.Api.Services.{optional_enabled}
use ninekube.Kube.{Object, ObjectMeta, secret, secret_kind, secret_data, tls}
use ninekube.World.{World}
use ninekube.Ca.{Ca, wrapping, generate_ca, parse_ca, sign_cert_multi_san}
use ninekube.Controller.Labels.{client_labels}
use ninekube.Controller.Ensure.{key, named, if_missing}

-- a `kubernetes.io/tls` Secret literal
abbrev pub tls_secret : ObjectMeta → String → String → Object
tls_secret meta cert_pem key_pem = record {
  meta = meta;
  body = secret (record {
    type = tls;
    binary = ("tls.crt", cert_pem) ∷ ("tls.key", key_pem) ∷ [];
    string_data = [];
  });
}

pub record ServiceCert : Type 0 where
  pub name : String
  pub service : String
  pub extra : List String

unfoldable pub core_certs : String → List ServiceCert
core_certs domain =
    record { name = "ninegate-tls"; service = "ninegate"; extra = [] }
    ∷ record { name = "dex-tls"; service = "dex"; extra = [] }
    ∷ record { name = "rustfs-tls"; service = "rustfs"; extra = ("s3." <> domain) ∷ [] }
    ∷ record { name = "glauth-tls"; service = "glauth"; extra = [] }
    ∷ []

unfoldable pub optional_certs : ServicesSpec → List ServiceCert
unfolding optional_enabled
optional_certs services =
    (if optional_enabled services.nextcloud
      then record { name = "nextcloud-tls"; service = "nextcloud"; extra = [] } ∷ []
      else [])
    ++ ((if optional_enabled services.wordpress
          then record { name = "wordpress-tls"; service = "wordpress"; extra = [] } ∷ []
          else [])
        ++ (if optional_enabled services.dolibarr
            then record { name = "dolibarr-tls"; service = "dolibarr"; extra = [] } ∷ []
            else []))

-- The list `certs`. `cn.Spec.Services` is dereferenced with no test for nil.
unfoldable pub service_certs :
    {S : Type 0} → String → Option ServicesSpec → Exec S (List ServiceCert)
unfolding core_certs optional_certs
service_certs domain none = crash
service_certs domain (some services) = pure (core_certs domain ++ optional_certs services)

module _ (W : World) where
  unfoldable pub create_ca : ClientNamespace → String → Exec W.State (Unit {0})
  create_ca cn ns = do
    ca ← wrapping W "failed to generate CA" (generate_ca W (cn.name <> "-ca"))
    W.create (tls_secret (named ns "ca" (client_labels cn)) ca.cert_pem ca.key_pem)

  unfoldable pub ensure_ca : ClientNamespace → String → Exec W.State (Unit {0})
  unfolding create_ca
  ensure_ca cn ns = if_missing W (key secret_kind ns "ca") (create_ca cn ns)

  unfoldable pub get_ca : String → Exec W.State (Ca W)
  get_ca ns = do
    found ← W.get (key secret_kind ns "ca")
    parse_ca W (index "tls.crt" (secret_data found.body)) (index "tls.key" (secret_data found.body))

  unfoldable pub create_cert :
      ClientNamespace
      → String
      → Ca W
      → String
      → String
      → String
      → List String
      → Exec W.State (Unit {0})
  create_cert cn ns ca secret_name service domain extra_dns = do
    pems ←
        wrapping W ("failed to sign cert for " <> service)
          (sign_cert_multi_san W ca service domain extra_dns)
    W.create (tls_secret (named ns secret_name (client_labels cn)) pems.0 pems.1)

  unfoldable pub ensure_cert_secret :
      ClientNamespace
      → String
      → Ca W
      → String
      → String
      → String
      → List String
      → Exec W.State (Unit {0})
  unfolding create_cert
  ensure_cert_secret cn ns ca secret_name service domain extra_dns =
      if_missing W (key secret_kind ns secret_name)
        (create_cert cn ns ca secret_name service domain extra_dns)

  unfoldable pub ensure_service_certs : ClientNamespace → String → Exec W.State (Unit {0})
  unfolding ensure_cert_secret service_certs
  ensure_service_certs cn ns = do
    ca ← wrapping W "failed to get CA" (get_ca ns)
    certs ← service_certs cn.spec.domain cn.spec.services
    for_each certs (λ sc. ensure_cert_secret cn ns ca sc.name sc.service cn.spec.domain sc.extra)
