-- ===== src/Certs/Hosts.antt =====
-- The certificates of `ensureServiceCerts` and the hosts of `ensureIngresses`: both of
-- operator/internal/controller/ingress.go.
use text.Mathlib.TextLemmas.{append_assoc}
use ninekube.Prelude.{
  String, ◌<>◌, ◌≡◌, refl, sym, ◌==◌, Bool, inl, inr, List, [], ◌∷◌, ◌++◌, All, if◌then◌else◌,
}
use ninekube.Prelude.Lists.{Any, All-append, All-three, Any-right, Any-left, Any-if, All-map}
use ninekube.Api.{ServicesSpec}
use ninekube.Api.Services.{optional_enabled}
use ninekube.Certs.{ServiceCert, core_certs, optional_certs}
use ninekube.Ingress.{IngressDef, core_ingresses, optional_ingresses, optional_ingress}

-- The names that the certificate of a service is for.
abbrev pub names_of : String → ServiceCert → List String
names_of domain sc = (sc.service <> "." <> domain) ∷ sc.extra

-- The hosts that are served with the certificate of a Secret.
unfoldable pub hosts_of : String → String → List String
hosts_of domain name =
    if name == "ninegate-tls"
    then ("ninegate" <> "." <> domain) ∷ []
    else if name == "dex-tls"
    then ("dex" <> "." <> domain) ∷ []
    else if name == "rustfs-tls"
    then ("rustfs" <> "." <> domain) ∷ ("s3." <> domain) ∷ []
    else if name == "glauth-tls"
    then ("glauth" <> "." <> domain) ∷ []
    else if name == "nextcloud-tls"
    then ("nextcloud" <> "." <> domain) ∷ []
    else if name == "wordpress-tls"
    then ("wordpress" <> "." <> domain) ∷ []
    else ("dolibarr" <> "." <> domain) ∷ []

-- The certificate is for the hosts that are served with it.
abbrev pub IsFitting : String → ServiceCert → Type 0
IsFitting domain sc = names_of domain sc ≡ hosts_of domain sc.name

-- An entry of the catalog's part of the certificates.
abbrev cert_of : String → ServiceCert
cert_of name = record { name = name <> "-tls"; service = name; extra = [] }

-- The part of the list that a test decides.
abbrev part : Bool → String → List ServiceCert
part b name = if b then cert_of name ∷ [] else []

pub certs-IsFitting :
    (domain : String) (sv : ServicesSpec)
    → All (IsFitting domain) (core_certs domain ++ optional_certs sv)
unfolding core_certs optional_certs hosts_of
certs-IsFitting domain sv =
    All-append (IsFitting domain) (core_certs domain) (optional_certs sv)
      (refl, (refl, (refl, (refl, tt))))
      (All-three (IsFitting domain) (optional_enabled sv.nextcloud) (optional_enabled sv.wordpress)
        (optional_enabled sv.dolibarr) (cert_of "nextcloud") (cert_of "wordpress")
        (cert_of "dolibarr") (λ _. refl) (λ _. refl) (λ _. refl))

-- The host is among those of the ingress's Secret.
abbrev pub IsHosted : String → IngressDef → Type 0
IsHosted domain d = Any (λ (n : String). n ≡ d.host) (hosts_of domain d.tls)

dotted : (service domain : String) → service <> "." <> domain ≡ (service <> ".") <> domain
dotted service domain = sym (append_assoc service "." domain)

pub ingresses-IsHosted :
    (domain : String) (sv : ServicesSpec)
    → All (IsHosted domain) (core_ingresses domain ++ optional_ingresses domain sv)
unfolding core_ingresses optional_ingresses optional_ingress hosts_of
ingresses-IsHosted domain sv =
    All-append (IsHosted domain) (core_ingresses domain) (optional_ingresses domain sv)
      (
        inl (dotted "ninegate" domain),
        (inl (dotted "dex" domain), (inl (dotted "rustfs" domain), (inr (inl refl), tt))),
      )
      (All-three (IsHosted domain) (optional_enabled sv.nextcloud) (optional_enabled sv.wordpress)
        (optional_enabled sv.dolibarr) (optional_ingress domain "nextcloud")
        (optional_ingress domain "wordpress") (optional_ingress domain "dolibarr") (λ _. inl refl)
        (λ _. inl refl) (λ _. inl refl))

-- The ingress's Secret is that of one of the certificates.
abbrev pub IsCertified : List ServiceCert → IngressDef → Type 0
IsCertified certs d = Any (λ (sc : ServiceCert). sc.name ≡ d.tls) certs

optional-IsCertified :
    (domain : String) (sv : ServicesSpec)
    → All (IsCertified (optional_certs sv)) (optional_ingresses domain sv)
unfolding optional_certs optional_ingresses optional_ingress
optional-IsCertified domain sv =
    let a : Bool = optional_enabled sv.nextcloud in
    let b : Bool = optional_enabled sv.wordpress in
    let c : Bool = optional_enabled sv.dolibarr in
    let named = λ (name : String) (sc : ServiceCert). sc.name ≡ name <> "-tls" in
    let last = part b "wordpress" ++ part c "dolibarr" in
    All-three (IsCertified (optional_certs sv)) a b c (optional_ingress domain "nextcloud")
      (optional_ingress domain "wordpress") (optional_ingress domain "dolibarr")
      (λ on.
        Any-left (named "nextcloud") (part a "nextcloud") last
          (Any-if (named "nextcloud") a _ on refl))
      (λ on. Any-right (named "wordpress") (part a "nextcloud") last (
        Any-left (named "wordpress") (part b "wordpress") (part c "dolibarr")
          (Any-if (named "wordpress") b _ on refl)))
      (λ on. Any-right (named "dolibarr") (part a "nextcloud") last (
        Any-right (named "dolibarr") (part b "wordpress") (part c "dolibarr")
          (Any-if (named "dolibarr") c _ on refl)))

pub ingresses-IsCertified :
    (domain : String) (sv : ServicesSpec)
    → All
        (IsCertified (core_certs domain ++ optional_certs sv))
        (core_ingresses domain ++ optional_ingresses domain sv)
unfolding core_certs core_ingresses
ingresses-IsCertified domain sv =
    All-append (IsCertified (core_certs domain ++ optional_certs sv)) (core_ingresses domain)
      (optional_ingresses domain sv)
      (inl refl, (inr (inl refl), (inr (inr (inl refl)), (inr (inr (inl refl)), tt))))
      (All-map (optional_ingresses domain sv)
        (λ d h. Any-right (λ (sc : ServiceCert). sc.name ≡ d.tls) (core_certs domain) _ h)
        (optional-IsCertified domain sv))
