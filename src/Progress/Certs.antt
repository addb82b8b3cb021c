-- ===== src/Progress/Certs.antt =====
-- The CA and the services' certificates on a good day: `ensureCA`, `getCA` and `ensureServiceCerts`
-- of operator/internal/controller/ingress.go.
use ninekube.Prelude.{
  String, ◌≡◌, refl, ◌∙◌, ap, ◌==◌, Bool, true, false, Option, some, none, ◌<>◌, List, [], ◌∷◌,
  ◌++◌, All, if◌then◌else◌, index, lookup,
}
use ninekube.Exec.Succeeds.{
  Succeeds, Ends, Succeeds-pure, Succeeds-bind, Succeeds-weaken, Succeeds-for_All,
}
use ninekube.Api.{ClientNamespace, ServicesSpec}
use ninekube.Api.Services.{optional_enabled}
use ninekube.Kube.{ingress_route_tcp_kind, Key, Object, key_of, secret_kind}
use ninekube.World.{World, Certificate}
use ninekube.World.Lawful.{Lawful}
use ninekube.World.Healthy.{Healthy, IsComplete}
use ninekube.Ca.{Ca, sign_cert_multi_san}
use ninekube.Certs.{
  tls_secret, ServiceCert, core_certs, optional_certs, service_certs, create_ca, ensure_ca, get_ca,
  create_cert, ensure_cert_secret, ensure_service_certs,
}
use ninekube.Controller.Labels.{client_labels}
use ninekube.Controller.Ensure.{key, named}
use ninekube.Progress.Room.{
  IsRoomy, Missing, Missing-objectwise, create-Ends, if_missing-Ends, ca_key, route_key,
}
use ninekube.Progress.Crypto.{
  IsWritten, wrapping-Succeeds, generate_ca-IsWritten, parse_ca-Succeeds, sign-Ends,
}
use ninekube.Progress.Fit.{HasKeysOf-pems, IsAuthority, Fit, Fit-IsRoomy, IsHarmless-of_name}

-- An entry that stands in a list only where a test holds.
All-optional :
    {A : Type 0} (P : A → Type 0) (b : Bool) (x : A) (rest : List A)
    → P x
    → All P rest
    → All P ((if b then x ∷ [] else []) ++ rest)
All-optional P true x rest p ps = (p, ps)
All-optional P false x rest p ps = ps

All-last : {A : Type 0} (P : A → Type 0) (b : Bool) (x : A) → P x → All P (if b then x ∷ [] else [])
All-last P true x p = (p, tt)
All-last P false x p = tt

-- No certificate of a service is stored under the CA's name.
abbrev IsNotAuthority : ServiceCert → Type 0
IsNotAuthority sc = (sc.name == "ca") ≡ false

optional_cert : String → ServiceCert
optional_cert name = record { name = name <> "-tls"; service = name; extra = [] }

certs-IsNotAuthority :
    (domain : String) (services : ServicesSpec)
    → All IsNotAuthority (core_certs domain ++ optional_certs services)
unfolding core_certs optional_certs optional_cert
certs-IsNotAuthority domain services = (
  refl,
  (
    refl,
    (
      refl,
      (
        refl,
        All-optional IsNotAuthority (optional_enabled services.nextcloud)
            (optional_cert "nextcloud") _ refl
            (All-optional IsNotAuthority (optional_enabled services.wordpress)
              (optional_cert "wordpress") _ refl
              (All-last IsNotAuthority (optional_enabled services.dolibarr)
                (optional_cert "dolibarr") refl)),
      ),
    ),
  ),
)

module _ {W : World} {L : Lawful W} (H : Healthy L) (cn : ClientNamespace) (ns : String) where
  route-ne-ca : route_key ns ≡ ca_key ns → ⊥
  route-ne-ca e =
      let kinds : ingress_route_tcp_kind ≡ secret_kind = ap (λ (k : Key). k.kind) e in cc

  -- The Secret of a new CA can be read.
  tls_secret-IsAuthority :
      (ca : Ca W)
      → IsWritten W ca
      → IsAuthority L
          (L.admit (tls_secret (named ns "ca" (client_labels cn)) ca.cert_pem ca.key_pem))
  unfolding index lookup
  tls_secret-IsAuthority ca ((c, _, read), has_key) =
      rw
        (L.admit_binary (tls_secret (named ns "ca" (client_labels cn)) ca.cert_pem ca.key_pem) _
          refl refl)
        ((c, read), (ca.key, has_key))

  create_ca_secret-Ends :
      (o : Object)
      → key_of o ≡ ca_key ns
      → IsAuthority L (L.admit o)
      → IsComplete o.body
      → Ends (Missing L (Fit L ns) (ca_key ns)) (Fit L ns) (W.create o)
  create_ca_secret-Ends o here good complete = record {
    at = λ s (fit, gone).
        let absent : L.object s (key_of o) ≡ none = ap (L.object s) here ∙ gone in
        (
          tt,
          H.create_gone o s absent complete,
          tt,
          record {
            route = L.create_other o s (route_key ns) (λ e. route-ne-ca (e ∙ here)) ∙ fit.route;
            ca = λ x held.
                let same = L.create_new o s x absent (ap (L.object (W.create o s).1) here ∙ held) in
                rw same good;
          },
        );
  }

  create_ca-Ends : Ends (Missing L (Fit L ns) (ca_key ns)) (Fit L ns) (create_ca W cn ns)
  create_ca-Ends =
      let mid = Missing-objectwise L (Fit L ns) (ca_key ns) (Fit-IsRoomy L ns).objectwise in
      unfold create_ca in
      Succeeds-bind _ _ (wrapping-Succeeds H mid _ _ (generate_ca-IsWritten H mid _)) (λ ca made.
        create_ca_secret-Ends _ refl (tls_secret-IsAuthority ca made) (HasKeysOf-pems _ _))

  pub ensure_ca-Ends : Ends (Fit L ns) (Fit L ns) (ensure_ca W cn ns)
  ensure_ca-Ends = unfold ensure_ca in if_missing-Ends H (Fit-IsRoomy L ns) _ _ create_ca-Ends

-- With the CA's Secret in place.
module _ {W : World} {L : Lawful W} (H : Healthy L) {I : W.State → Type 0} {ns : String}
    (room : IsRoomy L ns I) (cn : ClientNamespace)
    (ready : (s : W.State)
      → I s
      → (x : Object) × (L.object s (ca_key ns) ≡ some x) × IsAuthority L x) where
  get_ca_secret-Succeeds : Succeeds I I (IsAuthority L) (W.get (ca_key ns))
  get_ca_secret-Succeeds = record {
    at = λ s i.
        let (x, held, good) = ready s i in
        (x, H.get_held _ s x held, good, room.objectwise s _ (L.get_same _ s) i);
  }

  get_ca-Succeeds : Succeeds I I (λ ca. (c : Certificate) × (ca.cert ≡ some c)) (get_ca W ns)
  get_ca-Succeeds =
      unfold get_ca in
      Succeeds-bind _ _ get_ca_secret-Succeeds (λ x good.
        Succeeds-weaken _ (λ ca read. (good.0.0, ap (λ (a : Ca W). a.cert) read))
          (parse_ca-Succeeds H room.objectwise _ _ good.0.0 good.1.0 good.0.1 good.1.1))

  ensure_cert_secret-Ends :
      (ca : Ca W) (c : Certificate) (sc : ServiceCert)
      → ca.cert ≡ some c
      → IsNotAuthority sc
      → Ends I I (ensure_cert_secret W cn ns ca sc.name sc.service cn.spec.domain sc.extra)
  ensure_cert_secret-Ends ca c sc e other =
      let mid = Missing-objectwise L I (key secret_kind ns sc.name) room.objectwise in
      unfold ensure_cert_secret create_cert sign_cert_multi_san in
      if_missing-Ends H room _ _ (
        Succeeds-bind _ _ (wrapping-Succeeds H mid _ _ (sign-Ends H mid ca c _ _ _ e)) (λ pems _.
          create-Ends H room _ (IsHarmless-of_name ns sc.name other) (HasKeysOf-pems _ _)))

  service_certs-Succeeds :
      (domain : String) (services : Option ServicesSpec) (sv : ServicesSpec)
      → services ≡ some sv
      → Succeeds I I (All IsNotAuthority) (service_certs domain services)
  unfolding service_certs
  service_certs-Succeeds domain none sv e = absurd (cc)
  service_certs-Succeeds domain (some services) sv e =
      Succeeds-pure _ (certs-IsNotAuthority domain services)

  pub ensure_service_certs-Ends :
      (sv : ServicesSpec) → cn.spec.services ≡ some sv → Ends I I (ensure_service_certs W cn ns)
  ensure_service_certs-Ends sv e =
      unfold ensure_service_certs in
      Succeeds-bind _ _ (wrapping-Succeeds H room.objectwise _ _ get_ca-Succeeds) (λ ca has.
        Succeeds-bind _ _ (service_certs-Succeeds _ _ sv e) (λ certs others.
          Succeeds-for_All IsNotAuthority certs _ others
            (λ sc other. ensure_cert_secret-Ends ca has.0 sc has.1 other)))
