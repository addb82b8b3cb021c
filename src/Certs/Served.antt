-- ===== src/Certs/Served.antt =====
-- The Secrets that `ensureServiceCerts` of operator/internal/controller/ingress.go leaves, and the
-- ingresses that name them.
use ninekube.Prelude.{
  String, ◌<>◌, ◌≡◌, refl, sym, ◌∙◌, ap, some, none, Option, List, [], ◌∷◌, ◌++◌, All,
}
use mathlib.Core.Path.{subst, subst⁻¹}
use ninekube.Prelude.Lists.{Any, All-map, All-both, All-Any}
use ninekube.Exec.{
  Exec, Outcome, attempted, continue, attempt, ok, err, panic, pure, raise, ◌>>=◌, for_each,
}
use ninekube.Exec.Moves.{
  Moves, Returns, Returns-bind, Returns-rest, Moves-bind-Returns, Moves-for_All, bind-ok,
}
use ninekube.Api.{ClientNamespace, ServicesSpec}
use ninekube.Kube.{Key, Object, SecretSpec, secret_kind, tls, secret_data}
use ninekube.World.{World}
use ninekube.World.Lawful.{Lawful}
use ninekube.World.Grows.{Present}
use ninekube.World.Adds.{Adds, Adds-IsPreorder, Adds-Permits}
use ninekube.Ca.{Ca, wrapping}
use ninekube.Ca.Issued.{IsIssued, wrapping-Returns, sign_cert_multi_san-IsIssued}
use ninekube.Controller.Secrets.{or_wrapped}
use ninekube.Controller.Ensure.{key, named}
use ninekube.Controller.Labels.{client_labels}
use ninekube.Certs.{
  ServiceCert, core_certs, optional_certs, service_certs, tls_secret, get_ca, create_cert,
  ensure_cert_secret, ensure_service_certs,
}
use ninekube.Certs.Hosts.{
  names_of, hosts_of, IsFitting, certs-IsFitting, IsHosted, ingresses-IsHosted, IsCertified,
  ingresses-IsCertified,
}
use ninekube.Ingress.{IngressDef, core_ingresses, optional_ingresses, ingress_defs}
use ninekube.Growth.Crypto.{wrapping-Moves, sign_cert_multi_san-Moves, get_ca-Moves}
use ninekube.Growth.Secrets.{if_missing-Moves}
use ninekube.Outcomes.Present.{create-Present, if_missing-Present}

abbrev spec_of : String × String → SecretSpec
spec_of pems = record {
  type = tls;
  binary = ("tls.crt", pems.0) ∷ ("tls.key", pems.1) ∷ [];
  string_data = [];
}

module _ {W : World} (L : Lawful W) (cn : ClientNamespace) (ns : String) (ca : Ca W) where
  -- The Secret holds a certificate for the names that the CA has signed, and its key.
  abbrev pub IsCertOf : List String → Object → Type 0
  IsCertOf names x =
      (host : String) × (pems : String × String) × IsIssued W ca host names pems
      × (secret_data x.body ≡ ("tls.crt", pems.0) ∷ ("tls.key", pems.1) ∷ [])

  -- What may stand under a key that was free: the certificate of one of the services.
  abbrev pub IsServiceCert : Key → Object → Type 0
  IsServiceCert k x =
      (sc : ServiceCert) × (k ≡ key secret_kind ns sc.name)
      × IsFitting cn.spec.domain sc
      × IsCertOf (names_of cn.spec.domain sc) x

  create_cert-Adds :
      (sc : ServiceCert)
      → IsFitting cn.spec.domain sc
      → Moves
          (Adds L IsServiceCert)
          (create_cert W cn ns ca sc.name sc.service cn.spec.domain sc.extra)
  create_cert-Adds sc fits =
      let P = Adds-Permits L IsServiceCert in
      unfold create_cert in
      Moves-bind-Returns (Adds-IsPreorder L IsServiceCert)
        {P = IsIssued W ca (sc.service <> "." <> cn.spec.domain) (names_of cn.spec.domain sc)} _ _
        (wrapping-Moves P _ _ (sign_cert_multi_san-Moves P ca _ _ _))
        (wrapping-Returns W _ _ (sign_cert_multi_san-IsIssued ca _ _ _))
        (λ pems issued. P.create (tls_secret (named ns sc.name (client_labels cn)) pems.0 pems.1) (
          sc,
          refl,
          fits,
          (
            sc.service <> "." <> cn.spec.domain,
            pems,
            issued,
            L.admit_binary (tls_secret (named ns sc.name (client_labels cn)) pems.0 pems.1)
                (spec_of pems) refl refl,
          ),
        ))

  ensure_certs-Adds :
      (certs : List ServiceCert)
      → All (IsFitting cn.spec.domain) certs
      → Moves (Adds L IsServiceCert) (
          for_each certs
            (λ sc. ensure_cert_secret W cn ns ca sc.name sc.service cn.spec.domain sc.extra))
  ensure_certs-Adds certs fit =
      unfold ensure_cert_secret in
      Moves-for_All (Adds-IsPreorder L IsServiceCert) (IsFitting cn.spec.domain) certs
        (λ sc. ensure_cert_secret W cn ns ca sc.name sc.service cn.spec.domain sc.extra) fit
        (λ sc fits. if_missing-Moves (Adds-Permits L IsServiceCert) _ _ (create_cert-Adds sc fits))

  -- Each of the Secrets is there when the loop has come to its end.
  ensure_certs-Present :
      (certs : List ServiceCert)
      → All (IsFitting cn.spec.domain) certs
      → Returns
          (λ _ s. All (λ (sc : ServiceCert). Present L (key secret_kind ns sc.name) s) certs)
          (for_each certs
            (λ sc. ensure_cert_secret W cn ns ca sc.name sc.service cn.spec.domain sc.extra))
  unfolding for_each ensure_cert_secret create_cert
  ensure_certs-Present [] fit = record { at = λ s u e. tt }
  ensure_certs-Present (sc ∷ certs) (fits, fit) =
      Returns-bind {P = λ _. Present L (key secret_kind ns sc.name)} _ _
        (if_missing-Present L _ _ (Returns-rest _ _ (λ pems. create-Present L _)))
        (λ _ s u (x, there) e. (
          (x, ((ensure_certs-Adds certs fit).at s).kept _ x there),
          (ensure_certs-Present certs fit).at s u e,
        ))

-- What is checked and wrapped was run.
or_wrapped_ok :
    {S A : Type 0} (prefix : String) (r : Outcome A) (t : S) (a : A)
    → (continue (attempted r) (or_wrapped prefix) t).0 ≡ ok a
    → r ≡ ok a
unfolding or_wrapped pure raise
or_wrapped_ok prefix (ok b) t a e = cc
or_wrapped_ok prefix (err m) t a e = absurd (cc)
or_wrapped_ok prefix panic t a e = absurd (cc)

wrapping_ok :
    (W : World) {A : Type 0} (prefix : String) (m : Exec W.State A) (s : W.State) (a : A)
    → (wrapping W prefix m s).0 ≡ ok a
    → (m s).0 ≡ ok a
unfolding wrapping attempt ◌>>=◌
wrapping_ok W prefix m s a e = or_wrapped_ok prefix (m s).0 (m s).1 a e

certs_run :
    {S B : Type 0} (domain : String) (services : Option ServicesSpec) (sv : ServicesSpec)
    (f : List ServiceCert → Exec S B) (s : S)
    → services ≡ some sv
    → (service_certs domain services >>= f) s ≡ f (core_certs domain ++ optional_certs sv) s
unfolding service_certs pure ◌>>=◌
certs_run domain services sv f s e = ap (λ o. (service_certs domain o >>= f) s) e

defs_run :
    {S : Type 0} (domain : String) (services : Option ServicesSpec) (sv : ServicesSpec) (s : S)
    → services ≡ some sv
    → (ingress_defs domain services s).0
      ≡ ok (core_ingresses domain ++ optional_ingresses domain sv)
unfolding ingress_defs pure
defs_run domain services sv s e = ap (λ o. (ingress_defs domain o s).0) e

module _ {W : World} (L : Lawful W) (cn : ClientNamespace) (ns : String) where
  -- The ingress's Secret is held, and where its key was free, it has a certificate of the CA for names
  -- among which is the ingress's host.
  abbrev pub IsServed : Ca W → W.State → W.State → IngressDef → Type 0
  IsServed ca s t d =
      (x : Object) × (L.object t (key secret_kind ns d.tls) ≡ some x)
      × (L.object s (key secret_kind ns d.tls) ≡ none
          → (names : List String) × Any (λ (n : String). n ≡ d.host) names
            × IsCertOf L cn ns ca names x)

  Adds-IsServed :
      (ca : Ca W) (s t : W.State) (certs : List ServiceCert) (d : IngressDef)
      → Adds L (IsServiceCert L cn ns ca) s t
      → All (λ (sc : ServiceCert). Present L (key secret_kind ns sc.name) t) certs
      → IsHosted cn.spec.domain d
      → IsCertified certs d
      → IsServed ca s t d
  Adds-IsServed ca s t certs d moved present hosted certified =
      let (sc, (x, there), name) = All-Any certs present certified in
      let held = ap (λ n. L.object t (key secret_kind ns n)) (sym name) ∙ there in
      (
        x,
        held,
        λ gone.
            let (made, at_key, fits, cert) = moved.new _ x gone held in
            (
              names_of cn.spec.domain made,
              subst (Any (λ (n : String). n ≡ d.host))
                  (ap (λ (k : Key). hosts_of cn.spec.domain k.name) at_key ∙ sym fits) hosted,
              cert,
            ),
      )

  -- Where `ensureServiceCerts` returned without an error, the Secret `ca` held a CA that could be read,
  -- and each ingress that `ensureIngresses` makes of the same spec has its TLS Secret: where that Secret
  -- was not there before, its certificate is signed by that CA, for servers, for names among which is
  -- the ingress's host, and its key is the certificate's.
  pub ensure_service_certs-IsServed :
      (sv : ServicesSpec) (s : W.State)
      → cn.spec.services ≡ some sv
      → (ensure_service_certs W cn ns s).0 ≡ ok tt
      → (ca : Ca W) × ((get_ca W ns s).0 ≡ ok ca)
        × ((defs : List IngressDef) × ((ingress_defs cn.spec.domain cn.spec.services s).0 ≡ ok defs)
            × All (IsServed ca s (ensure_service_certs W cn ns s).1) defs)
  unfolding ensure_service_certs
  ensure_service_certs-IsServed sv s e done =
      let domain : String = cn.spec.domain in
      let certs = core_certs domain ++ optional_certs sv in
      let read = wrapping W "failed to get CA" (get_ca W ns) in
      let s1 : W.State = (read s).1 in
      let (ca, got, rest, last) = bind-ok read _ s tt done in
      let run =
        certs_run domain cn.spec.services sv
          (λ cs.
            for_each cs (λ sc. ensure_cert_secret W cn ns ca sc.name sc.service domain sc.extra))
          s1 e in
      let end = last ∙ ap (λ r. r.1) run in
      let P = Adds-Permits L (IsServiceCert L cn ns ca) in
      let moved =
        P.pre.trans_at s s1 _ ((wrapping-Moves P _ _ (get_ca-Moves P ns)).at s)
          ((ensure_certs-Adds L cn ns ca certs (certs-IsFitting domain sv)).at s1) in
      let present =
        (ensure_certs-Present L cn ns ca certs (certs-IsFitting domain sv)).at s1 tt
          (sym (ap (λ r. r.0) run) ∙ rest) in
      let defs = core_ingresses domain ++ optional_ingresses domain sv in
      let fit =
        All-both (IsHosted domain) (IsCertified certs) defs (ingresses-IsHosted domain sv)
          (ingresses-IsCertified domain sv) in
      (
        ca,
        wrapping_ok W _ (get_ca W ns) s ca got,
        (
          defs,
          defs_run domain cn.spec.services sv s e,
          subst⁻¹ (λ (t : W.State). All (IsServed ca s t) defs) end
              (All-map defs
                (λ d (hosted, certified).
                  Adds-IsServed ca s _ certs d moved present hosted certified)
                fit),
        ),
      )
