-- ===== src/Controller/Certificates/Copy.antt =====
-- `ensureCertificates` of operator/internal/controller/clientnamespace_controller.go for a spec that
-- names a Secret of the user's.
use ninekube.Prelude.{
  String, ◌<>◌, ◌==◌, ◌≡◌, refl, ◌∙◌, ap, true, false, some, none, if◌then◌else◌,
}
use ninekube.Exec.{Exec, ok, err, wrapped, Error, is_not_found, plain, attempt, ◌>>=◌, raise, pure}
use ninekube.Api.{ClientNamespace, CertConfig, secret_ref}
use ninekube.Kube.{tls, Key, Object, secret_kind, secret_data}
use ninekube.World.{World}
use ninekube.World.Lawful.{Lawful}
use ninekube.World.Healthy.{Healthy, HasKeysOf}
use ninekube.Controller.Ensure.{key, if_missing, on_missing}
use ninekube.Controller.Secrets.{or_wrapped}
use ninekube.Controller.Certificates.{
  copied_secret, copy_cert, copy_from, ensure_cert_from_secret, ensure_typed_cert, ensure_certs_of,
  ensure_certificates,
}

-- The spec asks for the Secret of that name.
pub record AsksFor (cn : ClientNamespace) (config : CertConfig) : Type 0 where
  pub asked : cn.spec.cert ≡ some config
  pub by_secret : config.type ≡ secret_ref
  pub named : (config.secret_name == "") ≡ false

module _ (W : World) (quote : String → String) (cn : ClientNamespace) (config : CertConfig)
    (asks : AsksFor cn config) (ns secret_name : String) where
  certs_of_secret :
      ensure_certificates W quote cn ns secret_name
      ≡ if_missing W
          (key secret_kind ns secret_name)
          (copy_cert W quote cn ns secret_name config.secret_name)
  unfolding ensure_certificates ensure_certs_of ensure_typed_cert ensure_cert_from_secret copy_from
  certs_of_secret =
      ap (ensure_certs_of W quote cn ns secret_name) asks.asked
      ∙ ap (ensure_typed_cert W quote cn ns secret_name) asks.by_secret
      ∙ ap (ensure_cert_from_secret W quote cn ns secret_name) asks.asked
      ∙ ap
          (λ b.
            if b
            then raise (plain "cert.secretName is required when cert.type is 'secret'")
            else if_missing W (key secret_kind ns secret_name)
                (copy_cert W quote cn ns secret_name config.secret_name))
          asks.named

module _ {W : World} {L : Lawful W} (H : Healthy L) (quote : String → String) (cn : ClientNamespace)
    (ns secret_name source_name : String) where
  -- The state after the read of what is missing, and the rest.
  missing-runs :
      (k : Key) (absent : Exec W.State (Unit {0})) (s : W.State)
      → L.object s k ≡ none
      → if_missing W k absent s ≡ absent (W.get k s).1
  unfolding if_missing on_missing ◌>>=◌ attempt
  missing-runs k absent s gone =
      let (e, failing, missing) = H.get_gone k s gone in rw (failing, missing)

  copied :
      (x : Object) (s : W.State)
      → L.object s (key secret_kind ns source_name) ≡ some x
      → copy_cert W quote cn ns secret_name source_name s
        ≡ W.create
            (copied_secret cn ns secret_name (secret_data x.body))
            (W.get (key secret_kind ns source_name) s).1
  unfolding copy_cert or_wrapped ◌>>=◌ attempt pure
  copied x s held = rw (H.get_held (key secret_kind ns source_name) s x held)

  not_copied :
      (s : W.State)
      → L.object s (key secret_kind ns source_name) ≡ none
      → (e : Error) × (is_not_found e ≡ true)
        × (copy_cert W quote cn ns secret_name source_name s ≡ (
          err (wrapped ("source cert secret " <> quote source_name <> " not found") e),
          (W.get (key secret_kind ns source_name) s).1,
        ))
  unfolding copy_cert or_wrapped ◌>>=◌ attempt raise
  not_copied s gone =
      let (e, failing, missing) = H.get_gone (key secret_kind ns source_name) s gone in
      (e, missing, rw failing)

-- An object with the data of the Secret x.
abbrev pub HasCopy : {W : World} → Lawful W → Key → Object → W.State → Type 0
HasCopy L k x s = (y : Object) × (L.object s k ≡ some y) × (secret_data y.body ≡ secret_data x.body)

module _ {W : World} {L : Lawful W} (H : Healthy L) (quote : String → String) (cn : ClientNamespace)
    (config : CertConfig) (asks : AsksFor cn config) (ns secret_name : String) (s : W.State)
    (gone : L.object s (key secret_kind ns secret_name) ≡ none) where
  certs-run :
      ensure_certificates W quote cn ns secret_name s
      ≡ copy_cert W quote cn ns secret_name config.secret_name
          (W.get (key secret_kind ns secret_name) s).1
  certs-run =
      ap (λ (m : Exec W.State (Unit {0})). m s)
        (certs_of_secret W quote cn config asks ns secret_name)
      ∙ missing-runs H quote cn ns secret_name config.secret_name (key secret_kind ns secret_name) _
          s gone

  created-HasCopy :
      (x : Object) (t : W.State)
      → L.object t (key secret_kind ns secret_name) ≡ none
      → HasKeysOf tls (secret_data x.body)
      → ((W.create (copied_secret cn ns secret_name (secret_data x.body)) t).0 ≡ ok tt)
        × HasCopy L
            (key secret_kind ns secret_name)
            x
            (W.create (copied_secret cn ns secret_name (secret_data x.body)) t).1
  unfolding copied_secret
  created-HasCopy x t absent keys =
      let o = copied_secret cn ns secret_name (secret_data x.body) in
      let done = H.create_gone o t absent keys in
      (done, (L.admit o, L.create_ok o t done, L.admit_binary o _ refl refl))

  -- On a good day, where the spec asks for the certificate of a Secret by its name, no Secret of the
  -- wanted name is there and the user's Secret is, with the keys `tls.crt` and `tls.key`,
  -- `ensureCertificates` returns without an error, and the wanted Secret then has the data of the
  -- user's.
  pub ensure_certificates-HasCopy :
      (x : Object)
      → L.object s (key secret_kind ns config.secret_name) ≡ some x
      → HasKeysOf tls (secret_data x.body)
      → ((ensure_certificates W quote cn ns secret_name s).0 ≡ ok tt)
        × HasCopy L
            (key secret_kind ns secret_name)
            x
            (ensure_certificates W quote cn ns secret_name s).1
  ensure_certificates-HasCopy x held keys =
      let t = (W.get (key secret_kind ns secret_name) s).1 in
      let u = (W.get (key secret_kind ns config.secret_name) t).1 in
      let run =
        certs-run
        ∙ copied H quote cn ns secret_name config.secret_name x t
            (L.get_same (key secret_kind ns secret_name) s _ ∙ held) in
      rw run (
        created-HasCopy x u
          (L.get_same (key secret_kind ns config.secret_name) t _
            ∙ (L.get_same (key secret_kind ns secret_name) s _ ∙ gone))
          keys)

  -- On a good day, where the spec asks for the certificate of a Secret by its name and neither the
  -- wanted Secret nor the user's is there, `ensureCertificates` returns an error that
  -- `errors.IsNotFound` recognises, and no object changes.
  pub ensure_certificates-no_source :
      L.object s (key secret_kind ns config.secret_name) ≡ none
      → ((e : Error) × ((ensure_certificates W quote cn ns secret_name s).0 ≡ err e)
          × (is_not_found e ≡ true))
        × ((k : Key)
            → L.object (ensure_certificates W quote cn ns secret_name s).1 k ≡ L.object s k)
  unfolding is_not_found
  ensure_certificates-no_source absent =
      let t = (W.get (key secret_kind ns secret_name) s).1 in
      let (e, missing, run) =
        not_copied H quote cn ns secret_name config.secret_name t
          (L.get_same (key secret_kind ns secret_name) s _ ∙ absent) in
      let whole = certs-run ∙ run in
      (
        (_, ap (λ r. r.0) whole, missing),
        λ k.
            ap (λ r. L.object r.1 k) whole
            ∙ (L.get_same (key secret_kind ns config.secret_name) t k
                ∙ L.get_same (key secret_kind ns secret_name) s k),
      )
