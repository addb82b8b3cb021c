-- ===== src/Examples/Copies.antt =====
-- The theorems on the copied certificates at concrete inputs.
use ninekube.Prelude.{refl, ◌∙◌, ◌≡◌, some, none, true}
use ninekube.Exec.{ok}
use ninekube.World.Memory.{memory, fresh, find}
use ninekube.World.Memory.Laws.{memory-Lawful, memory-object}
use ninekube.World.Memory.Laws.Healthy.{memory-Healthy}
use ninekube.Exec.{Error, err, is_not_found}
use ninekube.Kube.{Key, secret_kind}
use ninekube.Controller.Ensure.{key}
use ninekube.Progress.Fit.{HasKeysOf-pems}
use ninekube.Controller.Certificates.{ensure_certificates}
use ninekube.Controller.Certificates.Copy.{
  AsksFor, HasCopy, ensure_certificates-HasCopy, ensure_certificates-no_source,
}
use ninekube.Examples.{own_cert, cert_client, wildcard, with_wildcard, holding}

own_cert_asked : AsksFor cert_client own_cert
own_cert_asked = record { asked = refl; by_secret = refl; named = refl }

nothing_at : (k : Key) → memory-Lawful.object (holding cert_client) k ≡ none
unfolding fresh find
nothing_at k = memory-object (holding cert_client) k

wildcard_alone : memory-Lawful.object with_wildcard (key secret_kind "acme-ns" "acme-tls") ≡ none
unfolding with_wildcard fresh find
wildcard_alone = memory-object with_wildcard _ ∙ refl

wildcard_there :
    memory-Lawful.object with_wildcard (key secret_kind "acme-ns" "wildcard") ≡ some wildcard
unfolding with_wildcard fresh find
wildcard_there = memory-object with_wildcard _ ∙ refl

ensure_certificates-HasCopy_example :
    ((ensure_certificates memory (λ n. n) cert_client "acme-ns" "acme-tls" with_wildcard).0 ≡ ok tt)
    × HasCopy memory-Lawful
        (key secret_kind "acme-ns" "acme-tls")
        wildcard
        (ensure_certificates memory (λ n. n) cert_client "acme-ns" "acme-tls" with_wildcard).1
ensure_certificates-HasCopy_example =
    ensure_certificates-HasCopy memory-Healthy (λ n. n) cert_client own_cert own_cert_asked
      "acme-ns" "acme-tls" with_wildcard wildcard_alone wildcard wildcard_there (HasKeysOf-pems _ _)

ensure_certificates-no_source_example :
    ((e : Error) × ((ensure_certificates memory
          (λ n. n)
          cert_client
          "acme-ns"
          "acme-tls"
          (holding cert_client)).0
        ≡ err e)
      × (is_not_found e ≡ true))
    × ((k : Key)
        → memory-Lawful.object
            (ensure_certificates memory
              (λ n. n)
              cert_client
              "acme-ns"
              "acme-tls"
              (holding cert_client)).1
            k
          ≡ memory-Lawful.object (holding cert_client) k)
ensure_certificates-no_source_example =
    ensure_certificates-no_source memory-Healthy (λ n. n) cert_client own_cert own_cert_asked
      "acme-ns" "acme-tls" (holding cert_client) (nothing_at _) (nothing_at _)
