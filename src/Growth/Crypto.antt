-- ===== src/Growth/Crypto.antt =====
-- How the certificate authority and the certificates of Ca.antt and Certs.antt move the cluster, for
-- any relation that provisioning may move along.
use ninekube.Prelude.{String, refl, List, Option, none, some}
use ninekube.Exec.{Exec}
use ninekube.Exec.Moves.{Moves, Moves-attempt}
use ninekube.Api.{ClientNamespace, ServicesSpec}
use ninekube.Kube.{Object}
use ninekube.World.{World, AnyKey, rsa, other_key}
use ninekube.World.Permits.{Permits, IsClients}
use ninekube.World.Permits.Rules.{
  moves_rules, pure-Moves, raise-Moves, crash-Moves, bind-Moves, for_each-Moves,
}
use ninekube.Controller.Labels.{client_labels}
use ninekube.Growth.Secrets.{or_wrapped-Moves, if_missing-Moves, create_client-Moves}
use ninekube.Ca.{
  Ca, wrapping, encode_key, generate_ca, or_undecoded, only_rsa, parse_ca, sign,
  sign_cert_multi_san, generate_rsa_self_signed_cert,
}
use ninekube.Certs.{
  service_certs, create_ca, ensure_ca, get_ca, create_cert, ensure_cert_secret,
  ensure_service_certs,
}

module _ {W : World} {R : W.State → W.State → Type 0} {C : Object → Type 0}
    (P : Permits W R C) where
  pub wrapping-Moves :
      {A : Type 0} (p : String) (m : Exec W.State A) → Moves R m → Moves R (wrapping W p m)
  unfolding wrapping
  wrapping-Moves p m h = bind-Moves P _ _ (Moves-attempt m h) (λ r. or_wrapped-Moves P p r)

  encode_key-Moves : (k : W.PrivateKey) → Moves R (encode_key W k)
  unfolding encode_key
  encode_key-Moves k = search moves_rules

  ruleset crypto_rules = (moves_rules, wrapping-Moves, encode_key-Moves)

  pub generate_ca-Moves : (name : String) → Moves R (generate_ca W name)
  generate_ca-Moves name = unfold generate_ca in search crypto_rules depth 14

  or_undecoded-Moves : (m : String) (o : Option String) → Moves R (or_undecoded W m o)
  unfolding or_undecoded
  or_undecoded-Moves m none = raise-Moves P _
  or_undecoded-Moves m (some b) = pure-Moves P b

  only_rsa-Moves : (k : AnyKey W.PrivateKey) → Moves R (only_rsa W k)
  unfolding only_rsa
  only_rsa-Moves (rsa key) = pure-Moves P key
  only_rsa-Moves other_key = raise-Moves P _

  pub parse_ca-Moves : (c k : String) → Moves R (parse_ca W c k)
  parse_ca-Moves c k =
      unfold parse_ca in search (crypto_rules, or_undecoded-Moves, only_rsa-Moves) depth 14

  sign-Moves :
      (ca : Ca W) (service host : String) (names : List String)
      → Moves R (sign W ca service host names)
  sign-Moves ca service host names = unfold sign in search crypto_rules depth 14

  pub sign_cert_multi_san-Moves :
      (ca : Ca W) (service domain : String) (names : List String)
      → Moves R (sign_cert_multi_san W ca service domain names)
  sign_cert_multi_san-Moves ca service domain names =
      unfold sign_cert_multi_san in sign-Moves ca service _ _

  pub generate_rsa_self_signed_cert-Moves :
      (domain : String) → Moves R (generate_rsa_self_signed_cert W domain)
  generate_rsa_self_signed_cert-Moves domain =
      unfold generate_rsa_self_signed_cert in search moves_rules depth 14

  pub get_ca-Moves : (ns : String) → Moves R (get_ca W ns)
  unfolding get_ca
  get_ca-Moves ns = search (moves_rules, parse_ca-Moves)

  service_certs-Moves :
      (domain : String) (services : Option ServicesSpec) → Moves R (service_certs domain services)
  unfolding service_certs
  service_certs-Moves domain none = crash-Moves P
  service_certs-Moves domain (some services) = pure-Moves P _

module _ {W : World} {R : W.State → W.State → Type 0} (cn : ClientNamespace) (ns : String)
    (P : Permits W R (IsClients ns (client_labels cn))) where
  create_ca-Moves : Moves R (create_ca W cn ns)
  unfolding create_ca
  create_ca-Moves =
      bind-Moves P _ _ (wrapping-Moves P _ _ (generate_ca-Moves P _))
        (λ ca. create_client-Moves cn ns P _ refl refl)

  pub ensure_ca-Moves : Moves R (ensure_ca W cn ns)
  ensure_ca-Moves = unfold ensure_ca in if_missing-Moves P _ _ create_ca-Moves

  create_cert-Moves :
      (ca : Ca W) (name service domain : String) (extra : List String)
      → Moves R (create_cert W cn ns ca name service domain extra)
  unfolding create_cert
  create_cert-Moves ca name service domain extra =
      bind-Moves P _ _ (wrapping-Moves P _ _ (sign_cert_multi_san-Moves P ca service domain extra))
        (λ pems. create_client-Moves cn ns P _ refl refl)

  ensure_cert_secret-Moves :
      (ca : Ca W) (name service domain : String) (extra : List String)
      → Moves R (ensure_cert_secret W cn ns ca name service domain extra)
  ensure_cert_secret-Moves ca name service domain extra =
      unfold ensure_cert_secret in
      if_missing-Moves P _ _ (create_cert-Moves ca name service domain extra)

  pub ensure_service_certs-Moves : Moves R (ensure_service_certs W cn ns)
  ensure_service_certs-Moves =
      unfold ensure_service_certs in
      bind-Moves P _ _ (wrapping-Moves P _ _ (get_ca-Moves P ns)) (λ ca.
        bind-Moves P _ _ (service_certs-Moves P _ _)
          (λ certs. for_each-Moves P certs _ (λ sc. ensure_cert_secret-Moves ca _ _ _ _)))
