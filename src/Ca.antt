-- ===== src/Ca.antt =====
-- operator/internal/controller/ca.go: the certificate authority of a client, and
-- `generateRSASelfSignedCert` of dex_controller.go. The crypto packages are `World`'s.
pub mod RoundTrip
pub mod Issued
use ninekube.Prelude.{
  ℕ, ◌*◌, ◌+◌, String, ◌<>◌, true, false, Option, none, some, List, [], ◌∷◌, ◌++◌,
}
use ninekube.Exec.{Exec, Attempt, got, failed, plain, pure, raise, lift, total, attempt, ◌>>=◌}
use ninekube.World.{
  World, Certificate, cert_sign, crl_sign, key_encipherment, digital_signature, server_auth,
  client_auth, AnyKey, rsa, other_key,
}
use ninekube.Controller.Secrets.{or_wrapped}
use ninekube.Controller.Password.{or_empty}

-- seconds in a day, and 2^128, the range of the serial numbers
abbrev pub day : ℕ
day = 24 * 3600

abbrev pub serial_range : ℕ
serial_range = 340282366920938463463374607431768211456

-- `value, _ := call()` for a pointer: nil stands for what an error left out
unfoldable pub or_nil : {A : Type 0} → Attempt A → Option A
or_nil (got a) = some a
or_nil (failed e) = none

module _ (W : World) where
  pub record Ca : Type 0 where
    pub cert : Option Certificate
    pub key : W.PrivateKey
    pub cert_pem : String
    pub key_pem : String

  -- `value, err := call()`, with an error wrapped and returned
  unfoldable pub wrapping : {A : Type 0} → String → Exec W.State A → Exec W.State A
  unfolding or_wrapped
  wrapping prefix m = do r ← attempt m; or_wrapped prefix r

  -- keyDER, _ := x509.MarshalPKCS8PrivateKey(key); pem.EncodeToMemory(...)
  unfoldable pub encode_key : W.PrivateKey → Exec W.State String
  unfolding or_empty
  encode_key key = do
    der ← attempt (lift (W.marshal_pkcs8 key))
    pure (W.pem_encode "PRIVATE KEY" (or_empty der))

  unfoldable pub generate_ca : String → Exec W.State Ca
  unfolding wrapping encode_key or_nil
  generate_ca common_name = do
    key ← wrapping "failed to generate CA key" (W.generate_rsa_key 2048)
    serial ← attempt (W.rand_int serial_range)
    not_before ← total W.now
    not_after ← total W.now
    let template : Certificate = record {
      serial_number = or_nil serial;
      common_name = common_name;
      organization = "ninekube" ∷ [];
      not_before = not_before;
      not_after = not_after + 10 * 365 * day;
      key_usage = cert_sign ∷ crl_sign ∷ [];
      ext_key_usage = [];
      basic_constraints_valid = true;
      is_ca = true;
      max_path_len = 2;
      dns_names = [];
    }
    der ←
        wrapping "failed to create CA cert" (W.create_certificate template (some template) key key)
    key_pem ← encode_key key
    cert ← attempt (lift (W.parse_certificate der))
    pure (record {
      cert = or_nil cert;
      key = key;
      cert_pem = W.pem_encode "CERTIFICATE" der;
      key_pem = key_pem;
    })

  unfoldable pub or_undecoded : String → Option String → Exec W.State String
  or_undecoded m none = raise (plain m)
  or_undecoded m (some block) = pure block

  unfoldable pub only_rsa : AnyKey W.PrivateKey → Exec W.State W.PrivateKey
  only_rsa (rsa key) = pure key
  only_rsa other_key = raise (plain "CA key is not RSA")

  unfoldable pub parse_ca : String → String → Exec W.State Ca
  unfolding wrapping or_undecoded only_rsa
  parse_ca cert_pem key_pem = do
    cert_block ← or_undecoded "failed to decode CA cert PEM" (W.pem_decode cert_pem)
    cert ← wrapping "failed to parse CA cert" (lift (W.parse_certificate cert_block))
    key_block ← or_undecoded "failed to decode CA key PEM" (W.pem_decode key_pem)
    any_key ← wrapping "failed to parse CA key" (lift (W.parse_pkcs8 key_block))
    key ← only_rsa any_key
    pure (record { cert = some cert; key = key; cert_pem = cert_pem; key_pem = key_pem })

  -- The body that `SignCert` and `SignCertMultiSAN` share: certificate and key, as PEM texts.
  unfoldable pub sign : Ca → String → String → List String → Exec W.State (String × String)
  unfolding wrapping encode_key or_nil
  sign ca service host dns_names = do
    key ← wrapping ("failed to generate key for " <> service) (W.generate_rsa_key 2048)
    serial ← attempt (W.rand_int serial_range)
    not_before ← total W.now
    not_after ← total W.now
    let template : Certificate = record {
      serial_number = or_nil serial;
      common_name = host;
      organization = "ninekube" ∷ [];
      not_before = not_before;
      not_after = not_after + 365 * day;
      key_usage = key_encipherment ∷ digital_signature ∷ [];
      ext_key_usage = server_auth ∷ client_auth ∷ [];
      basic_constraints_valid = true;
      is_ca = false;
      max_path_len = 0;
      dns_names = dns_names;
    }
    der ←
        wrapping ("failed to sign cert for " <> service)
          (W.create_certificate template ca.cert key ca.key)
    key_pem ← encode_key key
    pure (W.pem_encode "CERTIFICATE" der, key_pem)

  unfoldable pub sign_cert : Ca → String → String → Exec W.State (String × String)
  unfolding sign
  sign_cert ca service domain =
      let host = service <> "." <> domain in sign ca service host (host ∷ [])

  unfoldable pub sign_cert_multi_san :
      Ca → String → String → List String → Exec W.State (String × String)
  unfolding sign
  sign_cert_multi_san ca service domain extra_dns_names =
      let host = service <> "." <> domain in sign ca service host ((host ∷ []) ++ extra_dns_names)

  -- generateRSASelfSignedCert, of dex_controller.go
  unfoldable pub generate_rsa_self_signed_cert : String → Exec W.State (String × String)
  generate_rsa_self_signed_cert domain = do
    priv ← W.generate_rsa_key 2048
    not_before ← total W.now
    not_after ← total W.now
    let template : Certificate = record {
      serial_number = some 1;
      common_name = domain;
      organization = "ninekube" ∷ [];
      not_before = not_before;
      not_after = not_after + 365 * day;
      key_usage = key_encipherment ∷ digital_signature ∷ [];
      ext_key_usage = server_auth ∷ [];
      basic_constraints_valid = true;
      is_ca = false;
      max_path_len = 0;
      dns_names = domain ∷ [];
    }
    cert_der ← W.create_certificate template (some template) priv priv
    priv_der ← lift (W.marshal_pkcs8 priv)
    pure (W.pem_encode "CERTIFICATE" cert_der, W.pem_encode "PRIVATE KEY" priv_der)
