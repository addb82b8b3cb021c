-- ===== src/Ca/Issued.antt =====
-- What the certificates are that operator/internal/controller/ca.go signs.
use ninekube.Prelude.{String, ◌<>◌, ◌≡◌, refl, false, List, [], ◌∷◌}
use ninekube.Exec.{Exec, ok, got, failed, Attempt, pure, ◌>>=◌}
use ninekube.Exec.Moves.{Returns, Returns-bind, Returns-rest, Returns-raise, Returns-pure}
use ninekube.World.{World, Certificate, server_auth, client_auth}
use ninekube.Controller.Secrets.{or_wrapped}
use ninekube.Ca.{Ca, wrapping, encode_key, sign, sign_cert_multi_san}
use ninekube.Outcomes.Present.{Returns-attempt}

module _ (W : World) where
  -- The two texts are of a certificate that the CA has signed, and of the key that it certifies. The
  -- certificate is for servers and clients of the names, and not for a CA.
  abbrev pub IsIssued : Ca W → String → List String → String × String → Type 0
  IsIssued ca host names pems =
      (template : Certificate) × (key : W.PrivateKey) × (der : String) × (u v : W.State)
      × ((W.create_certificate template ca.cert key ca.key u).0 ≡ ok der)
      × ((encode_key W key v).0 ≡ ok pems.1)
      × (pems.0 ≡ W.pem_encode "CERTIFICATE" der)
      × (template.common_name ≡ host)
      × (template.dns_names ≡ names)
      × (template.ext_key_usage ≡ server_auth ∷ client_auth ∷ [])
      × (template.is_ca ≡ false)

module _ {S A : Type 0} where
  -- A value that an action gave, it gave in some state.
  Returns-ran : (m : Exec S A) → Returns (λ a _. (u : S) × ((m u).0 ≡ ok a)) m
  Returns-ran m = record { at = λ s a e. (s, e) }

module _ {S A : Type 0} {P : A → Type 0} where
  or_wrapped-Returns :
      (prefix : String) (r : Attempt A) (s : S) (a : A)
      → ((b : A) → r ≡ got b → P b)
      → (or_wrapped prefix r s).0 ≡ ok a
      → P a
  unfolding or_wrapped
  or_wrapped-Returns prefix (got b) s a h e = (Returns-pure {P = P} b (h b refl)).at s a e
  or_wrapped-Returns prefix (failed m) s a h e = (Returns-raise {P = λ b _. P b} _).at s a e

module _ (W : World) {A : Type 0} {P : A → Type 0} where
  pub wrapping-Returns :
      (prefix : String) (m : Exec W.State A)
      → Returns (λ a _. P a) m
      → Returns (λ a _. P a) (wrapping W prefix m)
  unfolding wrapping
  wrapping-Returns prefix m h =
      Returns-bind _ _ (Returns-attempt m h) (λ r s a p e. or_wrapped-Returns prefix r s a p e)

module _ {W : World} (ca : Ca W) where
  -- The end of the method, once the certificate is signed.
  encoded-IsIssued :
      (template : Certificate) (key : W.PrivateKey) (der : String) (u : W.State)
      → (W.create_certificate template ca.cert key ca.key u).0 ≡ ok der
      → template.ext_key_usage ≡ server_auth ∷ client_auth ∷ []
      → template.is_ca ≡ false
      → Returns
          (λ pems _. IsIssued W ca template.common_name template.dns_names pems)
          (encode_key W key >>= λ text. pure (W.pem_encode "CERTIFICATE" der, text))
  encoded-IsIssued template key der u signed usage no_ca =
      Returns-bind _ _ (Returns-ran (encode_key W key)) (λ text t pems (v, encoded) done.
        (Returns-pure {P = IsIssued W ca template.common_name template.dns_names} _
            (template, key, der, u, v, signed, encoded, refl, refl, refl, usage, no_ca)).at
          t pems done)

  sign-IsIssued :
      (service host : String) (names : List String)
      → Returns (λ pems _. IsIssued W ca host names pems) (sign W ca service host names)
  sign-IsIssued service host names =
      unfold sign in
      Returns-rest _ _ (λ key. Returns-rest _ _ (λ serial. Returns-rest _ _ (λ from.
        Returns-rest _ _ (λ to.
          Returns-bind {Q = λ pems _. IsIssued W ca host names pems} _ _
            (wrapping-Returns W _ _ (Returns-ran _))
            (λ der s pems (u, signed) done.
              (encoded-IsIssued _ key der u signed refl refl).at s pems done)))))

  pub sign_cert_multi_san-IsIssued :
      (service domain : String) (extra : List String)
      → Returns
          (λ pems _.
            IsIssued W ca (service <> "." <> domain) ((service <> "." <> domain) ∷ extra) pems)
          (sign_cert_multi_san W ca service domain extra)
  unfolding sign_cert_multi_san
  sign_cert_multi_san-IsIssued service domain extra = sign-IsIssued service _ _
