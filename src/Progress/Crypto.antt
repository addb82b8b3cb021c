-- ===== src/Progress/Crypto.antt =====
-- Passwords, keys and certificates on a good day: `generateRandomPassword` of
-- operator/internal/controller/clientnamespace_controller.go, ca.go, and
-- `generateRSASelfSignedCert` of dex_controller.go.
use Prim.Native.String.{len}
use mathlib.Core.Path.{subst}
use ninekube.Prelude.{
  ℕ, zero, suc, ◌<◌, String, ◌≡◌, refl, ◌∙◌, ap, Option, some, none, arith, List,
}
use ninekube.Exec.{Exec, Outcome, Attempt, got, failed, ok, lift, attempt, attempted}
use ninekube.Exec.Succeeds.{
  Succeeds, Ends, Succeeds-pure, Succeeds-lift, Succeeds-attempt, Succeeds-bind, Succeeds-weaken,
}
use ninekube.World.{World, Certificate, AnyKey, rsa, other_key}
use ninekube.World.Lawful.{Lawful}
use ninekube.World.Healthy.{Healthy}
use ninekube.Controller.Password.{
  charset, char_at, generate_random_password, random_or_empty, or_empty,
}
use ninekube.Controller.Password.Bounds.{char_at-IsIn, charset-is_ascii, charset-pos}
use ninekube.Controller.Secrets.{or_wrapped}
use ninekube.Ca.{
  Ca, serial_range, or_nil, wrapping, encode_key, generate_ca, or_undecoded, only_rsa, parse_ca,
  sign, generate_rsa_self_signed_cert,
}
use ninekube.Progress.Room.{IsObjectwise, now-Ends, rand_int-Succeeds, generate_rsa_key-Ends}

-- A PEM text that decodes to the key.
abbrev pub HasKey : (W : World) → W.PrivateKey → String → Type 0
HasKey W k pem = (der : String) × (W.pem_decode pem ≡ some der) × (W.parse_pkcs8 der ≡ ok (rsa k))

-- A PEM text that decodes to the certificate, and to some certificate.
abbrev pub IsCertOf : World → String → Certificate → Type 0
IsCertOf W pem c = (der : String) × (W.pem_decode pem ≡ some der) × (W.parse_certificate der ≡ ok c)

abbrev pub HasCert : World → String → Type 0
HasCert W pem = (c : Certificate) × IsCertOf W pem c

-- A CA whose texts decode to what it holds.
abbrev pub IsWritten : (W : World) → Ca W → Type 0
IsWritten W ca =
    ((c : Certificate) × (ca.cert ≡ some c) × IsCertOf W ca.cert_pem c) × HasKey W ca.key ca.key_pem

-- The texts of a certificate and of an RSA key.
abbrev pub IsReadable : World → String → String → Type 0
IsReadable W cert_pem key_pem = HasCert W cert_pem × ((k : W.PrivateKey) × HasKey W k key_pem)

module _ {W : World} {L : Lawful W} (H : Healthy L) {I : W.State → Type 0}
    (h : IsObjectwise L I) where
  char_at-Ends : (i : ℕ) → i < len charset → Ends I I (char_at {S = W.State} charset i)
  char_at-Ends i range = record {
    at = λ s held.
        let (c, here, _, _) = char_at-IsIn charset i s charset-is_ascii range in
        rw here (_, refl, tt, held);
  }

  pub generate_random_password-Ends : (n : ℕ) → Ends I I (generate_random_password W n)
  unfolding generate_random_password
  generate_random_password-Ends zero = Succeeds-pure "" tt
  generate_random_password-Ends (suc n) =
      Succeeds-bind _ _ (rand_int-Succeeds H h (len charset) charset-pos) (λ i range.
        Succeeds-bind _ _ (char_at-Ends i range) (λ c _.
          Succeeds-bind _ _ (generate_random_password-Ends n) (λ rest _. Succeeds-pure _ tt)))

  pub random_or_empty-Ends : (n : ℕ) → Ends I I (random_or_empty W n)
  random_or_empty-Ends n =
      unfold random_or_empty in
      Succeeds-bind _ _ (Succeeds-attempt _ (generate_random_password-Ends n))
        (λ r _. Succeeds-pure _ tt)

  pub wrapped-Succeeds :
      {A : Type 0} {P : A → Type 0} (prefix : String) (r : Attempt A)
      → ((a : A) × (r ≡ got a) × P a)
      → Succeeds I I P (or_wrapped prefix r)
  unfolding or_wrapped
  wrapped-Succeeds {P = P} prefix (got b) (a, e, p) =
      let same : a ≡ b = cc in Succeeds-pure b (subst P same p)
  wrapped-Succeeds prefix (failed m) (a, e, p) = absurd (cc)

module _ {W : World} {L : Lawful W} (H : Healthy L) {I : W.State → Type 0}
    (h : IsObjectwise L I) where
  pub wrapping-Succeeds :
      {A : Type 0} {P : A → Type 0} (prefix : String) (m : Exec W.State A)
      → Succeeds I I P m
      → Succeeds I I P (wrapping W prefix m)
  wrapping-Succeeds prefix m ends =
      unfold wrapping in
      Succeeds-bind _ _ (Succeeds-attempt m ends) (λ r found. wrapped-Succeeds H h prefix r found)

  lifted-Succeeds :
      {A : Type 0} (r : Outcome A) (a : A)
      → r ≡ ok a
      → Succeeds I I (λ x. x ≡ got a) (attempt (lift r))
  unfolding attempt lift
  lifted-Succeeds r a e = record { at = λ s i. (got a, ap attempted e, refl, i) }

  encode_key-Succeeds : (k : W.PrivateKey) → Succeeds I I (HasKey W k) (encode_key W k)
  unfolding encode_key or_empty
  encode_key-Succeeds k =
      let (der, made, back) = H.marshal_done k in
      Succeeds-bind {P = λ r. r ≡ got der} _ _ (lifted-Succeeds (W.marshal_pkcs8 k) der made)
        (λ r e. Succeeds-pure _ (rw e (der, H.pem_decode-encode _ der, back)))

  -- A serial number was drawn.
  serial-Succeeds :
      Succeeds I I (λ r. (n : ℕ) × (or_nil r ≡ some n)) (attempt (W.rand_int serial_range))
  unfolding or_nil
  serial-Succeeds =
      Succeeds-weaken _ (λ r (n, e, _). (n, ap or_nil e))
        (Succeeds-attempt _ (rand_int-Succeeds H h serial_range (omega arith)))

  certificate-Succeeds :
      (t p : Certificate) (a b : W.PrivateKey) (n : ℕ)
      → t.serial_number ≡ some n
      → Succeeds I I
          (λ der. (c : Certificate) × (W.parse_certificate der ≡ ok c))
          (W.create_certificate t (some p) a b)
  certificate-Succeeds t p a b n e = record {
    at = λ s i.
        let (der, made, parsed) = H.create_certificate_done t p a b n s e in
        (der, made, parsed, h s _ (L.create_certificate_same t (some p) a b s) i);
  }

  issued-Succeeds :
      (t : Certificate) (parent : Option Certificate) (c : Certificate) (a b : W.PrivateKey) (n : ℕ)
      → t.serial_number ≡ some n
      → parent ≡ some c
      → Succeeds I I
          (λ der. (c : Certificate) × (W.parse_certificate der ≡ ok c))
          (W.create_certificate t parent a b)
  issued-Succeeds t parent c a b n e same = rw same (certificate-Succeeds t c a b n e)

  -- What `GenerateCA` makes can be read back.
  pub generate_ca-IsWritten : (name : String) → Succeeds I I (IsWritten W) (generate_ca W name)
  generate_ca-IsWritten name =
      unfold generate_ca in
      Succeeds-bind _ _ (wrapping-Succeeds _ _ (generate_rsa_key-Ends H h 2048)) (λ key _.
        Succeeds-bind _ _ serial-Succeeds (λ serial drawn.
          Succeeds-bind _ _ (now-Ends H h) (λ not_before _.
            Succeeds-bind _ _ (now-Ends H h) (λ not_after _.
              Succeeds-bind _ _
                (wrapping-Succeeds _ _ (certificate-Succeeds _ _ key key drawn.0 drawn.1))
                (λ der (c, parsed). Succeeds-bind _ _ (encode_key-Succeeds key) (λ key_pem has_key.
                  Succeeds-bind _ _ (lifted-Succeeds (W.parse_certificate der) c parsed)
                    (λ cert read. Succeeds-pure _ (
                      (
                        c,
                        unfold or_nil in ap or_nil read,
                        (der, H.pem_decode-encode _ der, parsed),
                      ),
                      has_key,
                    ))))))))

  decoded-Succeeds :
      (m : String) (o : Option String) (b : String)
      → o ≡ some b
      → Succeeds I I (λ x. x ≡ b) (or_undecoded W m o)
  unfolding or_undecoded
  decoded-Succeeds m none b e = absurd (cc)
  decoded-Succeeds m (some x) b e = Succeeds-pure x (cc)

  only_rsa-Succeeds :
      (any : AnyKey W.PrivateKey) (k : W.PrivateKey)
      → any ≡ rsa k
      → Succeeds I I (λ x. x ≡ k) (only_rsa W any)
  unfolding only_rsa
  only_rsa-Succeeds (rsa x) k e = Succeeds-pure x (cc)
  only_rsa-Succeeds other_key k e = absurd (cc)

  read-Succeeds :
      {A : Type 0} {r : Outcome A} {a : A} → r ≡ ok a → Succeeds I I (λ x. x ≡ a) (lift r)
  read-Succeeds {r = r} {a = a} e = Succeeds-lift r a e refl

  pub parse_ca-Succeeds :
      (cert_pem key_pem : String) (c : Certificate) (k : W.PrivateKey)
      → IsCertOf W cert_pem c
      → HasKey W k key_pem
      → Succeeds I I
          (λ ca. ca ≡ record { cert = some c; key = k; cert_pem = cert_pem; key_pem = key_pem })
          (parse_ca W cert_pem key_pem)
  parse_ca-Succeeds cert_pem key_pem c k (der, decoded, parsed) (key_der, key_decoded, key_parsed) =
      unfold parse_ca in
      Succeeds-bind _ _ (decoded-Succeeds _ (W.pem_decode cert_pem) der decoded) (λ block same.
        Succeeds-bind _ _
          (wrapping-Succeeds _ _ (read-Succeeds (ap W.parse_certificate same ∙ parsed)))
          (λ cert read.
            Succeeds-bind _ _ (decoded-Succeeds _ (W.pem_decode key_pem) key_der key_decoded)
              (λ key_block key_same.
                Succeeds-bind _ _
                  (wrapping-Succeeds _ _ (read-Succeeds (ap W.parse_pkcs8 key_same ∙ key_parsed)))
                  (λ any is_rsa.
                    Succeeds-bind _ _ (only_rsa-Succeeds any k is_rsa)
                      (λ key e. Succeeds-pure _ (rw (read, e)))))))

  pub sign-Ends :
      (ca : Ca W) (c : Certificate) (service host : String) (names : List String)
      → ca.cert ≡ some c
      → Ends I I (sign W ca service host names)
  sign-Ends ca c service host names e =
      unfold sign in
      Succeeds-bind _ _ (wrapping-Succeeds _ _ (generate_rsa_key-Ends H h 2048)) (λ key _.
        Succeeds-bind _ _ serial-Succeeds (λ serial drawn.
          Succeeds-bind _ _ (now-Ends H h) (λ not_before _.
            Succeeds-bind _ _ (now-Ends H h) (λ not_after _.
              Succeeds-bind _ _
                (wrapping-Succeeds _ _ (issued-Succeeds _ ca.cert c key ca.key drawn.0 drawn.1 e))
                (λ der parsed.
                  Succeeds-bind _ _ (encode_key-Succeeds key) (λ key_pem _. Succeeds-pure _ tt))))))

  pub generate_rsa_self_signed_cert-Ends :
      (domain : String) → Ends I I (generate_rsa_self_signed_cert W domain)
  generate_rsa_self_signed_cert-Ends domain =
      unfold generate_rsa_self_signed_cert in
      Succeeds-bind _ _ (generate_rsa_key-Ends H h 2048) (λ priv _.
        Succeeds-bind _ _ (now-Ends H h) (λ not_before _.
          Succeeds-bind _ _ (now-Ends H h) (λ not_after _.
            Succeeds-bind _ _ (certificate-Succeeds _ _ priv priv 1 refl) (λ der _.
              let (key_der, made, _) = H.marshal_done priv in
              Succeeds-bind _ _ (Succeeds-lift {P = λ _. Unit} _ key_der made tt)
                (λ d _. Succeeds-pure _ tt)))))
