-- ===== src/Progress/Secrets.antt =====
-- The credentials' Secrets, the CA and the certificates on a good day: `ensureAdminCredentials`,
-- `ensureRootSecrets`, `ensureNinegateSecret` and `getOrCreatePassword` of
-- operator/internal/controller/clientnamespace_controller.go.
use ninekube.Prelude.{ℕ, String, StringMap, ◌≡◌, refl, false, ◌==◌, Option, none, some}
use ninekube.Exec.{Exec, Attempt, got, failed}
use ninekube.Exec.Succeeds.{Ends, Succeeds-pure, Succeeds-attempt, Succeeds-bind}
use ninekube.Api.{ClientNamespace, StorageConfig, SecretKeySelector}
use ninekube.Kube.{Object, secret_kind}
use ninekube.World.{World}
use ninekube.World.Lawful.{Lawful}
use ninekube.World.Healthy.{Healthy}
use ninekube.Controller.Ensure.{key}
use ninekube.Controller.Password.{
  or_random, read_or_random, given_or_read, get_or_create_password, existing_password,
}
use ninekube.Controller.Secrets.{
  create_admin_credentials, unless_given, ensure_admin_credentials, ensure_service_secret,
  ensure_root_secrets, secret_value, admin_password, create_ninegate_secret, ensure_ninegate_secret,
}
use ninekube.Progress.Room.{
  IsObjectwise, IsRoomy, Missing, Missing-objectwise, get-Ends, create-Ends, if_missing-Ends,
  ensure-Ends,
}
use ninekube.Progress.Crypto.{generate_random_password-Ends, random_or_empty-Ends, wrapped-Succeeds}
use ninekube.Progress.Fit.{IsHarmless-of_name}

module _ {W : World} {L : Lawful W} (H : Healthy L) {I : W.State → Type 0}
    (h : IsObjectwise L I) where
  pub secret_value-Ends :
      (n : ℕ) (name : String) (r : Attempt Object) → Ends I I (secret_value W n name r)
  unfolding secret_value
  secret_value-Ends n name (got o) = Succeeds-pure _ tt
  secret_value-Ends n name (failed e) = random_or_empty-Ends H h n

  pub admin_password-Ends : (ns : String) → Ends I I (admin_password W ns)
  admin_password-Ends ns =
      unfold admin_password in Succeeds-bind _ _ (get-Ends H h _) (λ r _. secret_value-Ends _ _ r)

  or_random-Ends : (o : Option String) → Ends I I (or_random W o)
  unfolding or_random
  or_random-Ends (some pass) = Succeeds-pure pass tt
  or_random-Ends none = random_or_empty-Ends H h 32

  given_or_read-Ends :
      (o : Option String) (ns name k : String) → Ends I I (given_or_read W o ns name k)
  unfolding given_or_read read_or_random
  given_or_read-Ends (some pass) ns name k = Succeeds-pure pass tt
  given_or_read-Ends none ns name k =
      Succeeds-bind _ _ (get-Ends H h _) (λ r _. or_random-Ends (existing_password W k r))

  pub get_or_create_password-Ends :
      (ns name k : String) (storage : Option StorageConfig) (field seed : String)
      → Ends I I (get_or_create_password W ns name k storage field seed)
  get_or_create_password-Ends ns name k storage field seed =
      unfold get_or_create_password in given_or_read-Ends _ ns name k

module _ {W : World} {L : Lawful W} (H : Healthy L) {I : W.State → Type 0} {ns : String}
    (room : IsRoomy L ns I) (cn : ClientNamespace) where
  create_admin_credentials-Ends :
      Ends
        (Missing L I (key secret_kind ns "admin-credentials"))
        I
        (create_admin_credentials W cn ns)
  create_admin_credentials-Ends =
      let mid = Missing-objectwise L I (key secret_kind ns "admin-credentials") room.objectwise in
      unfold create_admin_credentials in
      Succeeds-bind _ _ (Succeeds-attempt _ (generate_random_password-Ends H mid 24)) (λ r found.
        Succeeds-bind _ _ (wrapped-Succeeds H mid _ r found)
          (λ p _. create-Ends H room _ (IsHarmless-of_name ns "admin-credentials" refl) tt))

  unless_given-Ends :
      (o : Option SecretKeySelector) (m : Exec W.State (Unit {0}))
      → Ends I I m
      → Ends I I (unless_given o m)
  unfolding unless_given
  unless_given-Ends (some given) m ends = Succeeds-pure tt tt
  unless_given-Ends none m ends = ends

  pub ensure_admin_credentials-Ends : Ends I I (ensure_admin_credentials W cn ns)
  ensure_admin_credentials-Ends =
      unfold ensure_admin_credentials in
      unless_given-Ends _ _ (if_missing-Ends H room _ _ create_admin_credentials-Ends)

  ensure_service_secret-Ends :
      (name : String) (values : StringMap)
      → (name == "ca") ≡ false
      → Ends I I (ensure_service_secret W cn ns name values)
  unfolding ensure_service_secret
  ensure_service_secret-Ends name values other =
      ensure-Ends H room _ (IsHarmless-of_name ns name other) tt

  pub ensure_root_secrets-Ends : (p q : String) → Ends I I (ensure_root_secrets W cn ns p q)
  ensure_root_secrets-Ends p q =
      unfold ensure_root_secrets in
      Succeeds-bind _ _ (ensure_service_secret-Ends "postgres-secret" _ refl)
        (λ _ _. ensure_service_secret-Ends "rustfs-secret" _ refl)

  create_ninegate_secret-Ends :
      (p q : String)
      → Ends
          (Missing L I (key secret_kind ns "ninegate-secret"))
          I
          (create_ninegate_secret W cn ns p q)
  create_ninegate_secret-Ends p q =
      let mid = Missing-objectwise L I (key secret_kind ns "ninegate-secret") room.objectwise in
      unfold create_ninegate_secret in
      Succeeds-bind _ _ (admin_password-Ends H mid ns) (λ a _.
        Succeeds-bind _ _ (random_or_empty-Ends H mid 32) (λ b _.
          Succeeds-bind _ _ (random_or_empty-Ends H mid 32)
            (λ c _. create-Ends H room _ (IsHarmless-of_name ns "ninegate-secret" refl) tt)))

  pub ensure_ninegate_secret-Ends : (p q : String) → Ends I I (ensure_ninegate_secret W cn ns p q)
  ensure_ninegate_secret-Ends p q =
      unfold ensure_ninegate_secret in if_missing-Ends H room _ _ (create_ninegate_secret-Ends p q)
