-- ===== src/Controller/Secrets.antt =====
-- The Secrets that hold credentials: `ensureAdminCredentials`, `ensureServiceSecret`,
-- `ensureRootSecrets` and `ensureNinegateSecret` of
-- operator/internal/controller/clientnamespace_controller.go.
use ninekube.Prelude.{ℕ, String, StringMap, ◌<>◌, Option, none, some, [], ◌∷◌}
use ninekube.Exec.{Exec, Attempt, got, failed, wrapped, pure, raise, attempt, ◌>>=◌, ◌>>◌}
use ninekube.Api.{ClientNamespace, SecretKeySelector}
use ninekube.Kube.{Object, secret, secret_kind, secret_data, opaque}
use ninekube.World.{World}
use ninekube.Controller.Labels.{client_labels, app_labels}
use ninekube.Controller.Domain.{replace_dots_with_dc}
use ninekube.Controller.Ensure.{key, named, if_missing}
use ninekube.Controller.Password.{generate_random_password, random_or_empty, filled}

-- a Secret literal with `StringData` only
abbrev pub string_secret : String → String → StringMap → StringMap → Object
string_secret ns name labels values = record {
  meta = named ns name labels;
  body = secret (record { type = opaque; binary = []; string_data = values });
}

module _ {S A : Type 0} where
  -- if err != nil { return fmt.Errorf("prefix: %w", err) }
  unfoldable pub or_wrapped : String → Attempt A → Exec S A
  or_wrapped prefix (got a) = pure a
  or_wrapped prefix (failed e) = raise (wrapped prefix e)

module _ {S : Type 0} where
  -- if cn.Spec.Admin.PasswordSecretRef != nil { return nil }; ...
  unfoldable pub unless_given : Option SecretKeySelector → Exec S (Unit {0}) → Exec S (Unit {0})
  unless_given (some given) absent = pure tt
  unless_given none absent = absent

-- fmt.Sprintf("postgresql://root:%s@postgresql:5432/ninegate?serverVersion=16", pgPass)
unfoldable pub database_url : String → String
database_url pg_pass =
    "postgresql://root:" <> pg_pass <> "@postgresql:5432/ninegate?serverVersion=16"

-- The `StringData` of `ninegate-secret`.
unfoldable pub ninegate_values :
    ClientNamespace → String → String → String → String → String → StringMap
unfolding database_url
ninegate_values cn pg_pass rustfs_pass admin_pass app_secret oidc_client_secret =
    let domain = cn.spec.domain in
    ("app-secret", app_secret)
    ∷ ("app-admin-password", admin_pass)
    ∷ ("database-url", database_url pg_pass)
    ∷ ("ldap-base", replace_dots_with_dc domain)
    ∷ ("oidc-client-secret", oidc_client_secret)
    ∷ ("default-uri", "https://ninegate." <> domain)
    ∷ ("oidc-issuer", "https://dex." <> domain)
    ∷ ("oidc-redirect-uri", "https://ninegate." <> domain <> "/callback")
    ∷ ("storage-dsn", "s3://ninegate-uploads")
    ∷ ("s3-endpoint", "http://rustfs:9000")
    ∷ ("s3-bucket", "ninegate-uploads")
    ∷ ("s3-access-key", cn.name)
    ∷ ("s3-secret-key", rustfs_pass)
    ∷ ("s3-region", "us-east-1")
    ∷ []

module _ (W : World) where
  unfoldable pub create_admin_credentials : ClientNamespace → String → Exec W.State (Unit {0})
  unfolding or_wrapped
  create_admin_credentials cn ns = do
    generated ← attempt (generate_random_password W 24)
    password ← or_wrapped "failed to generate admin password" generated
    W.create (
        string_secret ns "admin-credentials" (client_labels cn) (
          ("username", cn.spec.admin.username)
          ∷ ("password", password)
          ∷ ("email", cn.spec.admin.email)
          ∷ []))

  unfoldable pub ensure_admin_credentials : ClientNamespace → String → Exec W.State (Unit {0})
  unfolding create_admin_credentials unless_given
  ensure_admin_credentials cn ns =
      unless_given cn.spec.admin.password_secret_ref
        (if_missing W (key secret_kind ns "admin-credentials") (create_admin_credentials cn ns))

  unfoldable pub ensure_service_secret :
      ClientNamespace → String → String → StringMap → Exec W.State (Unit {0})
  ensure_service_secret cn ns name values =
      if_missing W (key secret_kind ns name)
        (W.create (string_secret ns name (client_labels cn) values))

  unfoldable pub ensure_root_secrets :
      ClientNamespace → String → String → String → Exec W.State (Unit {0})
  unfolding ensure_service_secret
  ensure_root_secrets cn ns pg_pass rustfs_pass = do
    ensure_service_secret cn ns "postgres-secret" (
        ("POSTGRES_USER", "root")
        ∷ ("POSTGRES_PASSWORD", pg_pass)
        ∷ ("POSTGRES_DB", "ninegate")
        ∷ [])
    ensure_service_secret cn ns "rustfs-secret"
        (("RUSTFS_ROOT_USER", cn.name) ∷ ("RUSTFS_ROOT_PASSWORD", rustfs_pass) ∷ [])

  -- What `ensureNinegateSecret` and Dex's `ensureConfigSecret` make of a Secret that they read:
  -- "changeme" where the key is missing or empty, a random text where the read failed.
  unfoldable pub secret_value : ℕ → String → Attempt Object → Exec W.State String
  unfolding filled
  secret_value length name (got found) =
      pure (elim (filled name (secret_data found.body)) [ none ↦ "changeme" | some v ↦ v ])
  secret_value length name (failed e) = random_or_empty W length

  unfoldable pub admin_password : String → Exec W.State String
  unfolding secret_value
  admin_password ns = do
    found ← attempt (W.get (key secret_kind ns "admin-credentials"))
    secret_value 24 "password" found

  unfoldable pub create_ninegate_secret :
      ClientNamespace → String → String → String → Exec W.State (Unit {0})
  unfolding admin_password
  create_ninegate_secret cn ns pg_pass rustfs_pass = do
    admin_pass ← admin_password ns
    app_secret ← random_or_empty W 32
    oidc_client_secret ← random_or_empty W 32
    W.create (
        string_secret ns "ninegate-secret" (app_labels "ninegate" cn)
          (ninegate_values cn pg_pass rustfs_pass admin_pass app_secret oidc_client_secret))

  unfoldable pub ensure_ninegate_secret :
      ClientNamespace → String → String → String → Exec W.State (Unit {0})
  unfolding create_ninegate_secret
  ensure_ninegate_secret cn ns pg_pass rustfs_pass =
      if_missing W (key secret_kind ns "ninegate-secret")
        (create_ninegate_secret cn ns pg_pass rustfs_pass)
