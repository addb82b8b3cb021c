-- ===== src/Outcomes/Shared.antt =====
-- An entry of a Secret that provisioning makes (`ensureServiceSecret`, `ensureRootSecrets` and
-- `ensureNinegateSecret` of operator/internal/controller/clientnamespace_controller.go): its value,
-- where the Secret was not there before.
pub mod Passwords
pub mod Root
use ninekube.Prelude.{
  String, StringMap, ◌≡◌, ◌≢◌, refl, sym, ◌∙◌, ap, ◌==◌, eq_iff, none, some, some_inj, List, [],
  ◌∷◌, lookup, false-ne-true, false,
}
use mathlib.Core.Path.{subst}
use ninekube.Exec.Moves.{Moves}
use ninekube.Api.{ClientNamespace}
use ninekube.Kube.{Key, Object, SecretSpec, secret, secret_kind, secret_data, key_of, opaque}
use ninekube.World.{World}
use ninekube.World.Lawful.{Lawful}
use ninekube.World.Grows.{Present}
use ninekube.World.Adds.{Adds, Adds-Permits}
use ninekube.World.Permits.Rules.{bind-Moves}
use ninekube.Controller.Ensure.{key}
use ninekube.Controller.Labels.{client_labels}
use ninekube.Controller.Secrets.{
  string_secret, ninegate_values, ensure_service_secret, ensure_root_secrets,
  create_ninegate_secret, ensure_ninegate_secret,
}
use ninekube.Controller.Password.Moving.{random_or_empty-Moves}
use ninekube.Growth.Secrets.{if_missing-Moves, admin_password-Moves}

-- Two texts with different spellings.
pub apart : (a b : String) → (a == b) ≡ false → a ≡ b → ⊥
apart a b h e = false-ne-true (sym h ∙ (eq_iff a b).1 e)

module _ (ns name k v : String) where
  -- What is added under the Secret's key has the entry.
  abbrev pub Valued : Key → Object → Type 0
  Valued j x = j ≡ key secret_kind ns name → lookup k (secret_data x.body) ≡ some v

module _ {W : World} (L : Lawful W) where
  -- The Secret is held, with the entry.
  abbrev pub HasValue : String → String → String → String → W.State → Type 0
  HasValue ns name k v s =
      (x : Object) × (L.object s (key secret_kind ns name) ≡ some x)
      × (lookup k (secret_data x.body) ≡ some v)

module _ {W : World} (L : Lawful W) (cn : ClientNamespace) (ns name k v : String) where
  create-Valued :
      (other : String) (labels values : StringMap)
      → (other ≡ name → lookup k values ≡ some v)
      → Moves (Adds L (Valued ns name k v)) (W.create (string_secret ns other labels values))
  create-Valued other labels values h =
      let P = Adds-Permits L (Valued ns name k v) in
      let spec : SecretSpec = record { type = opaque; binary = []; string_data = values } in
      P.create (string_secret ns other labels values) (λ e.
        L.admit_string_data (string_secret ns other labels values) spec k v refl
          (h (ap (λ (j : Key). j.name) e)))

  ensure_service_secret-Valued :
      (other : String) (values : StringMap)
      → (other ≡ name → lookup k values ≡ some v)
      → Moves (Adds L (Valued ns name k v)) (ensure_service_secret W cn ns other values)
  ensure_service_secret-Valued other values h =
      unfold ensure_service_secret in
      if_missing-Moves (Adds-Permits L (Valued ns name k v)) _ _
        (create-Valued other (client_labels cn) values h)

  pub ensure_root_secrets-Valued :
      (pg s3 : String)
      → ("postgres-secret" ≡ name
          → lookup k (
              ("POSTGRES_USER", "root")
              ∷ ("POSTGRES_PASSWORD", pg)
              ∷ ("POSTGRES_DB", "ninegate")
              ∷ [])
            ≡ some v)
      → ("rustfs-secret" ≡ name
          → lookup k (("RUSTFS_ROOT_USER", cn.name) ∷ ("RUSTFS_ROOT_PASSWORD", s3) ∷ []) ≡ some v)
      → Moves (Adds L (Valued ns name k v)) (ensure_root_secrets W cn ns pg s3)
  ensure_root_secrets-Valued pg s3 hp hs =
      unfold ensure_root_secrets in
      bind-Moves (Adds-Permits L (Valued ns name k v)) _ _
        (ensure_service_secret-Valued "postgres-secret" _ hp)
        (λ _. ensure_service_secret-Valued "rustfs-secret" _ hs)

  pub ensure_ninegate_secret-Valued :
      (pg s3 : String)
      → ((a b c : String)
          → "ninegate-secret" ≡ name
          → lookup k (ninegate_values cn pg s3 a b c) ≡ some v)
      → Moves (Adds L (Valued ns name k v)) (ensure_ninegate_secret W cn ns pg s3)
  ensure_ninegate_secret-Valued pg s3 h =
      let P = Adds-Permits L (Valued ns name k v) in
      unfold ensure_ninegate_secret create_ninegate_secret in
      if_missing-Moves P _ _ (
        bind-Moves P _ _ (admin_password-Moves P ns) (λ a.
          bind-Moves P _ _ (random_or_empty-Moves P 32) (λ b.
            bind-Moves P _ _ (random_or_empty-Moves P 32)
              (λ c. create-Valued "ninegate-secret" _ _ (h a b c)))))

  -- A Secret that was not there, and is there now, has the entry.
  pub Adds-HasValue :
      (s t : W.State)
      → Adds L (Valued ns name k v) s t
      → L.object s (key secret_kind ns name) ≡ none
      → Present L (key secret_kind ns name) t
      → HasValue L ns name k v t
  Adds-HasValue s t moved gone (x, there) = (x, there, moved.new _ x gone there refl)
