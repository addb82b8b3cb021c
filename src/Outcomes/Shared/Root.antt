-- ===== src/Outcomes/Shared/Root.antt =====
-- A run of the whole of `Reconcile`'s secrets, from the choice of the root passwords on
-- (operator/internal/controller/clientnamespace_controller.go).
use ninekube.Prelude.{ℕ, String, ◌<>◌, ◌≡◌, refl, ◌∙◌, none, some, List, lookup}
use mathlib.Core.Path.{subst⁻¹}
use ninekube.Exec.{Exec, ok, ◌>>◌, ◌>>=◌}
use ninekube.Exec.Moves.{bind-ok}
use ninekube.Api.{ClientNamespace}
use ninekube.Kube.{secret_kind}
use ninekube.World.{World}
use ninekube.World.Lawful.{Lawful}
use ninekube.World.Healthy.{Healthy}
use ninekube.World.Grows.{Present}
use ninekube.World.Grows.Rules.{Grows-Permits}
use ninekube.Growth.Secrets.{ensure_ninegate_secret-Moves}
use ninekube.Controller.Labels.{client_labels}
use ninekube.World.Adds.{Adds, Adds-IsPreorder, Adds-Permits}
use ninekube.Catalog.{OptionalService, reconcile_optional_services}
use ninekube.Certs.{ensure_ca, ensure_service_certs}
use ninekube.Controller.Status.{or_failed}
use ninekube.Controller.Ensure.{key}
use ninekube.Controller.Password.{override, get_or_create_password}
use ninekube.Controller.Password.Moving.{get_or_create_password-Moves}
use ninekube.Controller.Secrets.{
  database_url, ninegate_values, ensure_root_secrets, ensure_ninegate_secret,
}
use ninekube.Controller.Reconcile.{provision_secrets}
use ninekube.Outcomes.Objects.{ensure_root_secrets-Present, ensure_ninegate_secret-Present}
use ninekube.Outcomes.Ready.{ca-certs-Grows}
use ninekube.Outcomes.Shared.{Valued, Adds-HasValue}
use ninekube.Outcomes.Shared.Passwords.{
  step-ok, IsUsable, usable-HasValue, SharesPasswords, Grows-SharesPasswords, postgres-Valued,
  rustfs-Valued, ninegate-Valued,
}

module _ (W : World) (cn : ClientNamespace) (ns : String) where
  abbrev choose_pg : Exec W.State String
  choose_pg =
      get_or_create_password W ns "postgres-secret" "POSTGRES_PASSWORD" cn.spec.storage
        "postgresRootPassword" (cn.name <> "-pg")

  abbrev choose_s3 : Exec W.State String
  choose_s3 =
      get_or_create_password W ns "rustfs-secret" "RUSTFS_ROOT_PASSWORD" cn.spec.storage
        "rustfsRootPassword" (cn.name <> "-s3")

module _ {W : World} {L : Lawful W} (H : Healthy L) (cn : ClientNamespace) (ns : String) where
  -- Choosing a password moves no object.
  chosen-Valued :
      (name k v : String) (s : W.State)
      → (let t : W.State = (choose_pg W cn ns s).1 in
          Adds L (Valued ns name k v) s t × Adds L (Valued ns name k v) t (choose_s3 W cn ns t).1)
  chosen-Valued name k v s =
      let P = Adds-Permits L (Valued ns name k v) in
      (
        (get_or_create_password-Moves P _ _ _ _ _ _).at s,
        (get_or_create_password-Moves P _ _ _ _ _ _).at _,
      )

  -- After the two passwords are chosen, and the three Secrets are made sure of.
  made-SharesPasswords :
      (pg s3 : String) (s : W.State)
      → IsUsable L ns "postgres-secret" "POSTGRES_PASSWORD"
          (override cn.spec.storage "postgresRootPassword")
          s
      → IsUsable L ns "rustfs-secret" "RUSTFS_ROOT_PASSWORD"
          (override cn.spec.storage "rustfsRootPassword")
          s
      → L.object s (key secret_kind ns "ninegate-secret") ≡ none
      → (let s1 : W.State = (choose_pg W cn ns s).1 in
          let s2 : W.State = (choose_s3 W cn ns s1).1 in
          let u : W.State = (ensure_root_secrets W cn ns pg s3 s2).1 in
          ((choose_pg W cn ns s).0 ≡ ok pg)
          → ((choose_s3 W cn ns s1).0 ≡ ok s3)
          → ((ensure_root_secrets W cn ns pg s3 s2).0 ≡ ok tt)
          → ((ensure_ninegate_secret W cn ns pg s3 u).0 ≡ ok tt)
          → SharesPasswords L ns (ensure_ninegate_secret W cn ns pg s3 u).1)
  unfolding lookup ninegate_values
  made-SharesPasswords pg s3 s usable_pg usable_s3 gone got_pg got_s3 made_root made_ninegate =
      let s1 : W.State = (choose_pg W cn ns s).1 in
      let s2 : W.State = (choose_s3 W cn ns s1).1 in
      let u : W.State = (ensure_root_secrets W cn ns pg s3 s2).1 in
      let t : W.State = (ensure_ninegate_secret W cn ns pg s3 u).1 in
      let (there_pg, there_s3) = (ensure_root_secrets-Present L cn ns pg s3).at s2 tt made_root in
      let kept =
        (ensure_ninegate_secret-Moves cn ns (Grows-Permits L ns (client_labels cn)) pg s3).at u in
      let there = (ensure_ninegate_secret-Present L cn ns pg s3).at u tt made_ninegate in
      let there_pg' : Present L (key secret_kind ns "postgres-secret") t =
        (there_pg.0, kept.kept _ there_pg.0 there_pg.1) in
      let there_s3' : Present L (key secret_kind ns "rustfs-secret") t =
        (there_s3.0, kept.kept _ there_s3.0 there_s3.1) in
      let entry =
        λ (k v : String)
            (h : (a b c : String) → lookup k (ninegate_values cn pg s3 a b c) ≡ some v).
          let pre = Adds-IsPreorder L (Valued ns "ninegate-secret" k v) in
          let (first, second) = chosen-Valued "ninegate-secret" k v s in
          Adds-HasValue L cn ns "ninegate-secret" k v s t
            (pre.trans_at s s2 t (pre.trans_at s s1 s2 first second)
              (ninegate-Valued L cn ns pg s3 k v s2 h))
            gone there in
      let pre_pg = Adds-IsPreorder L (Valued ns "postgres-secret" "POSTGRES_PASSWORD" pg) in
      let (pg1, pg2) = chosen-Valued "postgres-secret" "POSTGRES_PASSWORD" pg s in
      let pre_s3 = Adds-IsPreorder L (Valued ns "rustfs-secret" "RUSTFS_ROOT_PASSWORD" s3) in
      let (s31, s32) = chosen-Valued "rustfs-secret" "RUSTFS_ROOT_PASSWORD" s3 s in
      (
        pg,
        s3,
        usable-HasValue H ns "postgres-secret" "POSTGRES_PASSWORD" cn cn.spec.storage
            "postgresRootPassword" (cn.name <> "-pg") s s t pg usable_pg (pre_pg.refl_at s)
            (pre_pg.trans_at s s1 t pg1
              (pre_pg.trans_at s1 s2 t pg2 (postgres-Valued L cn ns pg s3 s2)))
            got_pg there_pg',
        usable-HasValue H ns "rustfs-secret" "RUSTFS_ROOT_PASSWORD" cn cn.spec.storage
            "rustfsRootPassword" (cn.name <> "-s3") s1 s t s3 usable_s3 s31
            (pre_s3.trans_at s1 s2 t s32 (rustfs-Valued L cn ns pg s3 s2)) got_s3 there_s3',
        entry "database-url" (database_url pg) (λ a b c. refl),
        entry "s3-secret-key" s3 (λ a b c. refl),
      )

  module _ (decimal : ℕ → String) (order : List OptionalService) where
    -- The CA, the certificates and the catalog.
    abbrev crypto_part : Exec W.State (Unit {0})
    crypto_part =
        or_failed W cn "CAFailed" (ensure_ca W cn ns)
        >> (or_failed W cn "CertFailed" (ensure_service_certs W cn ns)
            >> or_failed W cn "OptionalServicesFailed" (reconcile_optional_services order cn))

    abbrev after_choice : String → String → Exec W.State (Unit {0})
    after_choice pg s3 =
        or_failed W cn "RootSecretsFailed" (ensure_root_secrets W cn ns pg s3)
        >> (or_failed W cn "NinegateSecretFailed" (ensure_ninegate_secret W cn ns pg s3)
            >> crypto_part)

    after_choice-SharesPasswords :
        (pg s3 : String) (s : W.State)
        → (let u : W.State = (ensure_root_secrets W cn ns pg s3 s).1 in
            ((ensure_root_secrets W cn ns pg s3 s).0 ≡ ok tt)
            → ((ensure_ninegate_secret W cn ns pg s3 u).0 ≡ ok tt)
            → SharesPasswords L ns (ensure_ninegate_secret W cn ns pg s3 u).1)
        → (after_choice pg s3 s).0 ≡ ok tt
        → SharesPasswords L ns (after_choice pg s3 s).1
    after_choice-SharesPasswords pg s3 s made done =
        let root : Exec W.State (Unit {0}) = ensure_root_secrets W cn ns pg s3 in
        let nine : Exec W.State (Unit {0}) = ensure_ninegate_secret W cn ns pg s3 in
        let (made_root, rest, last) =
          step-ok L decimal order cn "RootSecretsFailed" root
            (or_failed W cn "NinegateSecretFailed" nine >> crypto_part) s done in
        let (made_nine, rest', last') =
          step-ok L decimal order cn "NinegateSecretFailed" nine crypto_part (root s).1 rest in
        subst⁻¹ (λ (t : W.State). SharesPasswords L ns t) (last ∙ last')
          (Grows-SharesPasswords L cn ns _ _
            ((ca-certs-Grows L decimal order cn ns).at (nine (root s).1).1)
            (made made_root made_nine))

    -- On a good day, where the secrets' part of `Reconcile` returned without an error, the Secret of
    -- Ninegate, if it was not there before, names PostgreSQL's root password in its database URL and
    -- RustFS's as its key: the passwords that the Secrets of these two services hold. Each of these two
    -- Secrets was not there before either, or it held a password already and the spec gives none.
    pub provision_secrets-SharesPasswords :
        (s : W.State)
        → IsUsable L ns "postgres-secret" "POSTGRES_PASSWORD"
            (override cn.spec.storage "postgresRootPassword")
            s
        → IsUsable L ns "rustfs-secret" "RUSTFS_ROOT_PASSWORD"
            (override cn.spec.storage "rustfsRootPassword")
            s
        → L.object s (key secret_kind ns "ninegate-secret") ≡ none
        → (provision_secrets W decimal order cn ns s).0 ≡ ok tt
        → SharesPasswords L ns (provision_secrets W decimal order cn ns s).1
    unfolding provision_secrets
    provision_secrets-SharesPasswords s usable_pg usable_s3 gone done =
        let pg_run : Exec W.State String = choose_pg W cn ns in
        let s3_run : Exec W.State String = choose_s3 W cn ns in
        let (pg, got_pg, rest, last) =
          bind-ok pg_run (λ p. s3_run >>= λ q. after_choice p q) s tt done in
        let (s3, got_s3, rest', last') =
          bind-ok s3_run (λ q. after_choice pg q) (pg_run s).1 tt rest in
        subst⁻¹ (λ (t : W.State). SharesPasswords L ns t) (last ∙ last')
          (after_choice-SharesPasswords pg s3 _
            (λ made_root made_nine.
              made-SharesPasswords pg s3 s usable_pg usable_s3 gone got_pg got_s3 made_root
                made_nine)
            rest')
