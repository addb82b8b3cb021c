-- ===== src/Outcomes/Shared/Passwords.antt =====
-- The root passwords, in the Secrets of the services and in Ninegate's: Reconcile, getOrCreatePassword,
-- ensureRootSecrets and ensureNinegateSecret of
-- operator/internal/controller/clientnamespace_controller.go.
use ninekube.Prelude.{
  ℕ, String, ◌≡◌, refl, sym, ◌∙◌, ap, ◌==◌, ◌⊎◌, inl, inr, Option, none, some, none-ne-some, List,
  [], ◌∷◌, lookup, Bool-cases, if◌then◌else◌,
}
use ninekube.Exec.{Exec, Outcome, ok, err, panic, attempt, attempted, continue, pure, ◌>>=◌, ◌>>◌}
use ninekube.Exec.Moves.{bind-ok}
use ninekube.Api.{ClientNamespace, StorageConfig}
use ninekube.Kube.{Object, secret_kind, secret_data}
use ninekube.World.{World}
use ninekube.World.Lawful.{Lawful}
use ninekube.World.Healthy.{Healthy}
use ninekube.World.Grows.{Grows, Present}
use ninekube.World.Adds.{Adds, Adds-IsPreorder}
use ninekube.Catalog.{OptionalService}
use ninekube.Controller.Ensure.{key}
use ninekube.Controller.Labels.{client_labels}
use ninekube.Controller.Password.{
  filled, override, existing_password, or_random, given_or_read, read_or_random,
  get_or_create_password,
}
use ninekube.Controller.Secrets.{
  database_url, ninegate_values, ensure_root_secrets, ensure_ninegate_secret,
}
use ninekube.Controller.Status.{checked, or_failed}
use ninekube.Growth.Provision.{set_failed-Returns}
use ninekube.Outcomes.Shared.{
  apart, Valued, HasValue, ensure_root_secrets-Valued, ensure_ninegate_secret-Valued, Adds-HasValue,
}

module _ {W : World} (L : Lawful W) (decimal : ℕ → String) (order : List OptionalService)
    {A : Type 0} (cn : ClientNamespace) (reason : String) where
  checked_ok :
      (r : Outcome A) (t : W.State) (a : A)
      → (continue (attempted r) (checked W cn reason) t).0 ≡ ok a
      → (r ≡ ok a) × ((continue (attempted r) (checked W cn reason) t).1 ≡ t)
  unfolding pure
  checked_ok (ok b) t a e = (e, refl)
  checked_ok (err m) t a e =
      absurd ((set_failed-Returns L decimal order {P = λ _ _. ⊥} cn reason m).at t a e)
  checked_ok panic t a e = absurd (cc)

  -- A checked step that returned has run without an error, and nothing ran after it.
  or_failed-ok :
      (step : Exec W.State A) (s : W.State) (a : A)
      → (or_failed W cn reason step s).0 ≡ ok a
      → ((step s).0 ≡ ok a) × ((or_failed W cn reason step s).1 ≡ (step s).1)
  unfolding or_failed attempt ◌>>=◌
  or_failed-ok step s a e = checked_ok (step s).0 (step s).1 a e

module _ {W : World} (L : Lawful W) (decimal : ℕ → String) (order : List OptionalService)
    (cn : ClientNamespace) (reason : String) where
  -- A block that returned, whose first action is a checked step.
  pub step-ok :
      (step rest : Exec W.State (Unit {0})) (s : W.State)
      → ((or_failed W cn reason step >> rest) s).0 ≡ ok tt
      → ((step s).0 ≡ ok tt)
        × ((rest (step s).1).0 ≡ ok tt)
        × (((or_failed W cn reason step >> rest) s).1 ≡ (rest (step s).1).1)
  step-ok step rest s done =
      let (_, ran, then_ran, last) = bind-ok (or_failed W cn reason step) (λ _. rest) s tt done in
      let (good, at) = or_failed-ok L decimal order cn reason step s tt ran in
      (good, ap (λ t. (rest t).0) (sym at) ∙ then_ran, last ∙ ap (λ t. (rest t).1) at)

filled_lookup :
    (o : Option String) (v : String)
    → (elim o [ none ↦ none | some w ↦ if w == "" then none else some w ]) ≡ some v
    → o ≡ some v
filled_lookup none v e = absurd (none-ne-some e)
filled_lookup (some w) v e = elim (Bool-cases (w == "")) [
  | inl empty ↦ absurd (none-ne-some (rw empty at e))
  | inr full ↦ rw full at e
]

-- The Secret is not there, or it is there with a password, and the spec gives none.
abbrev pub IsUsable :
    {W : World} → Lawful W → String → String → String → Option String → W.State → Type 0
IsUsable {W} L ns name k given s =
    (L.object s (key secret_kind ns name) ≡ none)
    ⊎ ((given ≡ none)
        × (x : Object) × (p : String) × (L.object s (key secret_kind ns name) ≡ some x)
        × (filled k (secret_data x.body) ≡ some p))

module _ {W : World} {L : Lawful W} (H : Healthy L) (ns name k : String) where
  -- The password in the Secret is the one that is used.
  existing-run :
      (storage : Option StorageConfig) (field seed : String) (s : W.State) (x : Object) (p : String)
      → override storage field ≡ none
      → L.object s (key secret_kind ns name) ≡ some x
      → filled k (secret_data x.body) ≡ some p
      → (get_or_create_password W ns name k storage field seed s).0 ≡ ok p
  unfolding get_or_create_password given_or_read read_or_random attempt ◌>>=◌ existing_password
      or_random pure
  existing-run storage field seed s x p none_given there full =
      ap (λ o. (given_or_read W o ns name k s).0) none_given
      ∙ (ap
            (λ r.
              (continue (attempted r) (λ a. or_random W (existing_password W k a))
                (W.get (key secret_kind ns name) s).1).0)
            (H.get_held (key secret_kind ns name) s x there)
          ∙ ap (λ o. (or_random W o (W.get (key secret_kind ns name) s).1).0) full)

  -- The Secret has the password that is used, once it is made sure of.
  pub usable-HasValue :
      (cn : ClientNamespace) (storage : Option StorageConfig) (field seed : String)
      (s b t : W.State) (pass : String)
      → IsUsable L ns name k (override storage field) b
      → Adds L (Valued ns name k pass) b s
      → Adds L (Valued ns name k pass) s t
      → (get_or_create_password W ns name k storage field seed s).0 ≡ ok pass
      → Present L (key secret_kind ns name) t
      → HasValue L ns name k pass t
  unfolding filled
  usable-HasValue cn storage field seed s b t pass (inl gone) before after ran present =
      Adds-HasValue L cn ns name k pass b t
        ((Adds-IsPreorder L (Valued ns name k pass)).trans_at b s t before after) gone present
  usable-HasValue cn storage field seed s b t pass (inr (given, x, p, there, full)) before after ran
        present =
      let held = before.kept _ x there in
      let run = existing-run storage field seed s x p given held full in
      let same : p ≡ pass = cc (sym run ∙ ran) in
      (x, after.kept _ x held, filled_lookup _ pass (full ∙ ap some same))

module _ {W : World} (L : Lawful W) (ns : String) where
  -- The two passwords are in the Secrets of their services, and Ninegate's Secret has both.
  abbrev pub SharesPasswords : W.State → Type 0
  SharesPasswords t =
      (pg : String) × (s3 : String) × HasValue L ns "postgres-secret" "POSTGRES_PASSWORD" pg t
      × HasValue L ns "rustfs-secret" "RUSTFS_ROOT_PASSWORD" s3 t
      × HasValue L ns "ninegate-secret" "database-url" (database_url pg) t
      × HasValue L ns "ninegate-secret" "s3-secret-key" s3 t

module _ {W : World} (L : Lawful W) (cn : ClientNamespace) (ns : String) where
  pub Grows-SharesPasswords :
      (s t : W.State)
      → Grows L ns (client_labels cn) s t
      → SharesPasswords L ns s
      → SharesPasswords L ns t
  Grows-SharesPasswords s t g (pg, s3, (a, ha, va), (b, hb, vb), (c, hc, vc), (d, hd, vd)) = (
    pg,
    s3,
    (a, g.kept _ a ha, va),
    (b, g.kept _ b hb, vb),
    (c, g.kept _ c hc, vc),
    (d, g.kept _ d hd, vd),
  )

  -- The two steps that make the Secrets, after the two that choose the passwords.
  module _ (pg s3 : String) where
    secrets-Valued :
        (name k v : String) (s : W.State)
        → ("postgres-secret" ≡ name
            → lookup k (
                ("POSTGRES_USER", "root")
                ∷ ("POSTGRES_PASSWORD", pg)
                ∷ ("POSTGRES_DB", "ninegate")
                ∷ [])
              ≡ some v)
        → ("rustfs-secret" ≡ name
            → lookup k (("RUSTFS_ROOT_USER", cn.name) ∷ ("RUSTFS_ROOT_PASSWORD", s3) ∷ []) ≡ some v)
        → ((a b c : String)
            → "ninegate-secret" ≡ name
            → lookup k (ninegate_values cn pg s3 a b c) ≡ some v)
        → (let t : W.State = (ensure_root_secrets W cn ns pg s3 s).1 in
            Adds L (Valued ns name k v) s (ensure_ninegate_secret W cn ns pg s3 t).1)
    secrets-Valued name k v s hp hs hn =
        (Adds-IsPreorder L (Valued ns name k v)).trans_at s _ _
          ((ensure_root_secrets-Valued L cn ns name k v pg s3 hp hs).at s)
          ((ensure_ninegate_secret-Valued L cn ns name k v pg s3 hn).at _)

    pub postgres-Valued :
        (s : W.State)
        → (let t : W.State = (ensure_root_secrets W cn ns pg s3 s).1 in
            Adds L
              (Valued ns "postgres-secret" "POSTGRES_PASSWORD" pg)
              s
              (ensure_ninegate_secret W cn ns pg s3 t).1)
    unfolding lookup
    postgres-Valued s =
        secrets-Valued "postgres-secret" "POSTGRES_PASSWORD" pg s (λ _. refl)
          (λ e. absurd (apart "rustfs-secret" "postgres-secret" refl e))
          (λ a b c e. absurd (apart "ninegate-secret" "postgres-secret" refl e))

    pub rustfs-Valued :
        (s : W.State)
        → (let t : W.State = (ensure_root_secrets W cn ns pg s3 s).1 in
            Adds L
              (Valued ns "rustfs-secret" "RUSTFS_ROOT_PASSWORD" s3)
              s
              (ensure_ninegate_secret W cn ns pg s3 t).1)
    unfolding lookup
    rustfs-Valued s =
        secrets-Valued "rustfs-secret" "RUSTFS_ROOT_PASSWORD" s3 s
          (λ e. absurd (apart "postgres-secret" "rustfs-secret" refl e)) (λ _. refl)
          (λ a b c e. absurd (apart "ninegate-secret" "rustfs-secret" refl e))

    pub ninegate-Valued :
        (k v : String) (s : W.State)
        → ((a b c : String) → lookup k (ninegate_values cn pg s3 a b c) ≡ some v)
        → (let t : W.State = (ensure_root_secrets W cn ns pg s3 s).1 in
            Adds L (Valued ns "ninegate-secret" k v) s (ensure_ninegate_secret W cn ns pg s3 t).1)
    ninegate-Valued k v s h =
        secrets-Valued "ninegate-secret" k v s
          (λ e. absurd (apart "postgres-secret" "ninegate-secret" refl e))
          (λ e. absurd (apart "rustfs-secret" "ninegate-secret" refl e)) (λ a b c _. h a b c)
