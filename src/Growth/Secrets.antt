-- ===== src/Growth/Secrets.antt =====
-- How the credentials' Secrets of Controller/Secrets.antt move the cluster, for any relation that
-- provisioning may move along.
use ninekube.Prelude.{ℕ, String, StringMap, ◌≡◌, refl, inl, Option, none, some}
use ninekube.Exec.{Exec, Attempt, got, failed}
use ninekube.Exec.Moves.{Moves, Moves-if, Moves-attempt}
use ninekube.Api.{ClientNamespace, SecretKeySelector}
use ninekube.Kube.{Key, Object}
use ninekube.World.{World}
use ninekube.World.Permits.{Permits, IsClients}
use ninekube.World.Permits.Rules.{moves_rules, pure-Moves, raise-Moves, bind-Moves, get-Moves}
use ninekube.Controller.Labels.{
  client_labels, app_labels, has_labels-client_labels, has_labels-app_labels,
}
use ninekube.Controller.Ensure.{on_missing, if_missing}
use ninekube.Controller.Password.Moving.{generate_random_password-Moves, random_or_empty-Moves}
use ninekube.Controller.Secrets.{
  or_wrapped, create_admin_credentials, unless_given, ensure_admin_credentials,
  ensure_service_secret, ensure_root_secrets, secret_value, admin_password, create_ninegate_secret,
  ensure_ninegate_secret,
}

module _ {W : World} {R : W.State → W.State → Type 0} {C : Object → Type 0}
    (P : Permits W R C) where
  on_missing-Moves :
      {A : Type 0} (r : Attempt A) (absent : Exec W.State (Unit {0}))
      → Moves R absent
      → Moves R (on_missing r absent)
  unfolding on_missing
  on_missing-Moves (got o) absent h = pure-Moves P tt
  on_missing-Moves (failed e) absent h = Moves-if _ _ _ (λ _. h) (λ _. raise-Moves P e)

  -- What an `ensure...` method does where the object is missing decides how it moves the state.
  pub if_missing-Moves :
      (k : Key) (absent : Exec W.State (Unit {0}))
      → Moves R absent
      → Moves R (if_missing W k absent)
  unfolding if_missing
  if_missing-Moves k absent h =
      bind-Moves P _ _ (Moves-attempt _ (get-Moves P k)) (λ r. on_missing-Moves r absent h)

  pub or_wrapped-Moves : {A : Type 0} (p : String) (r : Attempt A) → Moves R (or_wrapped p r)
  unfolding or_wrapped
  or_wrapped-Moves p (got a) = pure-Moves P a
  or_wrapped-Moves p (failed e) = raise-Moves P _

  pub secret_value-Moves :
      (n : ℕ) (name : String) (r : Attempt Object) → Moves R (secret_value W n name r)
  unfolding secret_value
  secret_value-Moves n name (got o) = pure-Moves P _
  secret_value-Moves n name (failed e) = random_or_empty-Moves P n

  pub admin_password-Moves : (ns : String) → Moves R (admin_password W ns)
  unfolding admin_password
  admin_password-Moves ns = search (moves_rules, secret_value-Moves)

module _ {W : World} {R : W.State → W.State → Type 0} (cn : ClientNamespace) (ns : String)
    (P : Permits W R (IsClients ns (client_labels cn))) where
  -- Objects in the client's namespace, with either set of labels.
  pub create_client-Moves :
      (o : Object) → o.meta.namespace ≡ ns → o.meta.labels ≡ client_labels cn → Moves R (W.create o)
  create_client-Moves o own lab = P.create o (inl own, rw lab (has_labels-client_labels cn))

  pub create_app-Moves :
      (app : String) (o : Object)
      → o.meta.namespace ≡ ns
      → o.meta.labels ≡ app_labels app cn
      → Moves R (W.create o)
  create_app-Moves app o own lab = P.create o (inl own, rw lab (has_labels-app_labels app cn))

  create_admin_credentials-Moves : Moves R (create_admin_credentials W cn ns)
  unfolding create_admin_credentials
  create_admin_credentials-Moves =
      bind-Moves P _ _ (Moves-attempt _ (generate_random_password-Moves P 24))
        (λ r. bind-Moves P _ _ (or_wrapped-Moves P _ r) (λ p. create_client-Moves _ refl refl))

  unless_given-Moves :
      (o : Option SecretKeySelector) (m : Exec W.State (Unit {0}))
      → Moves R m
      → Moves R (unless_given o m)
  unfolding unless_given
  unless_given-Moves (some given) m h = pure-Moves P tt
  unless_given-Moves none m h = h

  pub ensure_admin_credentials-Moves : Moves R (ensure_admin_credentials W cn ns)
  ensure_admin_credentials-Moves =
      unfold ensure_admin_credentials in
      unless_given-Moves _ _ (if_missing-Moves P _ _ create_admin_credentials-Moves)

  pub ensure_service_secret-Moves :
      (name : String) (values : StringMap) → Moves R (ensure_service_secret W cn ns name values)
  unfolding ensure_service_secret
  ensure_service_secret-Moves name values = if_missing-Moves P _ _ (create_client-Moves _ refl refl)

  pub ensure_root_secrets-Moves : (p q : String) → Moves R (ensure_root_secrets W cn ns p q)
  ensure_root_secrets-Moves p q =
      unfold ensure_root_secrets in
      bind-Moves P _ _ (ensure_service_secret-Moves _ _) (λ _. ensure_service_secret-Moves _ _)

  create_ninegate_secret-Moves : (p q : String) → Moves R (create_ninegate_secret W cn ns p q)
  unfolding create_ninegate_secret
  create_ninegate_secret-Moves p q = bind-Moves P _ _ (admin_password-Moves P ns) (λ a.
      bind-Moves P _ _ (random_or_empty-Moves P 32) (λ b.
        bind-Moves P _ _ (random_or_empty-Moves P 32)
          (λ c. create_app-Moves "ninegate" _ refl refl)))

  pub ensure_ninegate_secret-Moves : (p q : String) → Moves R (ensure_ninegate_secret W cn ns p q)
  ensure_ninegate_secret-Moves p q =
      unfold ensure_ninegate_secret in if_missing-Moves P _ _ (create_ninegate_secret-Moves p q)
