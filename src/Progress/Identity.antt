-- ===== src/Progress/Identity.antt =====
-- Glauth and Dex on a good day.
use ninekube.Prelude.{String, refl}
use ninekube.Exec.Succeeds.{Ends, Succeeds-bind}
use ninekube.Api.{ClientNamespace}
use ninekube.Kube.{secret_kind, config_map_kind}
use ninekube.World.{World}
use ninekube.World.Lawful.{Lawful}
use ninekube.World.Healthy.{Healthy}
use ninekube.World.Grows.{Present}
use ninekube.Controller.Ensure.{key}
use ninekube.Services.Glauth
use ninekube.Services.Dex
use ninekube.Progress.Room.{
  IsRoomy, Missing, Missing-objectwise, get-Ends, get_held-Ends, create-Ends, if_missing-Ends,
}
use ninekube.Progress.Crypto.{
  random_or_empty-Ends, wrapping-Succeeds, generate_rsa_self_signed_cert-Ends,
}
use ninekube.Progress.Secrets.{secret_value-Ends, admin_password-Ends}
use ninekube.Progress.Fit.{HasKeysOf-pems, IsHarmless-of_kind, IsHarmless-of_name}
use ninekube.Progress.Services.{ensure_plain-Ends}

module _ {W : World} {L : Lawful W} (H : Healthy L) {I : W.State → Type 0} {ns : String}
    (room : IsRoomy L ns I) (cn : ClientNamespace) where
  dex-create_config_secret-Ends :
      Ends (Missing L I (key secret_kind ns "dex-config")) I (Dex.create_config_secret W cn ns)
  dex-create_config_secret-Ends =
      let mid = Missing-objectwise L I (key secret_kind ns "dex-config") room.objectwise in
      unfold Dex.create_config_secret Dex.ninegate_client_secret in
      Succeeds-bind _ _ (admin_password-Ends H mid ns) (λ a _.
        Succeeds-bind _ _
          (Succeeds-bind _ _ (get-Ends H mid _) (λ r _. secret_value-Ends H mid _ _ r))
          (λ b _. Succeeds-bind _ _ (random_or_empty-Ends H mid 32) (λ c _.
            Succeeds-bind _ _ (random_or_empty-Ends H mid 32)
              (λ d _. create-Ends H room _ (IsHarmless-of_name ns "dex-config" refl) tt))))

  dex-create_tls_secret-Ends :
      Ends (Missing L I (key secret_kind ns "dex-tls")) I (Dex.create_tls_secret W cn ns)
  dex-create_tls_secret-Ends =
      let mid = Missing-objectwise L I (key secret_kind ns "dex-tls") room.objectwise in
      unfold Dex.create_tls_secret in
      Succeeds-bind _ _ (wrapping-Succeeds H mid _ _ (generate_rsa_self_signed_cert-Ends H mid _))
        (λ pems _. create-Ends H room _ (IsHarmless-of_name ns "dex-tls" refl) (HasKeysOf-pems _ _))

  pub dex-provision-Ends : Ends I I (Dex.provision W cn ns)
  unfolding Dex.ensure_config_secret Dex.ensure_tls_secret Dex.ensure_deployment Dex.ensure_service
      Dex.deployment_object Dex.service_object
  dex-provision-Ends =
      unfold Dex.provision in
      Succeeds-bind _ _ (if_missing-Ends H room _ _ dex-create_config_secret-Ends) (λ _ _.
        Succeeds-bind _ _ (if_missing-Ends H room _ _ dex-create_tls_secret-Ends) (λ _ _.
          Succeeds-bind _ _ (ensure_plain-Ends H room cn _ (λ e. cc) (λ e. cc))
            (λ _ _. ensure_plain-Ends H room cn _ (λ e. cc) (λ e. cc))))

  glauth-create_tls_secret-Ends :
      Ends (Missing L I (key secret_kind ns "glauth-tls")) I (Glauth.create_tls_secret W cn ns)
  glauth-create_tls_secret-Ends =
      let mid = Missing-objectwise L I (key secret_kind ns "glauth-tls") room.objectwise in
      unfold Glauth.create_tls_secret in
      Succeeds-bind _ _ (wrapping-Succeeds H mid _ _ (generate_rsa_self_signed_cert-Ends H mid _))
        (λ pems _.
          create-Ends H room _ (IsHarmless-of_name ns "glauth-tls" refl) (HasKeysOf-pems _ _))

  -- Glauth's configuration holds the password of `postgres-secret`, which has to be there.
  module _ (held : (s : W.State) → I s → Present L (key secret_kind ns "postgres-secret") s) where
    glauth-create_config_map-Ends :
        Ends
          (Missing L I (key config_map_kind ns "ninegate-glauth-config"))
          I
          (Glauth.create_config_map W cn ns)
    unfolding Glauth.config_map_object
    glauth-create_config_map-Ends =
        let k = key config_map_kind ns "ninegate-glauth-config" in
        let mid = Missing-objectwise L I k room.objectwise in
        unfold Glauth.create_config_map in
        Succeeds-bind _ _ (wrapping-Succeeds H mid _ _ (get_held-Ends H mid _ (λ s i. held s i.0)))
          (λ found _. create-Ends H room _ (IsHarmless-of_kind ns _ (λ e. cc) (λ e. cc)) tt)

    pub glauth-provision-Ends : Ends I I (Glauth.provision W cn ns)
    unfolding Glauth.ensure_config_map Glauth.ensure_tls_secret Glauth.ensure_deployment
        Glauth.ensure_service Glauth.deployment_object Glauth.service_object
    glauth-provision-Ends =
        unfold Glauth.provision in
        Succeeds-bind _ _ (if_missing-Ends H room _ _ glauth-create_config_map-Ends) (λ _ _.
          Succeeds-bind _ _ (if_missing-Ends H room _ _ glauth-create_tls_secret-Ends) (λ _ _.
            Succeeds-bind _ _ (ensure_plain-Ends H room cn _ (λ e. cc) (λ e. cc))
              (λ _ _. ensure_plain-Ends H room cn _ (λ e. cc) (λ e. cc))))
