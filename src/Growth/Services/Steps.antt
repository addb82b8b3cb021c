-- ===== src/Growth/Services/Steps.antt =====
-- The steps of the six service controllers, for any relation that provisioning may move along.
use ninekube.Prelude.{String, ◌≡◌, refl, ◌==◌, Bool, true, false, Option, none, some, List}
use ninekube.Exec.{Exec, plain, raise}
use ninekube.Exec.Moves.{Moves, Moves-attempt, Moves-if}
use ninekube.Api.{ClientNamespace, ServicesSpec, StatefulServiceSpec}
use ninekube.Catalog.{OptionalService}
use ninekube.World.{World}
use ninekube.World.Permits.{Permits, IsClients}
use ninekube.World.Permits.Rules.{
  pure-Moves, raise-Moves, crash-Moves, bind-Moves, for_each-Moves, get-Moves,
}
use ninekube.Controller.Labels.{client_labels, app_labels}
use ninekube.Controller.Password.Moving.{random_or_empty-Moves}
use ninekube.Growth.Secrets.{
  if_missing-Moves, create_app-Moves, admin_password-Moves, secret_value-Moves,
}
use ninekube.Kube.{Key, Object}
use ninekube.Controller.Ensure.{if_missing}
use ninekube.Growth.Crypto.{wrapping-Moves, generate_rsa_self_signed_cert-Moves}
use ninekube.Services.Common.{when_provisioned}
use ninekube.Services.Postgres
use ninekube.Services.Redis
use ninekube.Services.RustFs
use ninekube.Services.Ninegate
use ninekube.Services.Glauth
use ninekube.Services.Dex

module _ {W : World} {R : W.State → W.State → Type 0} (cn : ClientNamespace)
    (P : Permits W R (IsClients cn.status.namespace (client_labels cn))) where
  pub when_provisioned-Moves :
      (enabled : Bool) (provision : String → Exec W.State (Unit {0}))
      → Moves R (provision cn.status.namespace)
      → Moves R (when_provisioned enabled cn provision)
  unfolding when_provisioned
  when_provisioned-Moves false provision h = pure-Moves P tt
  when_provisioned-Moves true provision h =
      Moves-if (cn.status.namespace == "") (raise (plain "namespace not yet provisioned"))
        (provision cn.status.namespace) (λ _. raise-Moves P _) (λ _. h)

module _ {W : World} {R : W.State → W.State → Type 0} (cn : ClientNamespace) (ns : String)
    (P : Permits W R (IsClients ns (client_labels cn))) where
  -- Such a method creates one object of its application.
  create_if_missing-Moves :
      (app : String) (k : Key) (o : Object)
      → o.meta.namespace ≡ ns
      → o.meta.labels ≡ app_labels app cn
      → Moves R (if_missing W k (W.create o))
  create_if_missing-Moves app k o own lab =
      if_missing-Moves P k _ (create_app-Moves cn ns P app o own lab)

  redis-ensure_deployment-Moves : Moves R (Redis.ensure_deployment W cn ns)
  unfolding Redis.ensure_deployment Redis.deployment_object
  redis-ensure_deployment-Moves = create_if_missing-Moves "redis" _ _ refl refl

  redis-ensure_service-Moves : Moves R (Redis.ensure_service W cn ns)
  unfolding Redis.ensure_service Redis.service_object
  redis-ensure_service-Moves = create_if_missing-Moves "redis" _ _ refl refl

  pub redis-provision-Moves : Moves R (Redis.provision W cn ns)
  redis-provision-Moves =
      unfold Redis.provision in
      bind-Moves P _ _ redis-ensure_deployment-Moves (λ _. redis-ensure_service-Moves)

  rustfs-size_of-Moves : (o : Option StatefulServiceSpec) → Moves R (RustFs.size_of o)
  unfolding RustFs.size_of
  rustfs-size_of-Moves none = crash-Moves P
  rustfs-size_of-Moves (some spec) = pure-Moves P _

  rustfs-own_size-Moves : (o : Option ServicesSpec) → Moves R (RustFs.own_size o)
  unfolding RustFs.own_size
  rustfs-own_size-Moves none = crash-Moves P
  rustfs-own_size-Moves (some services) = rustfs-size_of-Moves _

  rustfs-create_pvc-Moves : Moves R (RustFs.create_pvc W cn ns)
  unfolding RustFs.create_pvc RustFs.pvc_object
  rustfs-create_pvc-Moves =
      bind-Moves P _ _ (rustfs-own_size-Moves _)
        (λ size. create_app-Moves cn ns P "rustfs" _ refl refl)

  rustfs-ensure_pvc-Moves : Moves R (RustFs.ensure_pvc W cn ns)
  rustfs-ensure_pvc-Moves =
      unfold RustFs.ensure_pvc in if_missing-Moves P _ _ rustfs-create_pvc-Moves

  rustfs-ensure_deployment-Moves : Moves R (RustFs.ensure_deployment W cn ns)
  unfolding RustFs.ensure_deployment RustFs.deployment_object
  rustfs-ensure_deployment-Moves = create_if_missing-Moves "rustfs" _ _ refl refl

  rustfs-ensure_service-Moves : Moves R (RustFs.ensure_service W cn ns)
  unfolding RustFs.ensure_service RustFs.service_object
  rustfs-ensure_service-Moves = create_if_missing-Moves "rustfs" _ _ refl refl

  pub rustfs-provision-Moves : Moves R (RustFs.provision W cn ns)
  rustfs-provision-Moves =
      unfold RustFs.provision in
      bind-Moves P _ _ rustfs-ensure_pvc-Moves
        (λ _. bind-Moves P _ _ rustfs-ensure_deployment-Moves (λ _. rustfs-ensure_service-Moves))

  ninegate-ensure_pvcs-Moves : Moves R (Ninegate.ensure_pvcs W cn ns)
  unfolding Ninegate.ensure_pvcs Ninegate.pvc_object
  ninegate-ensure_pvcs-Moves =
      for_each-Moves P _ _ (λ name. create_if_missing-Moves "ninegate" _ _ refl refl)

  ninegate-ensure_deployment-Moves : Moves R (Ninegate.ensure_deployment W cn ns)
  unfolding Ninegate.ensure_deployment Ninegate.deployment_object
  ninegate-ensure_deployment-Moves = create_if_missing-Moves "ninegate" _ _ refl refl

  ninegate-ensure_service-Moves : Moves R (Ninegate.ensure_service W cn ns)
  unfolding Ninegate.ensure_service Ninegate.service_object
  ninegate-ensure_service-Moves = create_if_missing-Moves "ninegate" _ _ refl refl

  pub ninegate-provision-Moves : Moves R (Ninegate.provision W cn ns)
  ninegate-provision-Moves =
      unfold Ninegate.provision in
      bind-Moves P _ _ ninegate-ensure_pvcs-Moves (λ _.
        bind-Moves P _ _ ninegate-ensure_deployment-Moves (λ _. ninegate-ensure_service-Moves))

  glauth-create_config_map-Moves : Moves R (Glauth.create_config_map W cn ns)
  glauth-create_config_map-Moves =
      unfold Glauth.create_config_map Glauth.config_map_object in
      bind-Moves P _ _ (wrapping-Moves P _ _ (get-Moves P _))
        (λ found. create_app-Moves cn ns P "glauth" _ refl refl)

  glauth-ensure_config_map-Moves : Moves R (Glauth.ensure_config_map W cn ns)
  glauth-ensure_config_map-Moves =
      unfold Glauth.ensure_config_map in if_missing-Moves P _ _ glauth-create_config_map-Moves

  glauth-create_tls_secret-Moves : Moves R (Glauth.create_tls_secret W cn ns)
  unfolding Glauth.create_tls_secret
  glauth-create_tls_secret-Moves =
      bind-Moves P _ _ (wrapping-Moves P _ _ (generate_rsa_self_signed_cert-Moves P _))
        (λ pems. create_app-Moves cn ns P "glauth" _ refl refl)

  glauth-ensure_tls_secret-Moves : Moves R (Glauth.ensure_tls_secret W cn ns)
  glauth-ensure_tls_secret-Moves =
      unfold Glauth.ensure_tls_secret in if_missing-Moves P _ _ glauth-create_tls_secret-Moves

  glauth-ensure_deployment-Moves : Moves R (Glauth.ensure_deployment W cn ns)
  unfolding Glauth.ensure_deployment Glauth.deployment_object
  glauth-ensure_deployment-Moves = create_if_missing-Moves "glauth" _ _ refl refl

  glauth-ensure_service-Moves : Moves R (Glauth.ensure_service W cn ns)
  unfolding Glauth.ensure_service Glauth.service_object
  glauth-ensure_service-Moves = create_if_missing-Moves "glauth" _ _ refl refl

  pub glauth-provision-Moves : Moves R (Glauth.provision W cn ns)
  glauth-provision-Moves =
      unfold Glauth.provision in
      bind-Moves P _ _ glauth-ensure_config_map-Moves (λ _.
        bind-Moves P _ _ glauth-ensure_tls_secret-Moves
          (λ _. bind-Moves P _ _ glauth-ensure_deployment-Moves (λ _. glauth-ensure_service-Moves)))

  dex-ninegate_client_secret-Moves : Moves R (Dex.ninegate_client_secret W ns)
  dex-ninegate_client_secret-Moves =
      unfold Dex.ninegate_client_secret in
      bind-Moves P _ _ (Moves-attempt _ (get-Moves P _)) (λ r. secret_value-Moves P _ _ r)

  dex-create_config_secret-Moves : Moves R (Dex.create_config_secret W cn ns)
  dex-create_config_secret-Moves =
      unfold Dex.create_config_secret in
      bind-Moves P _ _ (admin_password-Moves P ns) (λ a.
        bind-Moves P _ _ dex-ninegate_client_secret-Moves (λ b.
          bind-Moves P _ _ (random_or_empty-Moves P 32) (λ c.
            bind-Moves P _ _ (random_or_empty-Moves P 32)
              (λ d. create_app-Moves cn ns P "dex" _ refl refl))))

  dex-ensure_config_secret-Moves : Moves R (Dex.ensure_config_secret W cn ns)
  dex-ensure_config_secret-Moves =
      unfold Dex.ensure_config_secret in if_missing-Moves P _ _ dex-create_config_secret-Moves

  dex-create_tls_secret-Moves : Moves R (Dex.create_tls_secret W cn ns)
  unfolding Dex.create_tls_secret
  dex-create_tls_secret-Moves =
      bind-Moves P _ _ (wrapping-Moves P _ _ (generate_rsa_self_signed_cert-Moves P _))
        (λ pems. create_app-Moves cn ns P "dex" _ refl refl)

  dex-ensure_tls_secret-Moves : Moves R (Dex.ensure_tls_secret W cn ns)
  dex-ensure_tls_secret-Moves =
      unfold Dex.ensure_tls_secret in if_missing-Moves P _ _ dex-create_tls_secret-Moves

  dex-ensure_deployment-Moves : Moves R (Dex.ensure_deployment W cn ns)
  unfolding Dex.ensure_deployment Dex.deployment_object
  dex-ensure_deployment-Moves = create_if_missing-Moves "dex" _ _ refl refl

  dex-ensure_service-Moves : Moves R (Dex.ensure_service W cn ns)
  unfolding Dex.ensure_service Dex.service_object
  dex-ensure_service-Moves = create_if_missing-Moves "dex" _ _ refl refl

  pub dex-provision-Moves : Moves R (Dex.provision W cn ns)
  dex-provision-Moves =
      unfold Dex.provision in
      bind-Moves P _ _ dex-ensure_config_secret-Moves (λ _.
        bind-Moves P _ _ dex-ensure_tls_secret-Moves
          (λ _. bind-Moves P _ _ dex-ensure_deployment-Moves (λ _. dex-ensure_service-Moves)))

module _ {W : World} {R : W.State → W.State → Type 0} (order : List OptionalService)
    (cn : ClientNamespace) (ns : String) (P : Permits W R (IsClients ns (client_labels cn))) where
  postgres-ensure_config_map-Moves : Moves R (Postgres.ensure_config_map W order cn ns)
  unfolding Postgres.ensure_config_map Postgres.config_map_object
  postgres-ensure_config_map-Moves = create_if_missing-Moves cn ns P "postgresql" _ _ refl refl

  postgres-size_of-Moves : (o : Option StatefulServiceSpec) → Moves R (Postgres.size_of o)
  unfolding Postgres.size_of
  postgres-size_of-Moves none = crash-Moves P
  postgres-size_of-Moves (some spec) = pure-Moves P _

  postgres-own_size-Moves : (o : Option ServicesSpec) → Moves R (Postgres.own_size o)
  unfolding Postgres.own_size
  postgres-own_size-Moves none = crash-Moves P
  postgres-own_size-Moves (some services) = postgres-size_of-Moves _

  postgres-create_stateful_set-Moves : Moves R (Postgres.create_stateful_set W order cn ns)
  unfolding Postgres.create_stateful_set Postgres.stateful_set_object
  postgres-create_stateful_set-Moves =
      bind-Moves P _ _ (postgres-own_size-Moves _)
        (λ size. create_app-Moves cn ns P "postgresql" _ refl refl)

  postgres-ensure_stateful_set-Moves : Moves R (Postgres.ensure_stateful_set W order cn ns)
  postgres-ensure_stateful_set-Moves =
      unfold Postgres.ensure_stateful_set in
      if_missing-Moves P _ _ postgres-create_stateful_set-Moves

  postgres-ensure_service-Moves : Moves R (Postgres.ensure_service W order cn ns)
  unfolding Postgres.ensure_service Postgres.service_object
  postgres-ensure_service-Moves = create_if_missing-Moves cn ns P "postgresql" _ _ refl refl

  pub postgres-provision-Moves : Moves R (Postgres.provision W order cn ns)
  postgres-provision-Moves =
      unfold Postgres.provision in
      bind-Moves P _ _ postgres-ensure_config_map-Moves (λ _.
        bind-Moves P _ _ postgres-ensure_stateful_set-Moves (λ _. postgres-ensure_service-Moves))
