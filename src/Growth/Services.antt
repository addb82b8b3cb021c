-- ===== src/Growth/Services.antt =====
-- How the six service controllers move the cluster, each in the namespace that the status names, for
-- any relation that provisioning may move along.
pub mod Steps
use ninekube.Prelude.{String, ◌≡◌, refl, ◌==◌, Bool, true, false, Option, none, some, List}
use ninekube.Exec.{Exec, plain, raise}
use ninekube.Exec.Moves.{Moves, Moves-attempt, Moves-if}
use ninekube.Api.{ClientNamespace, ServicesSpec, StatefulServiceSpec}
use ninekube.Catalog.{OptionalService}
use ninekube.World.{World}
use ninekube.World.Permits.{Permits, IsClients}
use ninekube.World.Permits.Rules.{
  pure-Moves, raise-Moves, crash-Moves, bind-Moves, for_each-Moves, get-Moves,
}
use ninekube.Controller.Labels.{client_labels, app_labels}
use ninekube.Controller.Password.Moving.{random_or_empty-Moves}
use ninekube.Growth.Secrets.{
  if_missing-Moves, create_app-Moves, admin_password-Moves, secret_value-Moves,
}
use ninekube.Kube.{Key, Object}
use ninekube.Controller.Ensure.{if_missing}
use ninekube.Growth.Crypto.{wrapping-Moves, generate_rsa_self_signed_cert-Moves}
use ninekube.Services.Common.{when_provisioned}
use ninekube.Services.Postgres
use ninekube.Services.Redis
use ninekube.Services.RustFs
use ninekube.Services.Ninegate
use ninekube.Services.Glauth
use ninekube.Services.Dex
use ninekube.Growth.Services.Steps.{
  when_provisioned-Moves, redis-provision-Moves, rustfs-provision-Moves, ninegate-provision-Moves,
  glauth-provision-Moves, dex-provision-Moves, postgres-provision-Moves,
}

module _ {W : World} {R : W.State → W.State → Type 0} (cn : ClientNamespace)
    (P : Permits W R (IsClients cn.status.namespace (client_labels cn))) where
  pub redis-reconcile-Moves : Moves R (Redis.reconcile W cn)
  redis-reconcile-Moves =
      unfold Redis.reconcile in
      when_provisioned-Moves cn P _ (Redis.provision W cn) (redis-provision-Moves cn _ P)

  pub rustfs-reconcile-Moves : Moves R (RustFs.reconcile W cn)
  rustfs-reconcile-Moves =
      unfold RustFs.reconcile in
      when_provisioned-Moves cn P _ (RustFs.provision W cn) (rustfs-provision-Moves cn _ P)

  pub ninegate-reconcile-Moves : Moves R (Ninegate.reconcile W cn)
  ninegate-reconcile-Moves =
      unfold Ninegate.reconcile in
      when_provisioned-Moves cn P _ (Ninegate.provision W cn) (ninegate-provision-Moves cn _ P)

  pub glauth-reconcile-Moves : Moves R (Glauth.reconcile W cn)
  glauth-reconcile-Moves =
      unfold Glauth.reconcile in
      when_provisioned-Moves cn P _ (Glauth.provision W cn) (glauth-provision-Moves cn _ P)

  pub dex-reconcile-Moves : Moves R (Dex.reconcile W cn)
  dex-reconcile-Moves =
      unfold Dex.reconcile in
      when_provisioned-Moves cn P _ (Dex.provision W cn) (dex-provision-Moves cn _ P)

  pub postgres-reconcile-Moves :
      (order : List OptionalService) → Moves R (Postgres.reconcile W order cn)
  postgres-reconcile-Moves order =
      unfold Postgres.reconcile in
      when_provisioned-Moves cn P _ (Postgres.provision W order cn)
        (postgres-provision-Moves order cn _ P)
