-- ===== src/Growth/Every.antt =====
-- The operator's six services of operator/cmd/main.go, for relations that provisioning may move
-- along: one for each resource, in the namespace that its status names and with its labels.
use ninekube.Prelude.{All, List}
use ninekube.Exec.Moves.{Moves}
use ninekube.Api.{ClientNamespace}
use ninekube.World.{World}
use ninekube.World.Permits.{Permits, IsClients}
use ninekube.Catalog.{OptionalService}
use ninekube.Controller.Labels.{client_labels}
use ninekube.Growth.Services.{
  postgres-reconcile-Moves, redis-reconcile-Moves, rustfs-reconcile-Moves, ninegate-reconcile-Moves,
  glauth-reconcile-Moves, dex-reconcile-Moves,
}
use ninekube.Manager.{services}

module _ {W : World} (R : ClientNamespace → W.State → W.State → Type 0)
    (P : (cn : ClientNamespace)
      → Permits W (R cn) (IsClients cn.status.namespace (client_labels cn)))
    (order : List OptionalService) where
  pub services-Moves :
      All (λ svc. (cn : ClientNamespace) → Moves (R cn) (svc.reconcile cn)) (services W order)
  unfolding services
  services-Moves = (
    (λ cn. postgres-reconcile-Moves cn (P cn) order),
    (
      (λ cn. redis-reconcile-Moves cn (P cn)),
      (
        (λ cn. rustfs-reconcile-Moves cn (P cn)),
        (
          (λ cn. ninegate-reconcile-Moves cn (P cn)),
          ((λ cn. glauth-reconcile-Moves cn (P cn)), ((λ cn. dex-reconcile-Moves cn (P cn)), tt)),
        ),
      ),
    ),
  )
