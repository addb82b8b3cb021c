-- ===== src/Progress/Manager.antt =====
-- The `Reconcile` methods of the six services of operator/cmd/main.go, on a good day.
use mathlib.Core.Path.{subst}
use ninekube.Prelude.{String, ◌==◌, ◌≡◌, sym, false, List, All}
use ninekube.Exec.Succeeds.{Ends}
use ninekube.Api.{ClientNamespace}
use ninekube.Kube.{secret_kind}
use ninekube.World.{World}
use ninekube.World.Lawful.{Lawful}
use ninekube.World.Healthy.{Healthy}
use ninekube.World.Grows.{Present}
use ninekube.Catalog.{OptionalService}
use ninekube.Controller.Ensure.{key}
use ninekube.Manager.{services}
use ninekube.Services.Postgres
use ninekube.Services.Redis
use ninekube.Services.RustFs
use ninekube.Services.Ninegate
use ninekube.Services.Glauth
use ninekube.Services.Dex
use ninekube.Progress.Room.{IsRoomy}
use ninekube.Progress.Services.{
  when_provisioned-Ends, redis-provision-Ends, rustfs-provision-Ends, ninegate-provision-Ends,
  postgres-provision-Ends,
}
use ninekube.Progress.Identity.{dex-provision-Ends, glauth-provision-Ends}
use ninekube.Progress.Steps.{IsEnding}

module _ {W : World} {L : Lawful W} (H : Healthy L) {I : W.State → Type 0} (cn : ClientNamespace)
    (room : IsRoomy L cn.status.namespace I) (named : (cn.status.namespace == "") ≡ false) where
  redis-reconcile-Ends : Ends I I (Redis.reconcile W cn)
  redis-reconcile-Ends =
      unfold Redis.reconcile in
      when_provisioned-Ends _ cn (Redis.provision W cn) named (λ on. redis-provision-Ends H room cn)

  rustfs-reconcile-Ends : Ends I I (RustFs.reconcile W cn)
  rustfs-reconcile-Ends =
      unfold RustFs.reconcile in
      when_provisioned-Ends _ cn (RustFs.provision W cn) named
        (λ on. rustfs-provision-Ends H room cn on)

  ninegate-reconcile-Ends : Ends I I (Ninegate.reconcile W cn)
  ninegate-reconcile-Ends =
      unfold Ninegate.reconcile in
      when_provisioned-Ends _ cn (Ninegate.provision W cn) named
        (λ on. ninegate-provision-Ends H room cn)

  dex-reconcile-Ends : Ends I I (Dex.reconcile W cn)
  dex-reconcile-Ends =
      unfold Dex.reconcile in
      when_provisioned-Ends _ cn (Dex.provision W cn) named (λ on. dex-provision-Ends H room cn)

  postgres-reconcile-Ends :
      (order : List OptionalService) → Ends I I (Postgres.reconcile W order cn)
  postgres-reconcile-Ends order =
      unfold Postgres.reconcile in
      when_provisioned-Ends _ cn (Postgres.provision W order cn) named
        (λ on. postgres-provision-Ends H room cn order on)

  glauth-reconcile-Ends :
      ((s : W.State) → I s → Present L (key secret_kind cn.status.namespace "postgres-secret") s)
      → Ends I I (Glauth.reconcile W cn)
  glauth-reconcile-Ends held =
      unfold Glauth.reconcile in
      when_provisioned-Ends _ cn (Glauth.provision W cn) named
        (λ on. glauth-provision-Ends H room cn held)

module _ {W : World} {L : Lawful W} (H : Healthy L) (order : List OptionalService) where
  -- The six services, once `postgres-secret` is there.
  pub services-IsEnding :
      {I : W.State → Type 0} {ns : String}
      → (ns == "") ≡ false
      → IsRoomy L ns I
      → ((s : W.State) → I s → Present L (key secret_kind ns "postgres-secret") s)
      → All (IsEnding I ns) (services W order)
  unfolding services
  services-IsEnding {I = I} {ns = ns} named room held =
      let room_at = λ (cn : ClientNamespace) (here : cn.status.namespace ≡ ns).
        subst (λ n. IsRoomy L n I) (sym here) room in
      let named_at = λ (cn : ClientNamespace) (here : cn.status.namespace ≡ ns).
        subst (λ n. (n == "") ≡ false) (sym here) named in
      (
        (λ cn here. postgres-reconcile-Ends H cn (room_at cn here) (named_at cn here) order),
        (
          (λ cn here. redis-reconcile-Ends H cn (room_at cn here) (named_at cn here)),
          (
            (λ cn here. rustfs-reconcile-Ends H cn (room_at cn here) (named_at cn here)),
            (
              (λ cn here. ninegate-reconcile-Ends H cn (room_at cn here) (named_at cn here)),
              (
                (λ cn here.
                    glauth-reconcile-Ends H cn (room_at cn here) (named_at cn here)
                      (λ s i. rw here (held s i))),
                ((λ cn here. dex-reconcile-Ends H cn (room_at cn here) (named_at cn here)), tt),
              ),
            ),
          ),
        ),
      )
