-- ===== src/Manager.antt =====
-- operator/cmd/main.go: the services that the manager is started with.
pub mod Options
pub mod Start
use ninekube.Prelude.{List, [], ◌∷◌}
use ninekube.World.{World}
use ninekube.Catalog.{OptionalService}
use ninekube.Controller.Cleanup.{ServiceReconciler}
use ninekube.Services.Postgres
use ninekube.Services.Redis
use ninekube.Services.RustFs
use ninekube.Services.Ninegate
use ninekube.Services.Glauth
use ninekube.Services.Dex

unfoldable pub services : (W : World) → List OptionalService → List (ServiceReconciler W)
services W order =
    record { reconcile = Postgres.reconcile W order; cleanup = Postgres.cleanup W order }
    ∷ record { reconcile = Redis.reconcile W; cleanup = Redis.cleanup W }
    ∷ record { reconcile = RustFs.reconcile W; cleanup = RustFs.cleanup W }
    ∷ record { reconcile = Ninegate.reconcile W; cleanup = Ninegate.cleanup W }
    ∷ record { reconcile = Glauth.reconcile W; cleanup = Glauth.cleanup W }
    ∷ record { reconcile = Dex.reconcile W; cleanup = Dex.cleanup W }
    ∷ []
