-- ===== src/Progress/Again.antt =====
-- Two calls of `Reconcile` (operator/internal/controller/clientnamespace_controller.go) for one
-- resource, the second after the first has done its work.
use ninekube.Prelude.{◌≡◌, some}
use ninekube.Api.{ClientNamespace, ready}
use ninekube.World.{World}
use ninekube.World.Lawful.{Lawful, name_of}
use ninekube.World.Healthy.{Healthy}
use ninekube.Progress.Fit.{Fit}

-- What is stored of the resource: Ready, neither deleted nor without the finalizer if it was not.
abbrev pub StoredSettled : {W : World} → Lawful W → ClientNamespace → W.State → Type 0
StoredSettled L cn s =
    (new : ClientNamespace) × (L.stored s (name_of cn) ≡ some new)
    × (new.status.phase ≡ ready)
    × (new.deleted ≡ cn.deleted)
    × (new.finalizers ≡ cn.finalizers)
    × (name_of new ≡ name_of cn)
