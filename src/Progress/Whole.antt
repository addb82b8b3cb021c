-- ===== src/Progress/Whole.antt =====
-- A whole call of `Reconcile` (operator/internal/controller/clientnamespace_controller.go) with the
-- services of cmd/main.go, on a good day.
use ninekube.World.{World}
use ninekube.World.Lawful.{Lawful}
use ninekube.World.Healthy.{Healthy}
use ninekube.Progress.Fit.{Fit}
