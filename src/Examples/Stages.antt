-- ===== src/Examples/Stages.antt =====
-- The theorems on the phases at concrete inputs.
use ninekube.Prelude.{◌≡◌, refl, inl}
use ninekube.Exec.{message, plain, ok, err, ◌>>=◌, api, not_found}
use ninekube.World.Memory.{memory, get, get_client_namespace, contains, fresh, find, found}
use ninekube.World.Memory.Laws.{memory-Lawful, memory-stored}
use ninekube.World.Memory.Laws.Healthy.{memory-Healthy}
use ninekube.World.Memory.Laws.Storing.{memory-Storing}
use ninekube.Controller.Status.{or_failed}
use ninekube.Certs.{get_ca}
use ninekube.Controller.Reconcile.{reconcile}
use ninekube.Manager.{services}
use ninekube.Phases.Keeps.{Holds}
use ninekube.Phases.Whole.{reconcile-Reaches}
use ninekube.Phases.Retry.{retried, StoredStuck, retried-never}
use ninekube.World.Lawful.{name_of}
use ninekube.World.Conditions.{is_reason, is_message}
use ninekube.Phases.Failed.{IsRecordable, Recorded, or_failed-Recorded, or_failed-forever}
use ninekube.Controller.Cleanup.{cleanup_client_resources}
use ninekube.Outcomes.Swallowed.{cleanup_client_resources-IsFaultless}
use ninekube.Examples.{dying, with_leftover, holding, going, failed_client, request, order, decimal}

reconcile-Reaches_example :
    Holds memory-Lawful going
      (reconcile memory decimal order (services memory order) request (holding going)).1
unfolding get_client_namespace fresh find contains
reconcile-Reaches_example =
    reconcile-Reaches memory-Lawful memory-Storing going decimal order request (holding going) refl
      refl refl

retried-never_example :
    (¬ ((retried memory decimal order 9 request (holding failed_client)).0 ≡ ok tt))
    × StoredStuck memory-Lawful request
        (retried memory decimal order 9 request (holding failed_client)).1
unfolding contains
retried-never_example =
    retried-never memory-Lawful memory-Storing decimal order request 9 (holding failed_client) (
      failed_client,
      memory-stored (holding failed_client) request,
      refl,
      refl,
      refl,
      (refl, inl refl),
    )

-- There is no Secret `ca` yet.
recordable :
    IsRecordable memory-Lawful going "CertFailed"
      (api not_found "not found")
      (get_ca memory "acme-ns" (holding going)).1
unfolding get_ca get fresh find found ◌>>=◌ is_reason is_message message
recordable = record {
  old = going;
  stored = memory-stored (holding going) (name_of going);
  version = refl;
  conditions = (tt, tt);
  reason_ok = refl;
  message_ok = refl;
}

or_failed-Recorded_example :
    (let run = or_failed memory going "CertFailed" (get_ca memory "acme-ns") (holding going) in
      (run.0 ≡ err (api not_found "not found"))
      × Recorded memory-Lawful going "CertFailed" (api not_found "not found") run.1)
unfolding get_ca get fresh find found ◌>>=◌
or_failed-Recorded_example =
    or_failed-Recorded memory-Healthy going "CertFailed" (api not_found "not found")
      (get_ca memory "acme-ns") (holding going) refl recordable

or_failed-forever_example : ¬ (
    (retried memory decimal order 9 request
      (or_failed memory going "CertFailed" (get_ca memory "acme-ns") (holding going)).1).0
    ≡ ok tt)
unfolding get_ca get fresh find found ◌>>=◌ contains
or_failed-forever_example =
    or_failed-forever memory-Healthy going "CertFailed" (api not_found "not found") memory-Storing
      decimal order (get_ca memory "acme-ns") (holding going) 9 refl recordable refl refl

cleanup_client_resources-IsFaultless_example :
    ¬ ((cleanup_client_resources memory dying "acme-ns" with_leftover).0 ≡ err (plain "timeout"))
cleanup_client_resources-IsFaultless_example =
    cleanup_client_resources-IsFaultless memory dying "acme-ns" with_leftover (plain "timeout")
