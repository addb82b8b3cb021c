-- ===== src/Outcomes/Swallowed.antt =====
-- `cleanupClientResources` of operator/internal/controller/clientnamespace_controller.go, which drops
-- the errors of its calls.
use ninekube.Prelude.{String, ◌≡◌, List}
use ninekube.Exec.{Attempt, got, failed, Error, err}
use ninekube.Exec.Faultless.{
  IsFaultless, pure-IsFaultless, attempt-IsFaultless, bind-IsFaultless, for_each-IsFaultless,
}
use ninekube.Api.{ClientNamespace}
use ninekube.Kube.{Object, Kind}
use ninekube.World.{World}
use ninekube.Controller.Cleanup.{
  delete_ignoring, delete_listed, cleanup_kind, cleanup_client_resources,
}

module _ (W : World) where
  delete_listed-IsFaultless : (r : Attempt (List Object)) → IsFaultless (delete_listed W r)
  unfolding delete_listed delete_ignoring
  delete_listed-IsFaultless (got items) =
      for_each-IsFaultless items (delete_ignoring W)
        (λ o. bind-IsFaultless _ _ (attempt-IsFaultless _) (λ _. pure-IsFaultless tt))
  delete_listed-IsFaultless (failed e) = pure-IsFaultless tt

  cleanup_kind-IsFaultless :
      (cn : ClientNamespace) (ns : String) (kind : Kind) → IsFaultless (cleanup_kind W cn ns kind)
  unfolding cleanup_kind
  cleanup_kind-IsFaultless cn ns kind =
      bind-IsFaultless _ _ (attempt-IsFaultless _) delete_listed-IsFaultless

  -- Whatever the listings and the deletions return, cleanupClientResources returns no error: the test
  -- of its error that stands before the removal of the finalizer never stops a deletion.
  pub cleanup_client_resources-IsFaultless :
      (cn : ClientNamespace) (ns : String) (s : W.State) (e : Error)
      → ¬ ((cleanup_client_resources W cn ns s).0 ≡ err e)
  unfolding cleanup_client_resources
  cleanup_client_resources-IsFaultless cn ns s e h =
      let all : IsFaultless (cleanup_client_resources W cn ns) =
        bind-IsFaultless _ _ (cleanup_kind-IsFaultless cn ns _) (λ _.
          bind-IsFaultless _ _ (cleanup_kind-IsFaultless cn ns _) (λ _.
            bind-IsFaultless _ _ (cleanup_kind-IsFaultless cn ns _) (λ _.
              bind-IsFaultless _ _ (cleanup_kind-IsFaultless cn ns _) (λ _.
                bind-IsFaultless _ _ (cleanup_kind-IsFaultless cn ns _)
                  (λ _. cleanup_kind-IsFaultless cn ns _))))) in
      all.at s e h
