-- ===== src/Controller/Cleanup.antt =====
-- The deletion of a client: `reconcileDelete` and `cleanupClientResources` of
-- operator/internal/controller/clientnamespace_controller.go.
use mathlib.Core.List.{reverse}
use ninekube.Prelude.{String, ◌==◌, List, index, if◌then◌else◌}
use ninekube.Exec.{
  Exec, Attempt, got, failed, is_not_found, pure, raise, attempt, ◌>>=◌, ◌>>◌, for_each,
}
use ninekube.Api.{ClientNamespace}
use ninekube.Kube.{
  Kind, secret_kind, config_map_kind, deployment_kind, stateful_set_kind, service_kind, pvc_kind,
  Object, key_of,
}
use ninekube.World.{World}
use ninekube.World.Grows.{namespace_key}
use ninekube.Controller.Labels.{client_labels, ns_name}

abbrev pub finalizer_name : String
finalizer_name = "provisioning.ninekube.io/finalizer"

-- The interface ServiceReconciler. The methods of the operator's services read the resource that
-- they are given and do not write to it.
pub record ServiceReconciler (W : World) : Type 0 where
  pub reconcile : ClientNamespace → Exec W.State (Unit {0})
  pub cleanup : ClientNamespace → Exec W.State (Unit {0})

module _ (W : World) where
  -- r.Delete(ctx, &item), whose error is dropped
  unfoldable pub delete_ignoring : Object → Exec W.State (Unit {0})
  delete_ignoring o = do dropped ← attempt (W.delete (key_of o)); pure tt

  unfoldable pub delete_listed : Attempt (List Object) → Exec W.State (Unit {0})
  unfolding delete_ignoring
  delete_listed (got items) = for_each items delete_ignoring
  delete_listed (failed e) = pure tt

  unfoldable pub cleanup_kind : ClientNamespace → String → Kind → Exec W.State (Unit {0})
  unfolding delete_listed
  cleanup_kind cn ns kind = do
    items ← attempt (W.list kind ns (client_labels cn))
    delete_listed items

  unfoldable pub cleanup_client_resources : ClientNamespace → String → Exec W.State (Unit {0})
  unfolding cleanup_kind
  cleanup_client_resources cn ns = do
    cleanup_kind cn ns secret_kind
    cleanup_kind cn ns config_map_kind
    cleanup_kind cn ns deployment_kind
    cleanup_kind cn ns stateful_set_kind
    cleanup_kind cn ns service_kind
    cleanup_kind cn ns pvc_kind

  -- if err := r.Delete(...); err != nil && !errors.IsNotFound(err) { return err }
  unfoldable pub unless_gone : Attempt (Unit {0}) → Exec W.State (Unit {0})
  unless_gone (got u) = pure tt
  unless_gone (failed e) = if is_not_found e then pure tt else raise e

  unfoldable pub delete_if_owned :
      ClientNamespace → String → Attempt Object → Exec W.State (Unit {0})
  unfolding unless_gone
  delete_if_owned cn ns (failed e) = pure tt
  delete_if_owned cn ns (got o) =
      if index "ninekube.io/client" o.meta.labels == cn.name
      then (do deleted ← attempt (W.delete (namespace_key ns)); unless_gone deleted)
      else pure tt

  unfoldable pub delete_namespace : ClientNamespace → String → Exec W.State (Unit {0})
  unfolding delete_if_owned
  delete_namespace cn ns = do
    found ← attempt (W.get (namespace_key ns))
    delete_if_owned cn ns found

  unfoldable pub remove_finalizer : ClientNamespace → Exec W.State (Unit {0})
  remove_finalizer cn = do updated ← W.update (W.remove_finalizer cn finalizer_name); pure tt

  unfoldable pub reconcile_delete :
      List (ServiceReconciler W) → ClientNamespace → Exec W.State (Unit {0})
  unfolding cleanup_client_resources delete_namespace remove_finalizer
  reconcile_delete services cn = do
    for_each (reverse services) (λ svc. svc.cleanup cn)
    cleanup_client_resources cn (ns_name cn)
    delete_namespace cn (ns_name cn)
    remove_finalizer cn
