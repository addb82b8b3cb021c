-- ===== src/Controller/Reconcile.antt =====
-- `Reconcile` and `ensureNamespace` of
-- operator/internal/controller/clientnamespace_controller.go.
use ninekube.Prelude.{ℕ, suc, String, ◌<>◌, Bool, true, false, List, [], ◌∷◌, if◌then◌else◌}
use ninekube.Exec.{
  Exec, Error, Attempt, got, failed, message, is_not_found, pure, raise, attempt, ◌>>=◌, ◌>>◌,
}
use ninekube.Api.{
  ClientNamespace, ClientNamespacePhase, unset, pending, provisioning, ready, NamespacedName,
  plan_text,
}
use ninekube.Kube.{Object, namespace}
use ninekube.World.{World}
use ninekube.World.Grows.{namespace_key}
use ninekube.Catalog.{OptionalService, reconcile_optional_services}
use ninekube.Certs.{ensure_ca, ensure_service_certs}
use ninekube.Ingress.{ensure_ingresses, ensure_network_policies}
use ninekube.Controller.Labels.{client_labels, ns_name}
use ninekube.Controller.Ensure.{if_missing}
use ninekube.Controller.Password.{get_or_create_password}
use ninekube.Controller.Secrets.{
  ensure_admin_credentials, ensure_root_secrets, ensure_ninegate_secret,
}
use ninekube.Controller.Status.{
  service_name, update_service_status, refreshed, set_failed, or_failed, mark_ready,
}
use ninekube.Controller.Cleanup.{finalizer_name, ServiceReconciler, reconcile_delete}

unfoldable pub namespace_object : ClientNamespace → String → Object
unfolding plan_text
namespace_object cn ns = record {
  meta = record {
    name = ns;
    namespace = "";
    labels = client_labels cn;
    annotations =
        ("ninekube.io/domain", cn.spec.domain)
        ∷ ("ninekube.io/plan", plan_text cn.spec.plan)
        ∷ ("ninekube.io/admin", cn.spec.admin.email)
        ∷ [];
  };
  body = namespace;
}

abbrev pub is_ready : ClientNamespacePhase → Bool
is_ready ready = true
is_ready _ = false

abbrev pub is_new : ClientNamespacePhase → Bool
is_new unset = true
is_new pending = true
is_new _ = false

abbrev pub with_phase : ClientNamespace → ClientNamespacePhase → ClientNamespace
with_phase cn phase = record cn { status = record (cn.status) { phase = phase } }

abbrev pub with_namespace : ClientNamespace → String → ClientNamespace
with_namespace cn ns = record cn { status = record (cn.status) { namespace = ns } }

abbrev pub with_admin_secret : ClientNamespace → String → ClientNamespace
with_admin_secret cn name = record cn { status = record (cn.status) { admin_secret_name = name } }

module _ (W : World) where
  unfoldable pub ensure_namespace : ClientNamespace → String → Exec W.State (Unit {0})
  unfolding namespace_object
  ensure_namespace cn ns = if_missing W (namespace_key ns) (W.create (namespace_object cn ns))

  -- Add the finalizer if it is not there. `Update` fills in the resource that it was given.
  unfoldable pub ensure_finalizer : ClientNamespace → Exec W.State ClientNamespace
  ensure_finalizer cn =
      if W.contains_finalizer cn finalizer_name
      then pure cn
      else W.update (W.add_finalizer cn finalizer_name)

  unfoldable pub start_provisioning : ClientNamespace → Exec W.State ClientNamespace
  start_provisioning cn =
      if is_new cn.status.phase then W.update_status (with_phase cn provisioning) else pure cn

-- `decimal` is `fmt`'s `%d`, and `order` the order of a run through a map of optional services.
module _ (W : World) (decimal : ℕ → String) (order : List OptionalService) where
  unfoldable pub service_failed : {A : Type 0} → ClientNamespace → String → Error → Exec W.State A
  service_failed cn name e = do
    let marked = update_service_status cn name false (message e)
    updated ← attempt (W.update_status marked)
    set_failed W (refreshed marked updated) (name <> "Failed") e

  -- What follows the call of one service's `Reconcile`: the resource with its entry, or the error.
  unfoldable pub service_outcome :
      ClientNamespace → String → Attempt (Unit {0}) → Exec W.State ClientNamespace
  unfolding service_failed
  service_outcome cn name (failed e) = service_failed cn name e
  service_outcome cn name (got u) = pure (update_service_status cn name true "")

  -- The loop over r.Services, from index i.
  unfoldable pub reconcile_services :
      ℕ → List (ServiceReconciler W) → ClientNamespace → Exec W.State ClientNamespace
  unfolding service_outcome
  reconcile_services i [] cn = pure cn
  reconcile_services i (svc ∷ services) cn = do
    outcome ← attempt (svc.reconcile cn)
    marked ← service_outcome cn (service_name decimal i) outcome
    reconcile_services (suc i) services marked

  -- The secrets of a client, from the root passwords to the certificates and the catalog.
  unfoldable pub provision_secrets : ClientNamespace → String → Exec W.State (Unit {0})
  provision_secrets cn ns = do
    pg_pass ←
        get_or_create_password W ns "postgres-secret" "POSTGRES_PASSWORD" cn.spec.storage
          "postgresRootPassword" (cn.name <> "-pg")
    rustfs_pass ←
        get_or_create_password W ns "rustfs-secret" "RUSTFS_ROOT_PASSWORD" cn.spec.storage
          "rustfsRootPassword" (cn.name <> "-s3")
    or_failed W cn "RootSecretsFailed" (ensure_root_secrets W cn ns pg_pass rustfs_pass)
    or_failed W cn "NinegateSecretFailed" (ensure_ninegate_secret W cn ns pg_pass rustfs_pass)
    or_failed W cn "CAFailed" (ensure_ca W cn ns)
    or_failed W cn "CertFailed" (ensure_service_certs W cn ns)
    or_failed W cn "OptionalServicesFailed" (reconcile_optional_services order cn)

  unfoldable pub provision : List (ServiceReconciler W) → ClientNamespace → Exec W.State (Unit {0})
  unfolding ensure_namespace provision_secrets reconcile_services
  provision services cn = do
    let ns = ns_name cn
    or_failed W cn "NamespaceFailed" (ensure_namespace W cn ns)
    let placed = with_namespace cn ns
    or_failed W placed "AdminCredentialsFailed" (ensure_admin_credentials W placed ns)
    let named = with_admin_secret placed "admin-credentials"
    provision_secrets named ns
    marked ← reconcile_services 0 services named
    or_failed W marked "IngressFailed" (ensure_ingresses W marked ns)
    or_failed W marked "NetworkPolicyFailed" (ensure_network_policies W marked ns)
    mark_ready W marked

  -- From the test for the terminal phase on.
  unfoldable pub reconcile_phase :
      List (ServiceReconciler W) → ClientNamespace → Exec W.State (Unit {0})
  unfolding start_provisioning provision
  reconcile_phase services cn =
      if is_ready cn.status.phase
      then pure tt
      else (do started ← start_provisioning W cn; provision services started)

  unfoldable pub reconcile_fetched :
      List (ServiceReconciler W) → Attempt ClientNamespace → Exec W.State (Unit {0})
  unfolding ensure_finalizer reconcile_phase
  reconcile_fetched services (failed e) = if is_not_found e then pure tt else raise e
  reconcile_fetched services (got cn) =
      if cn.deleted
      then reconcile_delete W services cn
      else (do finalized ← ensure_finalizer W cn; reconcile_phase services finalized)

  unfoldable pub reconcile : List (ServiceReconciler W) → NamespacedName → Exec W.State (Unit {0})
  unfolding reconcile_fetched
  reconcile services request = do
    fetched ← attempt (W.get_client_namespace request)
    reconcile_fetched services fetched
