-- ===== src/Services/RustFs.antt =====
-- operator/internal/controller/rustfs_controller.go
use ninekube.Prelude.{String, false, Option, none, [], ◌∷◌, some}
use ninekube.Exec.{Exec, pure, crash, ◌>>◌, ◌>>=◌}
use ninekube.Api.{ClientNamespace, ServicesSpec, StatefulServiceSpec}
use ninekube.Api.Services.{stateful_enabled, when_services}
use ninekube.Kube.{Object, pvc, pvc_kind, deployment_kind, service, service_kind}
use ninekube.Kube.Workload.{
  bare_container, http_get, unset_scheme, from_int, recreate, Container, secret_ref, value,
  claim_volume,
}
use ninekube.World.{World}
use ninekube.Controller.Labels.{app_labels}
use ninekube.Controller.Ensure.{key, named, if_missing}
use ninekube.Services.Common.{
  when_provisioned, pvc_size, storage_class, longhorn_claim, app_deployment, app_selector, port,
  service_port,
}

rustfs_container : Container
rustfs_container = record (bare_container "rustfs" "rustfs/rustfs:latest") {
  ports = port "api" 9000 ∷ port "console" 9001 ∷ [];
  run_as_user = some 0;
  env_from = secret_ref "rustfs-secret" ∷ [];
  env = record { name = "RUSTFS_VOLUMES"; source = value "/data" } ∷ [];
  volume_mounts =
      record { name = "data"; mount_path = "/data"; sub_path = ""; read_only = false } ∷ [];
  readiness_probe = some (record {
    handler = http_get "/minio/health/live" (from_int 9000) unset_scheme;
    initial_delay_seconds = 10;
    period_seconds = 10;
  });
  requests = ("cpu", "100m") ∷ ("memory", "128Mi") ∷ [];
  limits = ("cpu", "500m") ∷ ("memory", "512Mi") ∷ [];
}

unfoldable pub pvc_object : ClientNamespace → String → Option String → Object
unfolding pvc_size storage_class
pvc_object cn ns own_size = record {
  meta = named ns "rustfs-data" (app_labels "rustfs" cn);
  body = pvc (longhorn_claim (storage_class cn) (pvc_size own_size cn));
}

unfoldable pub deployment_object : ClientNamespace → String → Object
unfolding rustfs_container
deployment_object cn ns = app_deployment cn ns "rustfs" recreate (record {
  init_containers = [];
  containers = rustfs_container ∷ [];
  volumes = record { name = "data"; source = claim_volume "rustfs-data" } ∷ [];
})

unfoldable pub service_object : ClientNamespace → String → Object
service_object cn ns = record {
  meta = named ns "rustfs" (app_labels "rustfs" cn);
  body = service (record {
    selector = app_selector "rustfs";
    ports =
        service_port "api" 9000 (from_int 9000) ∷ service_port "console" 9001 (from_int 9001) ∷ [];
  });
}

-- cn.Spec.Services.RustFS.StorageSize, which panics at a nil pointer
unfoldable pub size_of : {S : Type 0} → Option StatefulServiceSpec → Exec S (Option String)
size_of none = crash
size_of (some spec) = pure spec.storage_size

unfoldable pub own_size : {S : Type 0} → Option ServicesSpec → Exec S (Option String)
unfolding size_of
own_size none = crash
own_size (some services) = size_of services.rustfs

module _ (W : World) where
  unfoldable pub create_pvc : ClientNamespace → String → Exec W.State (Unit {0})
  create_pvc cn ns = do size ← own_size cn.spec.services; W.create (pvc_object cn ns size)

  unfoldable pub ensure_pvc : ClientNamespace → String → Exec W.State (Unit {0})
  unfolding create_pvc
  ensure_pvc cn ns = if_missing W (key pvc_kind ns "rustfs-data") (create_pvc cn ns)

  unfoldable pub ensure_deployment : ClientNamespace → String → Exec W.State (Unit {0})
  ensure_deployment cn ns =
      if_missing W (key deployment_kind ns "rustfs") (W.create (deployment_object cn ns))

  unfoldable pub ensure_service : ClientNamespace → String → Exec W.State (Unit {0})
  ensure_service cn ns =
      if_missing W (key service_kind ns "rustfs") (W.create (service_object cn ns))

  unfoldable pub provision : ClientNamespace → String → Exec W.State (Unit {0})
  unfolding ensure_pvc ensure_deployment ensure_service
  provision cn ns = do ensure_pvc cn ns; ensure_deployment cn ns; ensure_service cn ns

  unfoldable pub reconcile : ClientNamespace → Exec W.State (Unit {0})
  unfolding when_provisioned when_services stateful_enabled provision
  reconcile cn =
      when_provisioned (when_services cn.spec.services (λ sv. stateful_enabled sv.rustfs)) cn
        (provision cn)

  unfoldable pub cleanup : ClientNamespace → Exec W.State (Unit {0})
  cleanup cn = pure tt
