-- ===== src/Services/Redis.antt =====
-- operator/internal/controller/redis_controller.go
use ninekube.Prelude.{String, [], ◌∷◌, some}
use ninekube.Exec.{Exec, pure, ◌>>◌}
use ninekube.Api.{ClientNamespace}
use ninekube.Api.Services.{core_enabled, when_services}
use ninekube.Kube.{Object, deployment_kind, service, service_kind}
use ninekube.Kube.Workload.{bare_container, exec, from_string, unset_strategy, Container}
use ninekube.World.{World}
use ninekube.Controller.Labels.{app_labels}
use ninekube.Controller.Ensure.{key, named, if_missing}
use ninekube.Services.Common.{when_provisioned, app_deployment, app_selector, port, service_port}

redis_container : Container
redis_container = record (bare_container "redis" "redis:7-alpine") {
  ports = port "redis" 6379 ∷ [];
  readiness_probe = some (record {
    handler = exec ("redis-cli" ∷ "ping" ∷ []);
    initial_delay_seconds = 5;
    period_seconds = 5;
  });
  requests = ("cpu", "50m") ∷ ("memory", "64Mi") ∷ [];
  limits = ("cpu", "200m") ∷ ("memory", "128Mi") ∷ [];
}

unfoldable pub deployment_object : ClientNamespace → String → Object
unfolding redis_container
deployment_object cn ns =
    app_deployment cn ns "redis" unset_strategy
      (record { init_containers = []; containers = redis_container ∷ []; volumes = [] })

unfoldable pub service_object : ClientNamespace → String → Object
service_object cn ns = record {
  meta = named ns "redis" (app_labels "redis" cn);
  body = service (record {
    selector = app_selector "redis";
    ports = service_port "redis" 6379 (from_string "redis") ∷ [];
  });
}

module _ (W : World) where
  unfoldable pub ensure_deployment : ClientNamespace → String → Exec W.State (Unit {0})
  ensure_deployment cn ns =
      if_missing W (key deployment_kind ns "redis") (W.create (deployment_object cn ns))

  unfoldable pub ensure_service : ClientNamespace → String → Exec W.State (Unit {0})
  ensure_service cn ns =
      if_missing W (key service_kind ns "redis") (W.create (service_object cn ns))

  unfoldable pub provision : ClientNamespace → String → Exec W.State (Unit {0})
  unfolding ensure_deployment ensure_service
  provision cn ns = do ensure_deployment cn ns; ensure_service cn ns

  unfoldable pub reconcile : ClientNamespace → Exec W.State (Unit {0})
  unfolding when_provisioned when_services core_enabled provision
  reconcile cn =
      when_provisioned (when_services cn.spec.services (λ sv. core_enabled sv.redis)) cn
        (provision cn)

  unfoldable pub cleanup : ClientNamespace → Exec W.State (Unit {0})
  cleanup cn = pure tt
