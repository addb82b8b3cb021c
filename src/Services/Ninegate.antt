-- ===== src/Services/Ninegate.antt =====
-- operator/internal/controller/ninegate_controller.go
pub mod Wiring
use ninekube.Prelude.{ℕ, String, true, false, [], ◌∷◌, some, List}
use ninekube.Exec.{Exec, pure, ◌>>◌, for_each}
use ninekube.Api.{ClientNamespace}
use ninekube.Api.Services.{core_enabled, when_services}
use ninekube.Kube.{Object, pvc, pvc_kind, deployment_kind, service, service_kind}
use ninekube.Kube.Workload.{
  bare_container, http_get, unset_scheme, from_string, recreate, Container, value, secret_key_ref,
  EnvVar, claim_volume, config_map_volume, PodSpec, Probe,
}
use ninekube.World.{World}
use ninekube.Controller.Labels.{app_labels}
use ninekube.Controller.Ensure.{key, named, if_missing}
use ninekube.Services.Common.{
  when_provisioned, longhorn_claim, app_deployment, app_selector, port, service_port,
}

abbrev literal_env : String → String → EnvVar
literal_env name text = record { name = name; source = value text }

-- An environment variable with the value of a key of `ninegate-secret`.
abbrev secret_env : String → String → EnvVar
secret_env name key = record { name = name; source = secret_key_ref "ninegate-secret" key }

unfoldable pub environment : List EnvVar
environment =
    literal_env "APP_ENV" "prod"
    ∷ secret_env "APP_SECRET" "app-secret"
    ∷ secret_env "DATABASE_URL" "database-url"
    ∷ secret_env "DEFAULT_URI" "default-uri"
    ∷ literal_env "APP_MODEAUTH" "OIDC"
    ∷ literal_env "APP_MASTERIDENTITY" "SQL"
    ∷ secret_env "LDAP_BASE" "ldap-base"
    ∷ secret_env "OIDC_ISSUER" "oidc-issuer"
    ∷ literal_env "OIDC_CLIENTID" "ninegate"
    ∷ secret_env "OIDC_CLIENTSECRET" "oidc-client-secret"
    ∷ secret_env "OIDC_REDIRECTURI" "oidc-redirect-uri"
    ∷ secret_env "APP_ADMIN_PASSWORD" "app-admin-password"
    ∷ literal_env "OIDC_MAILATTRIBUTE" "email"
    ∷ literal_env "OIDC_USERNAMEATTRIBUTE" "name"
    ∷ secret_env "STORAGE_DSN" "storage-dsn"
    ∷ literal_env "STORAGE_S3" "1"
    ∷ secret_env "S3_ENDPOINT" "s3-endpoint"
    ∷ secret_env "S3_BUCKET" "s3-bucket"
    ∷ secret_env "S3_ACCESS_KEY" "s3-access-key"
    ∷ secret_env "S3_SECRET_KEY" "s3-secret-key"
    ∷ secret_env "S3_REGION" "s3-region"
    ∷ []

abbrev http_probe : ℕ → ℕ → Probe
http_probe delay period = record {
  handler = http_get "/" (from_string "http") unset_scheme;
  initial_delay_seconds = delay;
  period_seconds = period;
}

wait_postgres : Container
wait_postgres = record (bare_container "wait-postgres" "busybox:1.36") {
  command =
      "sh" ∷ "-c" ∷ "until nc -z postgresql 5432; do echo waiting for postgres...; sleep 2; done"
      ∷ [];
}

ninegate_container : Container
unfolding environment
ninegate_container = record (bare_container "ninegate" "ghcr.io/afornerot/ninegate:main") {
  ports = port "http" 80 ∷ [];
  env = environment;
  volume_mounts =
      record { name = "uploads"; mount_path = "/app/uploads"; sub_path = ""; read_only = false }
      ∷ record {
        name = "public-uploads";
        mount_path = "/app/public/uploads";
        sub_path = "";
        read_only = false;
      }
      ∷ record {
        name = "glauth-config";
        mount_path = "/app/volume/glauth";
        sub_path = "";
        read_only = true;
      }
      ∷ [];
  readiness_probe = some (http_probe 30 10);
  liveness_probe = some (http_probe 60 30);
  requests = ("cpu", "100m") ∷ ("memory", "256Mi") ∷ [];
}

unfoldable pub pod_spec : PodSpec
unfolding wait_postgres ninegate_container
pod_spec = record {
  init_containers = wait_postgres ∷ [];
  containers = ninegate_container ∷ [];
  volumes =
      record { name = "uploads"; source = claim_volume "ninegate-uploads" }
      ∷ record { name = "public-uploads"; source = claim_volume "ninegate-public-uploads" }
      ∷ record { name = "glauth-config"; source = config_map_volume "ninegate-glauth-config" }
      ∷ [];
}

unfoldable pub pvc_object : ClientNamespace → String → String → Object
pvc_object cn ns pvc_name = record {
  meta = named ns pvc_name (app_labels "ninegate" cn);
  body = pvc (longhorn_claim "longhorn" "10Gi");
}

unfoldable pub deployment_object : ClientNamespace → String → Object
unfolding pod_spec
deployment_object cn ns = app_deployment cn ns "ninegate" recreate pod_spec

unfoldable pub service_object : ClientNamespace → String → Object
service_object cn ns = record {
  meta = named ns "ninegate" (app_labels "ninegate" cn);
  body = service (record {
    selector = app_selector "ninegate";
    ports = service_port "http" 80 (from_string "http") ∷ [];
  });
}

module _ (W : World) where
  unfoldable pub ensure_pvcs : ClientNamespace → String → Exec W.State (Unit {0})
  ensure_pvcs cn ns =
      for_each ("ninegate-uploads" ∷ "ninegate-public-uploads" ∷ [])
        (λ pvc_name. if_missing W (key pvc_kind ns pvc_name) (W.create (pvc_object cn ns pvc_name)))

  unfoldable pub ensure_deployment : ClientNamespace → String → Exec W.State (Unit {0})
  ensure_deployment cn ns =
      if_missing W (key deployment_kind ns "ninegate") (W.create (deployment_object cn ns))

  unfoldable pub ensure_service : ClientNamespace → String → Exec W.State (Unit {0})
  ensure_service cn ns =
      if_missing W (key service_kind ns "ninegate") (W.create (service_object cn ns))

  unfoldable pub provision : ClientNamespace → String → Exec W.State (Unit {0})
  unfolding ensure_pvcs ensure_deployment ensure_service
  provision cn ns = do ensure_pvcs cn ns; ensure_deployment cn ns; ensure_service cn ns

  unfoldable pub reconcile : ClientNamespace → Exec W.State (Unit {0})
  unfolding when_provisioned when_services core_enabled provision
  reconcile cn =
      when_provisioned (when_services cn.spec.services (λ sv. core_enabled sv.ninegate)) cn
        (provision cn)

  unfoldable pub cleanup : ClientNamespace → Exec W.State (Unit {0})
  cleanup cn = pure tt
