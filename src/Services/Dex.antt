-- ===== src/Services/Dex.antt =====
-- operator/internal/controller/dex_controller.go
use ninekube.Prelude.{ℕ, String, ◌<>◌, true, false, [], ◌∷◌, some}
use ninekube.Exec.{Exec, pure, attempt, ◌>>◌, ◌>>=◌}
use ninekube.Api.{ClientNamespace}
use ninekube.Api.Services.{core_enabled, when_services}
use ninekube.Kube.{Object, deployment_kind, service, service_kind, secret_kind}
use ninekube.Kube.Workload.{
  bare_container, http_get, https, from_string, recreate, Container, secret_volume, empty_dir,
  PodSpec, Probe,
}
use ninekube.World.{World}
use ninekube.Ca.{wrapping, generate_rsa_self_signed_cert}
use ninekube.Certs.{tls_secret}
use ninekube.Controller.Domain.{replace_dots_with_dc}
use ninekube.Controller.Labels.{app_labels}
use ninekube.Controller.Ensure.{key, named, if_missing}
use ninekube.Controller.Password.{random_or_empty}
use ninekube.Controller.Secrets.{string_secret, admin_password, secret_value}
use ninekube.Services.Configs.{dex_config}
use ninekube.Services.Common.{when_provisioned, app_deployment, app_selector, port, service_port}

abbrev https_probe : ℕ → ℕ → Probe
https_probe delay period = record {
  handler = http_get "/healthz" (from_string "https") https;
  initial_delay_seconds = delay;
  period_seconds = period;
}

dex_container : Container
dex_container = record (bare_container "dex" "ghcr.io/dexidp/dex:v2.41.1") {
  command = "dex" ∷ "serve" ∷ "/etc/dex/config.yaml" ∷ [];
  ports = port "https" 5556 ∷ port "grpc" 5557 ∷ [];
  volume_mounts =
      record {
        name = "config";
        mount_path = "/etc/dex/config.yaml";
        sub_path = "config.yaml";
        read_only = true;
      }
      ∷ record { name = "tls"; mount_path = "/etc/dex/tls"; sub_path = ""; read_only = true }
      ∷ record { name = "data"; mount_path = "/var/dex"; sub_path = ""; read_only = false }
      ∷ [];
  readiness_probe = some (https_probe 5 10);
  liveness_probe = some (https_probe 10 30);
  requests = ("cpu", "50m") ∷ ("memory", "64Mi") ∷ [];
  limits = ("memory", "128Mi") ∷ [];
}

unfoldable pub pod_spec : PodSpec
unfolding dex_container
pod_spec = record {
  init_containers = [];
  containers = dex_container ∷ [];
  volumes =
      record { name = "config"; source = secret_volume "dex-config" }
      ∷ record { name = "tls"; source = secret_volume "dex-tls" }
      ∷ record { name = "data"; source = empty_dir }
      ∷ [];
}

unfoldable pub deployment_object : ClientNamespace → String → Object
unfolding pod_spec
deployment_object cn ns = app_deployment cn ns "dex" recreate pod_spec

unfoldable pub service_object : ClientNamespace → String → Object
service_object cn ns = record {
  meta = named ns "dex" (app_labels "dex" cn);
  body = service (record {
    selector = app_selector "dex";
    ports =
        service_port "https" 5556 (from_string "https")
        ∷ service_port "grpc" 5557 (from_string "grpc")
        ∷ [];
  });
}

module _ (W : World) where
  -- the `app-secret` of `ninegate-secret`, which becomes Dex's secret for the client `ninegate`
  unfoldable pub ninegate_client_secret : String → Exec W.State String
  unfolding secret_value
  ninegate_client_secret ns = do
    found ← attempt (W.get (key secret_kind ns "ninegate-secret"))
    secret_value W 32 "app-secret" found

  unfoldable pub create_config_secret : ClientNamespace → String → Exec W.State (Unit {0})
  unfolding ninegate_client_secret
  create_config_secret cn ns = do
    admin_pass ← admin_password W ns
    ninegate_secret ← ninegate_client_secret ns
    nextcloud_secret ← random_or_empty W 32
    tfm_secret ← random_or_empty W 32
    W.create (
        string_secret ns "dex-config" (app_labels "dex" cn) (
          (
            "config.yaml",
            dex_config cn.spec.domain (replace_dots_with_dc cn.spec.domain) admin_pass
                ninegate_secret nextcloud_secret tfm_secret,
          )
          ∷ []))

  unfoldable pub ensure_config_secret : ClientNamespace → String → Exec W.State (Unit {0})
  unfolding create_config_secret
  ensure_config_secret cn ns =
      if_missing W (key secret_kind ns "dex-config") (create_config_secret cn ns)

  unfoldable pub create_tls_secret : ClientNamespace → String → Exec W.State (Unit {0})
  create_tls_secret cn ns = do
    pems ←
        wrapping W "failed to generate dex TLS cert"
          (generate_rsa_self_signed_cert W ("dex." <> cn.spec.domain))
    W.create (tls_secret (named ns "dex-tls" (app_labels "dex" cn)) pems.0 pems.1)

  unfoldable pub ensure_tls_secret : ClientNamespace → String → Exec W.State (Unit {0})
  unfolding create_tls_secret
  ensure_tls_secret cn ns = if_missing W (key secret_kind ns "dex-tls") (create_tls_secret cn ns)

  unfoldable pub ensure_deployment : ClientNamespace → String → Exec W.State (Unit {0})
  ensure_deployment cn ns =
      if_missing W (key deployment_kind ns "dex") (W.create (deployment_object cn ns))

  unfoldable pub ensure_service : ClientNamespace → String → Exec W.State (Unit {0})
  ensure_service cn ns = if_missing W (key service_kind ns "dex") (W.create (service_object cn ns))

  unfoldable pub provision : ClientNamespace → String → Exec W.State (Unit {0})
  unfolding ensure_config_secret ensure_tls_secret ensure_deployment ensure_service
  provision cn ns = do
    ensure_config_secret cn ns
    ensure_tls_secret cn ns
    ensure_deployment cn ns
    ensure_service cn ns

  unfoldable pub reconcile : ClientNamespace → Exec W.State (Unit {0})
  unfolding when_provisioned when_services core_enabled provision
  reconcile cn =
      when_provisioned (when_services cn.spec.services (λ sv. core_enabled sv.dex)) cn
        (provision cn)

  unfoldable pub cleanup : ClientNamespace → Exec W.State (Unit {0})
  cleanup cn = pure tt
