-- ===== src/Services/Glauth.antt =====
-- operator/internal/controller/glauth_controller.go
use ninekube.Prelude.{ℕ, String, ◌<>◌, true, [], ◌∷◌, some, index}
use ninekube.Exec.{Exec, pure, ◌>>◌, ◌>>=◌}
use ninekube.Api.{ClientNamespace}
use ninekube.Api.Services.{core_enabled, when_services}
use ninekube.Kube.{
  Object, config_map, config_map_kind, deployment_kind, service, service_kind, secret_kind,
  secret_data,
}
use ninekube.Kube.Workload.{
  bare_container, tcp_socket, from_string, recreate, Container, config_map_volume, secret_volume,
  PodSpec, Probe,
}
use ninekube.World.{World}
use ninekube.Ca.{wrapping, generate_rsa_self_signed_cert}
use ninekube.Certs.{tls_secret}
use ninekube.Controller.Domain.{replace_dots_with_dc}
use ninekube.Controller.Labels.{app_labels}
use ninekube.Controller.Ensure.{key, named, if_missing}
use ninekube.Services.Configs.{glauth_config}
use ninekube.Services.Common.{when_provisioned, app_deployment, app_selector, port, service_port}

unfoldable pub config_map_object : ClientNamespace → String → String → Object
config_map_object cn ns config = record {
  meta = named ns "ninegate-glauth-config" (app_labels "glauth" cn);
  body = config_map (("config.cfg", config) ∷ []);
}

wait_postgres : Container
wait_postgres = record (bare_container "wait-postgres" "busybox:1.36") {
  command =
      "sh" ∷ "-c" ∷ "until nc -z postgresql 5432; do echo waiting for postgres...; sleep 2; done"
      ∷ [];
}

wait_ninegate : Container
wait_ninegate = record (bare_container "wait-ninegate" "busybox:1.36") {
  command =
      "sh"
      ∷ "-c"
      ∷ ("until wget -q -O- --spider http://ninegate:80/ 2>/dev/null; "
          <> "do echo waiting for ninegate...; sleep 3; done")
      ∷ [];
}

abbrev ldap_probe : ℕ → ℕ → Probe
ldap_probe delay period = record {
  handler = tcp_socket (from_string "ldap");
  initial_delay_seconds = delay;
  period_seconds = period;
}

glauth_container : Container
glauth_container = record (bare_container "glauth" "ghcr.io/glauth/glauth-plugins:v2.4.0") {
  ports = port "ldap" 3893 ∷ port "ldaps" 636 ∷ [];
  volume_mounts =
      record { name = "config"; mount_path = "/app/config"; sub_path = ""; read_only = true }
      ∷ record { name = "tls"; mount_path = "/etc/glauth/tls"; sub_path = ""; read_only = true }
      ∷ [];
  readiness_probe = some (ldap_probe 5 10);
  liveness_probe = some (ldap_probe 10 30);
  requests = ("cpu", "50m") ∷ ("memory", "64Mi") ∷ [];
}

unfoldable pub pod_spec : PodSpec
unfolding wait_postgres wait_ninegate glauth_container
pod_spec = record {
  init_containers = wait_postgres ∷ wait_ninegate ∷ [];
  containers = glauth_container ∷ [];
  volumes =
      record { name = "config"; source = config_map_volume "ninegate-glauth-config" }
      ∷ record { name = "tls"; source = secret_volume "glauth-tls" }
      ∷ [];
}

unfoldable pub deployment_object : ClientNamespace → String → Object
unfolding pod_spec
deployment_object cn ns = app_deployment cn ns "glauth" recreate pod_spec

unfoldable pub service_object : ClientNamespace → String → Object
service_object cn ns = record {
  meta = named ns "glauth" (app_labels "glauth" cn);
  body = service (record {
    selector = app_selector "glauth";
    ports =
        service_port "ldap" 3893 (from_string "ldap")
        ∷ service_port "ldaps" 636 (from_string "ldaps")
        ∷ [];
  });
}

module _ (W : World) where
  unfoldable pub create_config_map : ClientNamespace → String → Exec W.State (Unit {0})
  unfolding wrapping
  create_config_map cn ns = do
    pg_secret ←
        wrapping W "postgres-secret not found" (W.get (key secret_kind ns "postgres-secret"))
    W.create (
        config_map_object cn ns (
          glauth_config (index "POSTGRES_PASSWORD" (secret_data pg_secret.body))
            (replace_dots_with_dc cn.spec.domain)))

  unfoldable pub ensure_config_map : ClientNamespace → String → Exec W.State (Unit {0})
  unfolding create_config_map
  ensure_config_map cn ns =
      if_missing W (key config_map_kind ns "ninegate-glauth-config") (create_config_map cn ns)

  unfoldable pub create_tls_secret : ClientNamespace → String → Exec W.State (Unit {0})
  create_tls_secret cn ns = do
    pems ←
        wrapping W "failed to generate glauth TLS cert"
          (generate_rsa_self_signed_cert W ("glauth." <> cn.spec.domain))
    W.create (tls_secret (named ns "glauth-tls" (app_labels "glauth" cn)) pems.0 pems.1)

  unfoldable pub ensure_tls_secret : ClientNamespace → String → Exec W.State (Unit {0})
  unfolding create_tls_secret
  ensure_tls_secret cn ns = if_missing W (key secret_kind ns "glauth-tls") (create_tls_secret cn ns)

  unfoldable pub ensure_deployment : ClientNamespace → String → Exec W.State (Unit {0})
  ensure_deployment cn ns =
      if_missing W (key deployment_kind ns "glauth") (W.create (deployment_object cn ns))

  unfoldable pub ensure_service : ClientNamespace → String → Exec W.State (Unit {0})
  ensure_service cn ns =
      if_missing W (key service_kind ns "glauth") (W.create (service_object cn ns))

  unfoldable pub provision : ClientNamespace → String → Exec W.State (Unit {0})
  unfolding ensure_config_map ensure_tls_secret ensure_deployment ensure_service
  provision cn ns = do
    ensure_config_map cn ns
    ensure_tls_secret cn ns
    ensure_deployment cn ns
    ensure_service cn ns

  unfoldable pub reconcile : ClientNamespace → Exec W.State (Unit {0})
  unfolding when_provisioned when_services core_enabled provision
  reconcile cn =
      when_provisioned (when_services cn.spec.services (λ sv. core_enabled sv.glauth)) cn
        (provision cn)

  unfoldable pub cleanup : ClientNamespace → Exec W.State (Unit {0})
  cleanup cn = pure tt
