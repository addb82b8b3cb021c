-- ===== src/Services/Postgres.antt =====
-- operator/internal/controller/postgresql_controller.go
pub mod Init
use ninekube.Prelude.{
  ℕ, String, ◌<>◌, ◌==◌, true, false, Option, none, [], ◌∷◌, some, List, if◌then◌else◌,
}
use ninekube.Exec.{Exec, pure, crash, ◌>>◌, ◌>>=◌}
use ninekube.Api.{ClientNamespace, ServicesSpec, StatefulServiceSpec}
use ninekube.Api.Services.{stateful_enabled, when_services}
use ninekube.Catalog.{ServiceDescriptor, service_catalog, OptionalService, service_key, enabled}
use ninekube.Kube.{
  Object, config_map, config_map_kind, stateful_set, stateful_set_kind, service, service_kind,
}
use ninekube.Kube.Workload.{
  bare_container, exec, from_string, Container, config_map_ref, secret_ref, config_map_volume,
  Probe, PodSpec,
}
use ninekube.World.{World}
use ninekube.Controller.Labels.{app_labels}
use ninekube.Controller.Ensure.{key, named, if_missing}
use ninekube.Services.Common.{
  when_provisioned, pvc_size, storage_class, longhorn_claim, app_selector, port, service_port,
}

unfoldable pub database_statement : Option ServiceDescriptor → String
database_statement none = ""
database_statement (some d) =
    if d.database_name == "" then "" else "CREATE DATABASE " <> d.database_name <> ";\n"

-- What one round of the loop adds to the text.
unfoldable pub optional_statement : ClientNamespace → OptionalService → String
unfolding database_statement enabled service_catalog service_key
optional_statement cn s =
    if enabled cn s then database_statement (service_catalog (service_key s)) else ""

-- The loop over the map `optionalServices`, in the order that the run happens to take.
unfoldable pub optional_sql : String → ClientNamespace → List OptionalService → String
unfolding optional_statement
optional_sql sql cn [] = sql
optional_sql sql cn (s ∷ order) = optional_sql (sql <> optional_statement cn s) cn order

unfoldable pub generate_init_sql : List OptionalService → ClientNamespace → String
unfolding optional_sql
generate_init_sql order cn = optional_sql "CREATE DATABASE ninegate;\n" cn order

unfoldable pub config_map_object : ClientNamespace → String → String → Object
config_map_object cn ns init_sql = record {
  meta = named ns "postgres-config" (app_labels "postgresql" cn);
  body = config_map (
      ("POSTGRES_INITDB_ARGS", "--auth-host=md5 --auth-local=trust") ∷ ("init.sql", init_sql) ∷ []);
}

abbrev ready_probe : ℕ → ℕ → Probe
ready_probe delay period = record {
  handler = exec ("pg_isready" ∷ "-U" ∷ "root" ∷ "-d" ∷ "ninegate" ∷ []);
  initial_delay_seconds = delay;
  period_seconds = period;
}

postgres_container : Container
postgres_container = record (bare_container "postgresql" "postgres:16") {
  ports = port "postgres" 5432 ∷ [];
  env_from = config_map_ref "postgres-config" ∷ secret_ref "postgres-secret" ∷ [];
  volume_mounts =
      record {
        name = "postgres-data";
        mount_path = "/var/lib/postgresql/data";
        sub_path = "pgdata";
        read_only = false;
      }
      ∷ record {
        name = "init-sql";
        mount_path = "/docker-entrypoint-initdb.d";
        sub_path = "";
        read_only = true;
      }
      ∷ [];
  readiness_probe = some (ready_probe 10 5);
  liveness_probe = some (ready_probe 30 10);
  requests = ("cpu", "100m") ∷ ("memory", "128Mi") ∷ [];
  limits = ("cpu", "500m") ∷ ("memory", "512Mi") ∷ [];
}

unfoldable pub pod_spec : PodSpec
unfolding postgres_container
pod_spec = record {
  init_containers = [];
  containers = postgres_container ∷ [];
  volumes = record { name = "init-sql"; source = config_map_volume "postgres-config" } ∷ [];
}

unfoldable pub stateful_set_object : ClientNamespace → String → Option String → Object
unfolding pod_spec pvc_size storage_class
stateful_set_object cn ns own_size = record {
  meta = named ns "postgresql" (app_labels "postgresql" cn);
  body = stateful_set (record {
    service_name = "postgresql";
    replicas = 1;
    selector = app_selector "postgresql";
    template = record { labels = app_labels "postgresql" cn; spec = pod_spec };
    volume_claim_templates =
        record {
          name = "postgres-data";
          labels = app_labels "postgresql" cn;
          spec = longhorn_claim (storage_class cn) (pvc_size own_size cn);
        }
        ∷ [];
  });
}

unfoldable pub service_object : ClientNamespace → String → Object
service_object cn ns = record {
  meta = named ns "postgresql" (app_labels "postgresql" cn);
  body = service (record {
    selector = app_selector "postgresql";
    ports = service_port "postgres" 5432 (from_string "postgres") ∷ [];
  });
}

-- cn.Spec.Services.PostgreSQL.StorageSize, which panics at a nil pointer
unfoldable pub size_of : {S : Type 0} → Option StatefulServiceSpec → Exec S (Option String)
size_of none = crash
size_of (some spec) = pure spec.storage_size

unfoldable pub own_size : {S : Type 0} → Option ServicesSpec → Exec S (Option String)
unfolding size_of
own_size none = crash
own_size (some services) = size_of services.postgresql

-- `order` is the order in which the run goes through the map of optional services.
module _ (W : World) (order : List OptionalService) where
  unfoldable pub ensure_config_map : ClientNamespace → String → Exec W.State (Unit {0})
  unfolding generate_init_sql
  ensure_config_map cn ns =
      if_missing W (key config_map_kind ns "postgres-config")
        (W.create (config_map_object cn ns (generate_init_sql order cn)))

  unfoldable pub create_stateful_set : ClientNamespace → String → Exec W.State (Unit {0})
  create_stateful_set cn ns = do
    size ← own_size cn.spec.services
    W.create (stateful_set_object cn ns size)

  unfoldable pub ensure_stateful_set : ClientNamespace → String → Exec W.State (Unit {0})
  unfolding create_stateful_set
  ensure_stateful_set cn ns =
      if_missing W (key stateful_set_kind ns "postgresql") (create_stateful_set cn ns)

  unfoldable pub ensure_service : ClientNamespace → String → Exec W.State (Unit {0})
  ensure_service cn ns =
      if_missing W (key service_kind ns "postgresql") (W.create (service_object cn ns))

  unfoldable pub provision : ClientNamespace → String → Exec W.State (Unit {0})
  unfolding ensure_config_map ensure_stateful_set ensure_service
  provision cn ns = do ensure_config_map cn ns; ensure_stateful_set cn ns; ensure_service cn ns

  unfoldable pub reconcile : ClientNamespace → Exec W.State (Unit {0})
  unfolding when_provisioned when_services stateful_enabled provision
  reconcile cn =
      when_provisioned (when_services cn.spec.services (λ sv. stateful_enabled sv.postgresql)) cn
        (provision cn)

  unfoldable pub cleanup : ClientNamespace → Exec W.State (Unit {0})
  cleanup cn = pure tt
