-- ===== src/Services/Common.antt =====
-- What the six service controllers share: the opening of `Reconcile`, the choice of volume sizes
-- and storage classes, and the shapes of their object literals.
use ninekube.Prelude.{ℕ, String, StringMap, ◌==◌, Bool, Option, none, some, [], ◌∷◌, if◌then◌else◌}
use ninekube.Exec.{Exec, plain, pure, raise}
use ninekube.Api.{ClientNamespace, StorageConfig}
use ninekube.Kube.{Object, deployment}
use ninekube.Kube.Workload.{PodSpec, Strategy, IntOrString, ContainerPort, read_write_once, PvcSpec}
use ninekube.Kube.Network.{ServicePort}
use ninekube.Controller.Labels.{app_labels}
use ninekube.Controller.Ensure.{named}

module _ {S : Type 0} where
  -- if !enabled { return nil }; if cn.Status.Namespace == "" { return an error }; ...
  unfoldable pub when_provisioned :
      Bool → ClientNamespace → (String → Exec S (Unit {0})) → Exec S (Unit {0})
  when_provisioned enabled cn provision =
      if enabled
      then (if cn.status.namespace == ""
          then raise (plain "namespace not yet provisioned")
          else provision cn.status.namespace)
      else pure tt

-- *pointer, if it is not nil
abbrev pub or_else : {A : Type 0} → Option A → A → A
or_else none a = a
or_else (some b) a = b

abbrev pub of_storage : {A : Type 0} → Option StorageConfig → (StorageConfig → Option A) → Option A
of_storage none field = none
of_storage (some storage) field = field storage

-- the service's own size, then that of the storage configuration, then 10Gi
unfoldable pub pvc_size : Option String → ClientNamespace → String
pvc_size own cn = or_else own (or_else (of_storage cn.spec.storage (λ st. st.pvc_size)) "10Gi")

unfoldable pub storage_class : ClientNamespace → String
storage_class cn = or_else (of_storage cn.spec.storage (λ st. st.storage_class)) "longhorn"

abbrev pub longhorn_claim : String → String → PvcSpec
longhorn_claim class size = record {
  access_modes = read_write_once ∷ [];
  storage_class_name = class;
  storage_request = size;
}

-- the selector `map[string]string{"app.kubernetes.io/name": app}`
abbrev pub app_selector : String → StringMap
app_selector app = ("app.kubernetes.io/name", app) ∷ []

-- A Deployment of one replica whose pods carry the application's labels.
abbrev pub app_deployment : ClientNamespace → String → String → Strategy → PodSpec → Object
app_deployment cn ns app strategy spec = record {
  meta = named ns app (app_labels app cn);
  body = deployment (record {
    replicas = 1;
    strategy = strategy;
    selector = app_selector app;
    template = record { labels = app_labels app cn; spec = spec };
  });
}

abbrev pub port : String → ℕ → ContainerPort
port name number = record { name = name; container_port = number }

abbrev pub service_port : String → ℕ → IntOrString → ServicePort
service_port name number target = record { name = name; port = number; target_port = target }
