-- ===== src/Kube/Workload.antt =====
-- Pods, Deployments, StatefulSets and volume claims, with the fields that the operator sets.
use ninekube.Prelude.{ℕ, String, Bool, StringMap, Option, none, List, []}

pub record ContainerPort : Type 0 where
  pub name : String
  pub container_port : ℕ

-- A port by its container's name for it, or by its number (`intstr.IntOrString`).
pub data IntOrString : Type 0 where
  from_string : String → IntOrString
  from_int : ℕ → IntOrString

pub data EnvSource : Type 0 where
  value : String → EnvSource
  secret_key_ref : String → String → EnvSource

pub record EnvVar : Type 0 where
  pub name : String
  pub source : EnvSource

pub data EnvFromSource : Type 0 where
  config_map_ref : String → EnvFromSource
  secret_ref : String → EnvFromSource

pub record VolumeMount : Type 0 where
  pub name : String
  pub mount_path : String
  pub sub_path : String
  pub read_only : Bool

pub data UriScheme : Type 0 where
  unset_scheme https : UriScheme

pub data ProbeHandler : Type 0 where
  exec : List String → ProbeHandler
  http_get : String → IntOrString → UriScheme → ProbeHandler
  tcp_socket : IntOrString → ProbeHandler

pub record Probe : Type 0 where
  pub handler : ProbeHandler
  pub initial_delay_seconds : ℕ
  pub period_seconds : ℕ

pub record Container : Type 0 where
  pub name : String
  pub image : String
  pub command : List String
  pub ports : List ContainerPort
  pub env_from : List EnvFromSource
  pub env : List EnvVar
  pub volume_mounts : List VolumeMount
  pub run_as_user : Option ℕ
  pub readiness_probe : Option Probe
  pub liveness_probe : Option Probe
  pub requests : StringMap
  pub limits : StringMap

-- A container literal that sets its name and image only.
abbrev pub bare_container : String → String → Container
bare_container name image = record {
  name = name;
  image = image;
  command = [];
  ports = [];
  env_from = [];
  env = [];
  volume_mounts = [];
  run_as_user = none;
  readiness_probe = none;
  liveness_probe = none;
  requests = [];
  limits = [];
}

pub data VolumeSource : Type 0 where
  config_map_volume : String → VolumeSource
  secret_volume : String → VolumeSource
  claim_volume : String → VolumeSource
  empty_dir : VolumeSource

pub record Volume : Type 0 where
  pub name : String
  pub source : VolumeSource

pub record PodSpec : Type 0 where
  pub init_containers : List Container
  pub containers : List Container
  pub volumes : List Volume

pub record PodTemplate : Type 0 where
  pub labels : StringMap
  pub spec : PodSpec

pub data Strategy : Type 0 where
  unset_strategy recreate : Strategy

pub record DeploymentSpec : Type 0 where
  pub replicas : ℕ
  pub strategy : Strategy
  pub selector : StringMap
  pub template : PodTemplate

pub data AccessMode : Type 0 where
  read_write_once : AccessMode

pub record PvcSpec : Type 0 where
  pub access_modes : List AccessMode
  pub storage_class_name : String
  pub storage_request : String

pub record ClaimTemplate : Type 0 where
  pub name : String
  pub labels : StringMap
  pub spec : PvcSpec

pub record StatefulSetSpec : Type 0 where
  pub service_name : String
  pub replicas : ℕ
  pub selector : StringMap
  pub template : PodTemplate
  pub volume_claim_templates : List ClaimTemplate
