-- ===== src/Api.antt =====
-- operator/api/v1alpha1/clientnamespace_types.go: the `ClientNamespace` resource. A pointer or an
-- optional struct is an `Option`, a `resource.Quantity` its text, a string enumeration a `data`
-- type with a constructor for the empty string where the code tests for it.
pub mod Services
use ninekube.Prelude.{ℕ, String, Bool, Option, List}

pub data ClientPlan : Type 0 where
  starter standard premium : ClientPlan

-- string(plan)
unfoldable pub plan_text : ClientPlan → String
plan_text starter = "starter"
plan_text standard = "standard"
plan_text premium = "premium"

pub data CertType : Type 0 where
  self_signed lets_encrypt secret_ref : CertType

pub record CertConfig : Type 0 where
  pub type : CertType
  pub secret_name : String
  pub issuer_ref : String

-- `corev1.SecretKeySelector`: the name of the Secret, and the key in it.
pub record SecretKeySelector : Type 0 where
  pub name : String
  pub key : String

pub record AdminConfig : Type 0 where
  pub email : String
  pub password_secret_ref : Option SecretKeySelector
  pub username : String

pub record StorageConfig : Type 0 where
  pub rustfs_bucket_prefix : String
  pub storage_class : Option String
  pub pvc_size : Option String
  pub rustfs_root_password : String
  pub postgres_root_password : String

-- `PostgreSQLSpec` and `RustFSSpec`.
pub record StatefulServiceSpec : Type 0 where
  pub enabled : Bool
  pub storage_size : Option String

-- `RedisSpec`, `NinegateSpec`, `GlauthSpec` and `DexSpec`.
pub record CoreServiceSpec : Type 0 where
  pub enabled : Bool

-- `NextcloudSpec`, `WordPressSpec` and `DolibarrSpec`.
pub record OptionalServiceSpec : Type 0 where
  pub enabled : Bool
  pub s3_primary_storage : Bool

pub record ServicesSpec : Type 0 where
  pub postgresql : Option StatefulServiceSpec
  pub redis : Option CoreServiceSpec
  pub rustfs : Option StatefulServiceSpec
  pub ninegate : Option CoreServiceSpec
  pub glauth : Option CoreServiceSpec
  pub dex : Option CoreServiceSpec
  pub nextcloud : Option OptionalServiceSpec
  pub wordpress : Option OptionalServiceSpec
  pub dolibarr : Option OptionalServiceSpec

pub record ClientNamespaceSpec : Type 0 where
  pub domain : String
  pub plan : ClientPlan
  pub cert : Option CertConfig
  pub admin : AdminConfig
  pub storage : Option StorageConfig
  pub services : Option ServicesSpec

-- `unset` is the empty string of a resource whose status was never written.
pub data ClientNamespacePhase : Type 0 where
  unset pending provisioning ready failed : ClientNamespacePhase

pub record ServiceStatus : Type 0 where
  pub name : String
  pub ready : Bool
  pub message : String

-- `metav1.ConditionStatus`
pub data ConditionStatus : Type 0 where
  condition_true condition_false condition_unknown : ConditionStatus

-- `metav1.Condition`
pub record Condition : Type 0 where
  pub type : String
  pub status : ConditionStatus
  pub last_transition_time : ℕ
  pub reason : String
  pub message : String

pub record ClientNamespaceStatus : Type 0 where
  pub phase : ClientNamespacePhase
  pub namespace : String
  pub endpoint : String
  pub admin_secret_name : String
  pub cert_secret_name : String
  pub services : List ServiceStatus
  pub conditions : List Condition

-- `types.NamespacedName`
pub record NamespacedName : Type 0 where
  pub name : String
  pub namespace : String

-- The metadata is what the code reads and writes of it. `resource_version` is what only the
-- API server sets and compares. `deleted` says that `DeletionTimestamp` is not zero.
pub record ClientNamespace : Type 0 where
  pub name : String
  pub namespace : String
  pub resource_version : ℕ
  pub deleted : Bool
  pub finalizers : List String
  pub spec : ClientNamespaceSpec
  pub status : ClientNamespaceStatus
