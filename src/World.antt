-- ===== src/World.antt =====
-- What the operator calls and does not implement: the Kubernetes API through controller-runtime's
-- client, the clock, and Go's crypto packages. `State` is everything that such a call may change.
pub mod Lawful
pub mod Conditions
pub mod Healthy
pub mod Clearing
pub mod Grows
pub mod Permits
pub mod Storing
pub mod Adds
pub mod Memory
use ninekube.Prelude.{ℕ, String, StringMap, Bool, Option, List}
use ninekube.Exec.{Exec, Outcome}
use ninekube.Api.{ClientNamespace, NamespacedName}
use ninekube.Kube.{Kind, Key, Object}

pub data KeyUsage : Type 0 where
  cert_sign crl_sign key_encipherment digital_signature : KeyUsage

pub data ExtKeyUsage : Type 0 where
  server_auth client_auth : ExtKeyUsage

-- `x509.Certificate`, with the fields that the operator's templates set. Times are in seconds.
pub record Certificate : Type 0 where
  pub serial_number : Option ℕ
  pub common_name : String
  pub organization : List String
  pub not_before : ℕ
  pub not_after : ℕ
  pub key_usage : List KeyUsage
  pub ext_key_usage : List ExtKeyUsage
  pub basic_constraints_valid : Bool
  pub is_ca : Bool
  pub max_path_len : ℕ
  pub dns_names : List String

-- What `x509.ParsePKCS8PrivateKey` gives: an RSA key, or a key of another algorithm.
pub data AnyKey (K : Type 0) : Type 0 where
  rsa : K → AnyKey K
  other_key : AnyKey K

pub record World : Type 1 where
  pub State : Type 0
  pub PrivateKey : Type 0
  pub get : Key → Exec State Object
  pub create : Object → Exec State (Unit {0})
  pub delete : Key → Exec State (Unit {0})
  pub list : Kind → String → StringMap → Exec State (List Object)
  pub get_client_namespace : NamespacedName → Exec State ClientNamespace
  -- `Update` and `Status().Update` fill in the object that they were given.
  pub update : ClientNamespace → Exec State ClientNamespace
  pub update_status : ClientNamespace → Exec State ClientNamespace
  -- the helpers of `controllerutil`
  pub contains_finalizer : ClientNamespace → String → Bool
  pub add_finalizer : ClientNamespace → String → ClientNamespace
  pub remove_finalizer : ClientNamespace → String → ClientNamespace
  pub now : State → ℕ × State
  -- `rand.Int(rand.Reader, max)`
  pub rand_int : ℕ → Exec State ℕ
  pub generate_rsa_key : ℕ → Exec State PrivateKey
  -- template, parent (a pointer, which may be nil), the key whose public half is certified, the key that signs
  pub create_certificate :
      Certificate → Option Certificate → PrivateKey → PrivateKey → Exec State String
  pub parse_certificate : String → Outcome Certificate
  pub marshal_pkcs8 : PrivateKey → Outcome String
  pub parse_pkcs8 : String → Outcome (AnyKey PrivateKey)
  pub pem_encode : String → String → String
  pub pem_decode : String → Option String
