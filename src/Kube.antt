-- ===== src/Kube.antt =====
-- The Kubernetes objects that the operator reads and writes, with the fields that its Go literals
-- set. A field that a literal leaves out is its zero value.
pub mod Workload
pub mod Network
use Workload.{DeploymentSpec, StatefulSetSpec, PvcSpec}
use Network.{ServiceSpec, IngressSpec, IngressRouteTcpSpec, NetworkPolicySpec}
use ninekube.Prelude.{String, StringMap, lookup, List, [], ◌∷◌, Bool, true, false, ◌&&◌, none, some}
use ninekube.Prelude.{◌==◌, String-discrete}

pub record ObjectMeta : Type 0 where
  pub name : String
  pub namespace : String
  pub labels : StringMap
  pub annotations : StringMap

pub data SecretType : Type 0 where
  opaque tls : SecretType

-- `binary` is `Data`, whose values the code takes as texts; `string_data` is `StringData`.
pub record SecretSpec : Type 0 where
  pub type : SecretType
  pub binary : StringMap
  pub string_data : StringMap

pub data Body : Type 0 where
  namespace : Body
  secret : SecretSpec → Body
  config_map : StringMap → Body
  deployment : DeploymentSpec → Body
  stateful_set : StatefulSetSpec → Body
  service : ServiceSpec → Body
  pvc : PvcSpec → Body
  ingress : IngressSpec → Body
  ingress_route_tcp : IngressRouteTcpSpec → Body
  network_policy : NetworkPolicySpec → Body

pub data Kind : Type 0 where
  namespace_kind secret_kind config_map_kind deployment_kind stateful_set_kind service_kind : Kind
  pvc_kind ingress_kind ingress_route_tcp_kind network_policy_kind : Kind

unfoldable pub Kind-discrete : Discrete Kind
Kind-discrete = hlevel

abbrev pub kind_of : Body → Kind
kind_of namespace = namespace_kind
kind_of (secret _) = secret_kind
kind_of (config_map _) = config_map_kind
kind_of (deployment _) = deployment_kind
kind_of (stateful_set _) = stateful_set_kind
kind_of (service _) = service_kind
kind_of (pvc _) = pvc_kind
kind_of (ingress _) = ingress_kind
kind_of (ingress_route_tcp _) = ingress_route_tcp_kind
kind_of (network_policy _) = network_policy_kind

pub record Object : Type 0 where
  pub meta : ObjectMeta
  pub body : Body

-- What an object is found by. The namespace of a cluster-scoped object is empty.
pub record Key : Type 0 where
  pub kind : Kind
  pub namespace : String
  pub name : String

unfoldable pub Key-discrete : Discrete Key
unfolding Kind-discrete String-discrete
Key-discrete = hlevel (String-discrete, Kind-discrete)

abbrev pub key_of : Object → Key
key_of o = record { kind = kind_of o.body; namespace = o.meta.namespace; name = o.meta.name }

-- `secret.Data`: what a Secret holds once the API server has stored it.
abbrev pub secret_data : Body → StringMap
secret_data (secret s) = s.binary
secret_data _ = []

-- `client.MatchingLabels(wanted)`: every wanted label is there with its value.
unfoldable pub has_labels : StringMap → StringMap → Bool
unfolding lookup
has_labels labels [] = true
has_labels labels ((k, v) ∷ wanted) =
    elim (lookup k labels) [ none ↦ false | some w ↦ w == v ] && has_labels labels wanted
