-- ===== src/Kube/Network.antt =====
-- Services, Ingresses, Traefik TCP routes and network policies, with the fields that are set.
use ninekube.Prelude.{ℕ, String, Bool, StringMap, List}
use ninekube.Kube.Workload.{IntOrString}

pub record ServicePort : Type 0 where
  pub name : String
  pub port : ℕ
  pub target_port : IntOrString

pub record ServiceSpec : Type 0 where
  pub selector : StringMap
  pub ports : List ServicePort

pub data PathType : Type 0 where
  prefix : PathType

pub record IngressPath : Type 0 where
  pub path : String
  pub path_type : PathType
  pub service : String
  pub port : ℕ

pub record IngressRule : Type 0 where
  pub host : String
  pub paths : List IngressPath

pub record IngressTls : Type 0 where
  pub hosts : List String
  pub secret_name : String

pub record IngressSpec : Type 0 where
  pub class_name : String
  pub tls : List IngressTls
  pub rules : List IngressRule

pub record RouteService : Type 0 where
  pub name : String
  pub port : ℕ

pub record TcpRoute : Type 0 where
  pub rule : String
  pub services : List RouteService

pub record IngressRouteTcpSpec : Type 0 where
  pub entry_points : List String
  pub routes : List TcpRoute
  pub passthrough : Bool

pub data PolicyType : Type 0 where
  ingress_policy egress_policy : PolicyType

pub record NetworkPolicySpec : Type 0 where
  pub pod_selector : StringMap
  pub policy_types : List PolicyType
