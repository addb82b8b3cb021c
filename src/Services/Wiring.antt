-- ===== src/Services/Wiring.antt =====
-- How the objects of the six service controllers and the ingresses fit together: the *_controller.go
-- files and ingress.go of operator/internal/controller.
use ninekube.Prelude.{
  ℕ, String, StringMap, ◌≡◌, refl, ◌==◌, Bool, true, false, ◌&&◌, ◌||◌, Option, some, List, [], ◌∷◌,
  ◌++◌, map, All, inl, inr, Bool-cases, if◌then◌else◌,
}
use ninekube.Prelude.Order
use ninekube.Exec.{ok, pure}
use ninekube.Api.{ClientNamespace, ServicesSpec}
use ninekube.Api.Services.{optional_enabled}
use ninekube.Kube.{Object, Body, deployment, stateful_set, service, ingress, has_labels}
use ninekube.Kube.Workload.{
  Container, ContainerPort, IntOrString, from_string, from_int, VolumeMount, Volume, ClaimTemplate,
  PodTemplate,
}
use ninekube.Kube.Network.{ServicePort, ServiceSpec, IngressRule, IngressPath}
use ninekube.Controller.Labels.{app_labels}
use ninekube.Ingress.{IngressDef, ingress_defs, ingress_object}
use ninekube.Services.Postgres
use ninekube.Services.Redis
use ninekube.Services.RustFs
use ninekube.Services.Ninegate
use ninekube.Services.Glauth
use ninekube.Services.Dex

-- A test that some, or each, entry of a list passes.
unfoldable exists : {A : Type 0} → (A → Bool) → List A → Bool
exists p [] = false
exists p (a ∷ rest) = p a || exists p rest

unfoldable each : {A : Type 0} → (A → Bool) → List A → Bool
each p [] = true
each p (a ∷ rest) = p a && each p rest

-- The target of a Service's port is a port of one of the containers.
unfoldable is_port : IntOrString → ContainerPort → Bool
is_port (from_string name) p = p.name == name
is_port (from_int number) p = Order.◌==◌ p.container_port number

unfoldable is_served : List Container → ServicePort → Bool
unfolding exists is_port
is_served containers p =
    exists (λ (c : Container). exists (is_port p.target_port) c.ports) containers

-- The volumes that a pod has, by name: its own and those of its claims.
unfoldable is_mounted : List String → Container → Bool
unfolding exists each
is_mounted volumes c = each (λ (m : VolumeMount). exists (λ v. v == m.name) volumes) c.volume_mounts

-- The pods of a workload have the labels that the workload and the Service select by, the ports that
-- the Service forwards to, and the volumes that their containers mount.
unfoldable is_wired : StringMap → PodTemplate → List String → ServiceSpec → Bool
unfolding has_labels each is_served is_mounted
is_wired selector pod claims s =
    has_labels pod.labels selector
    && (has_labels pod.labels s.selector
        && (each (is_served pod.spec.containers) s.ports
            && each (is_mounted (map (λ (v : Volume). v.name) pod.spec.volumes ++ claims))
                (pod.spec.init_containers ++ pod.spec.containers)))

unfoldable pub is_linked : Body → Body → Bool
unfolding is_wired
is_linked (deployment d) (service s) = is_wired d.selector d.template [] s
is_linked (stateful_set d) (service s) =
    is_wired d.selector d.template (map (λ (c : ClaimTemplate). c.name) d.volume_claim_templates) s
is_linked _ _ = false

-- The workload and the Service of each controller.
unfoldable pub workloads : ClientNamespace → String → Option String → List (Object × Object)
workloads cn ns size =
    (Postgres.stateful_set_object cn ns size, Postgres.service_object cn ns)
    ∷ (Redis.deployment_object cn ns, Redis.service_object cn ns)
    ∷ (RustFs.deployment_object cn ns, RustFs.service_object cn ns)
    ∷ (Ninegate.deployment_object cn ns, Ninegate.service_object cn ns)
    ∷ (Glauth.deployment_object cn ns, Glauth.service_object cn ns)
    ∷ (Dex.deployment_object cn ns, Dex.service_object cn ns)
    ∷ []

-- For every resource, namespace and size, the Service of each of the six controllers selects the pods
-- of that controller's workload, which the workload selects too; it forwards to ports that a container
-- of theirs has; and every volume that a container mounts is a volume of its pod.
pub workloads-linked :
    (cn : ClientNamespace) (ns : String) (size : Option String)
    → All (λ (w : Object × Object). is_linked w.0.body w.1.body ≡ true) (workloads cn ns size)
unfolding workloads is_linked is_wired has_labels each exists is_served is_port is_mounted
    app_labels Postgres.stateful_set_object Redis.deployment_object RustFs.deployment_object
    Ninegate.deployment_object Glauth.deployment_object Dex.deployment_object
    Postgres.service_object Redis.service_object RustFs.service_object Ninegate.service_object
    Glauth.service_object Dex.service_object
workloads-linked cn ns size = (refl, (refl, (refl, (refl, (refl, (refl, tt))))))

-- A Service offers the port.
unfoldable has_port : ℕ → Body → Bool
unfolding exists
has_port number (service s) = exists (λ (p : ServicePort). Order.◌==◌ p.port number) s.ports
has_port number _ = false

-- The Service of each backend of an ingress is one of the objects, and offers the backend's port.
unfoldable is_backed : List Object → Body → Bool
unfolding exists each has_port
is_backed objects (ingress spec) =
    each
      (λ (rule : IngressRule).
        each
          (λ (path : IngressPath).
            exists (λ (o : Object). o.meta.name == path.service && has_port path.port o.body)
              objects)
          rule.paths)
      spec.rules
is_backed objects _ = false

-- The ingresses that `ensureIngress` makes whose backend is none of the objects, by name.
unfoldable pub unbacked :
    ClientNamespace → String → String → List Object → List IngressDef → List String
unfolding is_backed
unbacked cn ns issuer objects [] = []
unbacked cn ns issuer objects (d ∷ defs) =
    let others = unbacked cn ns issuer objects defs in
    if is_backed objects (ingress_object cn ns d.name d.host d.path d.port d.tls issuer).body
    then others
    else d.name ∷ others

abbrev if_on : Bool → String → List String
if_on b name = if b then name ∷ [] else []

-- The optional services that the spec enables.
abbrev pub optional_names : ServicesSpec → List String
optional_names sv =
    if_on (optional_enabled sv.nextcloud) "nextcloud"
    ++ (if_on (optional_enabled sv.wordpress) "wordpress"
        ++ if_on (optional_enabled sv.dolibarr) "dolibarr")

-- The ingresses of a client whose backend is none of the Services of the six controllers, with the
-- backend's port, are rustfs-api and those of the optional services that its spec enables; the others
-- have their Service.
pub ingresses-unbacked :
    {S : Type 0} (cn : ClientNamespace) (ns domain issuer : String) (size : Option String)
    (sv : ServicesSpec) (s : S)
    → (defs : List IngressDef) × ((ingress_defs domain (some sv) s).0 ≡ ok defs)
      × (unbacked cn ns issuer (map (λ (w : Object × Object). w.1) (workloads cn ns size)) defs
          ≡ "rustfs-api" ∷ optional_names sv)
unfolding ingress_defs pure workloads unbacked is_backed ingress_object each exists has_port
    Postgres.service_object Redis.service_object RustFs.service_object Ninegate.service_object
    Glauth.service_object Dex.service_object
ingresses-unbacked cn ns domain issuer size sv s = (
  _,
  refl,
  elim (Bool-cases (optional_enabled sv.nextcloud)) [
    | inl a ↦ elim (Bool-cases (optional_enabled sv.wordpress)) [
      | inl b ↦ elim (Bool-cases (optional_enabled sv.dolibarr)) [
        | inl c ↦ rw (a, b, c)
        | inr c ↦ rw (a, b, c)
      ]
      | inr b ↦ elim (Bool-cases (optional_enabled sv.dolibarr)) [
        | inl c ↦ rw (a, b, c)
        | inr c ↦ rw (a, b, c)
      ]
    ]
    | inr a ↦ elim (Bool-cases (optional_enabled sv.wordpress)) [
      | inl b ↦ elim (Bool-cases (optional_enabled sv.dolibarr)) [
        | inl c ↦ rw (a, b, c)
        | inr c ↦ rw (a, b, c)
      ]
      | inr b ↦ elim (Bool-cases (optional_enabled sv.dolibarr)) [
        | inl c ↦ rw (a, b, c)
        | inr c ↦ rw (a, b, c)
      ]
    ]
  ],
)
