-- ===== src/Lib.antt =====
-- The Kubernetes operator of ninekube, which provisions one isolated set of services for each
-- resource of the kind ClientNamespace.
--
-- The parts and their files:
-- - Api: the types of operator/api/v1alpha1/clientnamespace_types.go (ClientNamespaceSpec,
--   ClientNamespaceStatus, the phases), and the tests of the optional parts of the spec.
-- - Controller: operator/internal/controller/clientnamespace_controller.go. Reconcile has Reconcile
--   and ensureNamespace, Status has setFailed, updateServiceStatus and the final Ready, Secrets and
--   Password have the ensure...Secret methods and the random passwords, Cleanup has reconcileDelete
--   and cleanupClientResources, Ensure has the test that every ensure... method opens with, Labels
--   has clientLabels, Certificates has ensureCertificates and its two helpers, which nothing calls.
--   Domain has replaceDotsWithDC of glauth_controller.go.
-- - Ca: operator/internal/controller/ca.go, and generateRSASelfSignedCert of dex_controller.go.
-- - Catalog: operator/internal/controller/catalog.go and reconcileOptionalServices.
-- - Certs and Ingress: operator/internal/controller/ingress.go.
-- - Services: redis_controller.go, rustfs_controller.go, postgresql_controller.go,
--   ninegate_controller.go, glauth_controller.go and dex_controller.go of the same directory, each
--   with Reconcile, Cleanup and the objects that it creates. Manager: the list of them in
--   operator/cmd/main.go, and in Manager/Options what its main makes of the flags and starts.
-- - Kube: the Kubernetes objects, with the fields that the operator sets.
-- - Exec: functions that return `error` and act on the outside world, as functions of a state that
--   give a value, an error or a panic, and the state afterwards; Exec/Moves has the rules that
--   proofs about them use.
-- - World: what the operator calls and does not implement, as a parameter: the client of
--   controller-runtime, the finalizer helpers, the clock, and Go's crypto packages. World/Lawful
--   states what the proofs rely on of it, the documented behaviour of the API server while no other
--   client writes to the objects in question, and World/Memory is a concrete cluster that keeps
--   these laws. World/Permits states which relations between clusters provisioning may move along,
--   and World/Grows is the one that it keeps to. World/Adds is a relation for
--   proofs that need to know more of what is added, and World/Storing states what the proofs rely on
--   of the stored resource.
--   World/Healthy states what holds on a good day, when every call that the API server and the
--   crypto packages can serve is served: not an update of a copy whose version is no longer the
--   stored one, nor of conditions that the resource's schema refuses (World/Conditions, from
--   operator/config/crd/bases), nor a TLS Secret without its keys. World/Clearing states what holds
--   where deletions go through at once.
-- - Growth, Outcomes, Phases, Progress, Isolation, Ca/RoundTrip, Ca/Issued, Certs/Hosts,
--   Certs/Served, Controller/Password/Bounds,
--   Controller/Status/Entries, Controller/Certificates/Copy, Controller/Domain/Names,
--   Services/Wiring, Services/Ninegate/Wiring, Manager/Start and Services/Postgres/Init: the
--   proofs. Growth is about what a call may change, Outcomes about what a call that returned has
--   done, Phases about the state machine of the stored phase and the retries of the work queue,
--   Progress about calls on a good day. Examples: concrete clients and clusters.
--
-- Reconcile fetches the resource, adds the finalizer, creates the Namespace and the Secrets, calls
-- each service in turn, creates the ingresses and policies, and stores the phase Ready. A step that
-- fails is recorded in the status by setFailed, whose error ends the call. The methods of the
-- services take the resource and act on the cluster only.
--
-- Parameters beside the world: `decimal` and `quote` are the `%d` and `%q` of Go's fmt, and `order`
-- is the order in which a run goes through a Go map of the optional services. Loops are recursion on
-- lists, so there is no fuel; the calls of the work queue in Phases/Retry are counted, and what is
-- proved of them holds for each count. A label map is a list of pairs; no code iterates over one.
-- Logging is left out, as are the results of ctrl.Result, which are always empty.
--
-- Not modelled: SetupWithManager, which registers the reconciler with controller-runtime; the parsing
-- of flags; generated code, tests, shell scripts and YAML, but for the schema of the conditions.
pub mod Prelude
pub mod Exec
pub mod Api
pub mod Kube
pub mod World
pub mod Controller
pub mod Ca
pub mod Catalog
pub mod Certs
pub mod Ingress
pub mod Services
pub mod Manager
pub mod Growth
pub mod Examples
pub mod Outcomes
pub mod Phases
pub mod Isolation
pub mod Progress
