-- ===== src/Growth/Provision.antt =====
-- `Grows` for Controller/Reconcile.antt: what one call of `Reconcile` may do to the cluster.
use ninekube.Prelude.{ℕ, suc, String, StringMap, ◌≡◌, refl, ◌∙◌, inr, List, [], ◌∷◌, All}
use ninekube.Exec.{Exec, Error, Attempt, got, failed, ◌>>=◌, ◌>>◌}
use ninekube.Exec.Moves.{
  Moves, Returns, Returns-bind, Returns-rest, Returns-raise, Returns-pure, Moves-attempt,
  Moves-bind-Returns,
}
use ninekube.Api.{ClientNamespace}
use ninekube.World.{World}
use ninekube.World.Lawful.{Lawful, name_of}
use ninekube.World.Grows.{Grows, Grows-IsPreorder, Grows-create}
use ninekube.World.Grows.Rules.{
  Grows-Permits, Grows-pure, Grows-raise, Grows-bind, Grows-update_status, Grows-now,
  Grows-for_each,
}
use ninekube.Catalog.{OptionalService, reconcile_optional_services}
use ninekube.Controller.Labels.{client_labels, ns_name, has_labels-client_labels}
use ninekube.Controller.Password.Moving.{get_or_create_password-Moves}
use ninekube.Controller.Status.{update_service_status, checked, set_failed, or_failed, mark_ready}
use ninekube.Ingress.{ensure_ingresses, ensure_network_policies}
use ninekube.Controller.Cleanup.{ServiceReconciler}
use ninekube.Controller.Reconcile.{
  with_namespace, with_admin_secret, ensure_namespace, namespace_object, service_failed,
  service_outcome, reconcile_services, provision_secrets, provision,
}
use ninekube.Growth.Secrets.{
  if_missing-Moves, ensure_admin_credentials-Moves, ensure_root_secrets-Moves,
  ensure_ninegate_secret-Moves,
}
use ninekube.Growth.Crypto.{ensure_ca-Moves, ensure_service_certs-Moves}
use ninekube.Growth.Network.{ensure_ingresses-Moves, ensure_network_policies-Moves}

module _ {W : World} (L : Lawful W) (ns : String) (cn : ClientNamespace) where
  pub ensure_namespace-Grows : Moves (Grows L ns (client_labels cn)) (ensure_namespace W cn ns)
  ensure_namespace-Grows =
      unfold ensure_namespace in
      if_missing-Moves (Grows-Permits L ns (client_labels cn)) _ _ (
        Grows-create L ns (client_labels cn) (namespace_object cn ns) (inr refl)
          (unfold namespace_object in has_labels-client_labels cn))

module _ {W : World} (L : Lawful W) (ns : String) (labels : StringMap) where
  pub set_failed-Grows :
      {A : Type 0} (cn : ClientNamespace) (reason : String) (e : Error)
      → Moves (Grows L ns labels) (set_failed W {A = A} cn reason e)
  set_failed-Grows cn reason e =
      unfold set_failed in
      Grows-bind L ns labels _ _ (Grows-now L ns labels) (λ time.
        Grows-bind L ns labels _ _ (Moves-attempt _ (Grows-update_status L ns labels _))
          (λ logged. Grows-raise L ns labels e))

  pub checked-Grows :
      {A : Type 0} (cn : ClientNamespace) (reason : String) (r : Attempt A)
      → Moves (Grows L ns labels) (checked W cn reason r)
  checked-Grows cn reason (got a) = Grows-pure L ns labels a
  checked-Grows cn reason (failed e) = set_failed-Grows cn reason e

  pub or_failed-Grows :
      {A : Type 0} (cn : ClientNamespace) (reason : String) (step : Exec W.State A)
      → Moves (Grows L ns labels) step
      → Moves (Grows L ns labels) (or_failed W cn reason step)
  unfolding or_failed
  or_failed-Grows cn reason step h =
      Grows-bind L ns labels _ _ (Moves-attempt step h) (λ r. checked-Grows cn reason r)

  pub mark_ready-Grows : (cn : ClientNamespace) → Moves (Grows L ns labels) (mark_ready W cn)
  mark_ready-Grows cn =
      unfold mark_ready in
      Grows-bind L ns labels _ _ (Grows-now L ns labels) (λ time.
        Grows-bind L ns labels _ _ (Grows-update_status L ns labels _)
          (λ updated. Grows-pure L ns labels tt))

  pub reconcile_optional_services-Grows :
      (order : List OptionalService) (cn : ClientNamespace)
      → Moves (Grows L ns labels) (reconcile_optional_services order cn)
  unfolding reconcile_optional_services
  reconcile_optional_services-Grows order cn =
      Grows-for_each L ns labels order _ (λ _. Grows-pure L ns labels tt)

-- A reconciler keeps to the namespace that the status names, and to the client's labels.
abbrev pub IsGrowing : {W : World} → Lawful W → ServiceReconciler W → Type 0
IsGrowing L svc =
    (cn : ClientNamespace)
    → Moves (Grows L cn.status.namespace (client_labels cn)) (svc.reconcile cn)

-- The resource of the same client: what the loop over the services leaves alone.
abbrev pub SamePlace : ClientNamespace → ClientNamespace → Type 0
SamePlace cn new =
    (new.status.namespace ≡ cn.status.namespace)
    × (client_labels new ≡ client_labels cn)
    × (new.spec ≡ cn.spec)
    × (new.status.conditions ≡ cn.status.conditions)
    × (name_of new ≡ name_of cn)
    × (new.deleted ≡ cn.deleted)
    × (new.finalizers ≡ cn.finalizers)

module _ {W : World} (L : Lawful W) (decimal : ℕ → String) (order : List OptionalService) where
  pub set_failed-Returns :
      {A : Type 0} {P : A → W.State → Type 0} (cn : ClientNamespace) (reason : String) (e : Error)
      → Returns P (set_failed W cn reason e)
  set_failed-Returns cn reason e =
      unfold set_failed in Returns-rest _ _ (λ time. Returns-rest _ _ (λ logged. Returns-raise e))

  service_failed-Grows :
      {A : Type 0} (ns : String) (labels : StringMap) (cn : ClientNamespace) (name : String)
      (e : Error)
      → Moves (Grows L ns labels) (service_failed W decimal order {A = A} cn name e)
  service_failed-Grows ns labels cn name e =
      unfold service_failed in
      Grows-bind L ns labels _ _ (Moves-attempt _ (Grows-update_status L ns labels _))
        (λ updated. set_failed-Grows L ns labels _ _ e)

  service_outcome-Grows :
      (ns : String) (labels : StringMap) (cn : ClientNamespace) (name : String)
      (r : Attempt (Unit {0}))
      → Moves (Grows L ns labels) (service_outcome W decimal order cn name r)
  unfolding service_outcome
  service_outcome-Grows ns labels cn name (got u) = Grows-pure L ns labels _
  service_outcome-Grows ns labels cn name (failed e) = service_failed-Grows ns labels cn name e

  pub service_outcome-SamePlace :
      (cn : ClientNamespace) (name : String) (r : Attempt (Unit {0}))
      → Returns (λ new _. SamePlace cn new) (service_outcome W decimal order cn name r)
  unfolding service_outcome update_service_status client_labels
  service_outcome-SamePlace cn name (got u) =
      Returns-pure {P = SamePlace cn} _ (refl, refl, refl, refl, refl, refl, refl)
  service_outcome-SamePlace cn name (failed e) =
      Returns-rest _ _ (λ updated. set_failed-Returns _ _ e)

  pub reconcile_services-Grows :
      (i : ℕ) (services : List (ServiceReconciler W)) (cn : ClientNamespace)
      → All (IsGrowing L) services
      → Moves
          (Grows L cn.status.namespace (client_labels cn))
          (reconcile_services W decimal order i services cn)
  unfolding reconcile_services
  reconcile_services-Grows i [] cn h = Grows-pure L _ _ cn
  reconcile_services-Grows i (svc ∷ services) cn (h, hs) =
      Grows-bind L _ _ _ _ (Moves-attempt _ (h cn)) (λ r.
        Moves-bind-Returns (Grows-IsPreorder L _ _) _ _ (service_outcome-Grows _ _ cn _ r)
          (service_outcome-SamePlace cn _ r)
          (λ new same. rw (← same.1, ← same.0) (reconcile_services-Grows (suc i) services new hs)))

  pub reconcile_services-SamePlace :
      (i : ℕ) (services : List (ServiceReconciler W)) (cn : ClientNamespace)
      → Returns (λ new _. SamePlace cn new) (reconcile_services W decimal order i services cn)
  unfolding reconcile_services
  reconcile_services-SamePlace i [] cn =
      Returns-pure {P = SamePlace cn} cn (refl, refl, refl, refl, refl, refl, refl)
  reconcile_services-SamePlace i (svc ∷ services) cn = Returns-rest _ _ (λ r.
      Returns-bind _ _ (service_outcome-SamePlace cn _ r) (λ new s last same done.
        let next = (reconcile_services-SamePlace (suc i) services new).at s last done in
        (
          next.0 ∙ same.0,
          next.1 ∙ same.1,
          next.2 ∙ same.2,
          next.3 ∙ same.3,
          next.4 ∙ same.4,
          next.5 ∙ same.5,
          next.6 ∙ same.6,
        )))

module _ {W : World} (L : Lawful W) (decimal : ℕ → String) (order : List OptionalService) where
  pub provision_secrets-Grows :
      (cn : ClientNamespace) (ns : String)
      → Moves (Grows L ns (client_labels cn)) (provision_secrets W decimal order cn ns)
  provision_secrets-Grows cn ns =
      let labels = client_labels cn in
      unfold provision_secrets in
      Grows-bind L ns labels _ _
        (get_or_create_password-Moves (Grows-Permits L ns labels) _ _ _ _ _ _)
        (λ pg.
          Grows-bind L ns labels _ _
            (get_or_create_password-Moves (Grows-Permits L ns labels) _ _ _ _ _ _)
            (λ s3.
              Grows-bind L ns labels _ _
                (or_failed-Grows L ns labels cn _ _
                  (ensure_root_secrets-Moves cn ns (Grows-Permits L ns (client_labels cn)) pg s3))
                (λ _.
                  Grows-bind L ns labels _ _
                    (or_failed-Grows L ns labels cn _ _ (
                      ensure_ninegate_secret-Moves cn ns (Grows-Permits L ns (client_labels cn)) pg
                        s3))
                    (λ _.
                      Grows-bind L ns labels _ _
                        (or_failed-Grows L ns labels cn _ _
                          (ensure_ca-Moves cn ns (Grows-Permits L ns (client_labels cn))))
                        (λ _.
                          Grows-bind L ns labels _ _
                            (or_failed-Grows L ns labels cn _ _ (
                              ensure_service_certs-Moves cn ns
                                (Grows-Permits L ns (client_labels cn))))
                            (λ _.
                              or_failed-Grows L ns labels cn _ _
                                (reconcile_optional_services-Grows L ns labels order cn)))))))

  -- The end of the provisioning, once the services are reconciled.
  pub finish-Grows :
      (cn : ClientNamespace) (ns : String)
      → Moves (Grows L ns (client_labels cn)) (
          or_failed W cn "IngressFailed" (ensure_ingresses W cn ns)
          >> (or_failed W cn "NetworkPolicyFailed" (ensure_network_policies W cn ns)
              >> mark_ready W cn))
  finish-Grows cn ns =
      let labels = client_labels cn in
      Grows-bind L ns labels _ _
        (or_failed-Grows L ns labels cn _ _
          (ensure_ingresses-Moves cn ns (Grows-Permits L ns (client_labels cn))))
        (λ _.
          Grows-bind L ns labels _ _
            (or_failed-Grows L ns labels cn _ _
              (ensure_network_policies-Moves cn ns (Grows-Permits L ns (client_labels cn))))
            (λ _. mark_ready-Grows L ns labels cn))

  -- The services and all that follows them, for a resource with its namespace in the status.
  pub services-finish-Grows :
      (services : List (ServiceReconciler W)) (cn : ClientNamespace) (ns : String)
      → ns ≡ cn.status.namespace
      → All (IsGrowing L) services
      → Moves (Grows L ns (client_labels cn)) (
          reconcile_services W decimal order 0 services cn >>= λ marked.
          or_failed W marked "IngressFailed" (ensure_ingresses W marked ns)
          >> (or_failed W marked "NetworkPolicyFailed" (ensure_network_policies W marked ns)
              >> mark_ready W marked))
  services-finish-Grows services cn ns here h =
      Moves-bind-Returns (Grows-IsPreorder L ns (client_labels cn)) _ _
        (rw here (reconcile_services-Grows L decimal order 0 services cn h))
        (reconcile_services-SamePlace L decimal order 0 services cn)
        (λ marked same. rw same.1 at (finish-Grows marked ns))

  pub provision-Grows :
      (services : List (ServiceReconciler W)) (cn : ClientNamespace)
      → All (IsGrowing L) services
      → Moves (Grows L (ns_name cn) (client_labels cn)) (provision W decimal order services cn)
  unfolding client_labels
  provision-Grows services cn h =
      let ns : String = ns_name cn in
      let labels = client_labels cn in
      let placed = with_namespace cn ns in
      let named = with_admin_secret placed "admin-credentials" in
      unfold provision in
      Grows-bind L ns labels _ _
        (or_failed-Grows L ns labels cn _ _ (ensure_namespace-Grows L ns cn))
        (λ _.
          Grows-bind L ns labels _ _
            (or_failed-Grows L ns labels placed _ _ (
              ensure_admin_credentials-Moves placed ns (Grows-Permits L ns (client_labels placed))))
            (λ _.
              Grows-bind L ns labels _ _ (provision_secrets-Grows named ns)
                (λ _. services-finish-Grows services named ns refl h)))
