-- ===== src/Outcomes/Entries.antt =====
-- The entries of the status that the loop over the services leaves
-- (operator/internal/controller/clientnamespace_controller.go: Reconcile, updateServiceStatus,
-- serviceName).
use ninekube.Prelude.{ℕ, suc, String, ◌≡◌, refl, ◌∙◌, ap, true, some, List, [], ◌∷◌}
use ninekube.Exec.{ok, got, failed, Attempt, pure}
use ninekube.Exec.Moves.{Returns, Returns-bind, Returns-rest, Returns-pure}
use ninekube.Api.{ClientNamespace, ServiceStatus, NamespacedName}
use ninekube.World.{World}
use ninekube.World.Lawful.{Lawful, name_of}
use ninekube.Catalog.{OptionalService}
use ninekube.Controller.Labels.{ns_name}
use ninekube.Controller.Cleanup.{ServiceReconciler}
use ninekube.Controller.Status.{
  service_name, upsert_service, update_service_status, ready_status, mark_ready,
}
use ninekube.Controller.Reconcile.{
  with_namespace, with_admin_secret, service_outcome, reconcile_services, provision, reconcile,
}
use ninekube.Manager.{services}
use ninekube.Growth.Provision.{set_failed-Returns, reconcile_services-SamePlace}
use ninekube.Outcomes.Live.{IsOpen, reconcile-opened}
use ninekube.Outcomes.Present.{Returns-both, Returns-map}

abbrev pub is_up : String → ServiceStatus
is_up name = record { name = name; ready = true; message = "" }

-- What a run of the loop that comes to its end makes of the entries.
unfoldable entries :
    {W : World} (decimal : ℕ → String)
    → ℕ
    → List (ServiceReconciler W)
    → List ServiceStatus
    → List ServiceStatus
unfolding upsert_service
entries decimal i [] ss = ss
entries decimal i (svc ∷ services) ss =
    entries decimal (suc i) services (upsert_service (service_name decimal i) true "" ss)

-- The status that is stored has these entries.
abbrev pub StoredEntries :
    {W : World} → Lawful W → NamespacedName → List ServiceStatus → W.State → Type 0
StoredEntries L n ss s =
    (new : ClientNamespace) × (L.stored s n ≡ some new) × (new.status.services ≡ ss)

module _ {W : World} (L : Lawful W) (decimal : ℕ → String) (order : List OptionalService) where
  service_outcome-entry :
      (cn : ClientNamespace) (name : String) (r : Attempt (Unit {0}))
      → Returns
          (λ new _. new.status.services ≡ upsert_service name true "" cn.status.services)
          (service_outcome W decimal order cn name r)
  unfolding service_outcome update_service_status
  service_outcome-entry cn name (got u) =
      Returns-pure
        {P = λ (new : ClientNamespace).
          new.status.services ≡ upsert_service name true "" cn.status.services}
        _ refl
  service_outcome-entry cn name (failed e) =
      Returns-rest _ _ (λ updated. set_failed-Returns L decimal order _ _ e)

  reconcile_services-entries :
      (i : ℕ) (services : List (ServiceReconciler W)) (cn : ClientNamespace)
      → Returns
          (λ new _. new.status.services ≡ entries decimal i services cn.status.services)
          (reconcile_services W decimal order i services cn)
  unfolding reconcile_services entries
  reconcile_services-entries i [] cn =
      Returns-pure {P = λ (new : ClientNamespace). new.status.services ≡ cn.status.services} cn refl
  reconcile_services-entries i (svc ∷ services) cn = Returns-rest _ _ (λ r.
      Returns-bind _ _ (service_outcome-entry cn _ r) (λ new s last same done.
        (reconcile_services-entries (suc i) services new).at s last done
        ∙ ap (entries decimal (suc i) services) same))

  mark_ready-entries :
      (cn : ClientNamespace)
      → Returns (λ _. StoredEntries L (name_of cn) cn.status.services) (mark_ready W cn)
  mark_ready-entries cn =
      unfold mark_ready in
      Returns-rest _ _ (λ time.
        Returns-bind {P = λ _. StoredEntries L (name_of cn) cn.status.services} _ _
          (record {
            at = λ s new e.
                let law = L.update_status_ok _ s new e in
                (new, law.0, ap (λ status. status.services) law.1 ∙ (unfold ready_status in refl));
          })
          (λ updated s done there _. unfold pure in there))

  provision-entries :
      (services : List (ServiceReconciler W)) (cn : ClientNamespace)
      → Returns
          (λ _. StoredEntries L (name_of cn) (entries decimal 0 services cn.status.services))
          (provision W decimal order services cn)
  provision-entries services cn =
      let named = with_admin_secret (with_namespace cn (ns_name cn)) "admin-credentials" in
      unfold provision in
      Returns-rest _ _ (λ _. Returns-rest _ _ (λ _. Returns-rest _ _ (λ _.
        Returns-bind _ _
          (Returns-both _ (reconcile_services-SamePlace L decimal order 0 services named)
            (reconcile_services-entries 0 services named))
          (λ marked s u (same, entered) e.
            rw (← same.4, ← entered)
              ((Returns-rest _ _ (λ _. Returns-rest _ _ (λ _. mark_ready-entries marked))).at s u
                e)))))

  reconcile-StoredEntries :
      (request : NamespacedName) (s : W.State) (cn : ClientNamespace)
      → (W.get_client_namespace request s).0 ≡ ok cn
      → IsOpen cn
      → cn.status.services ≡ []
      → (reconcile W decimal order (services W order) request s).0 ≡ ok tt
      → StoredEntries L
          (name_of cn)
          (entries decimal 0 (services W order) [])
          (reconcile W decimal order (services W order) request s).1
  reconcile-StoredEntries request s cn fetched going none_yet done =
      reconcile-opened L decimal order (services W order) cn
        (StoredEntries L (name_of cn) (entries decimal 0 (services W order) [])) going
        (λ new (_, _, name, entered, _).
          Returns-map _ (λ _ t h. rw (← name, ← (entered ∙ none_yet)) h)
            (provision-entries (services W order) new))
        request s fetched done

  -- Where a call of `Reconcile` with the operator's six services returns without an error for a
  -- ClientNamespace that is live, not Ready and whose status has no entries for services, the status
  -- that is stored has six entries, all ready whichever of the services the spec enables, which are
  -- named Namespace, PostgreSQL, Redis, RustFS, Ninegate and Glauth.
  pub reconcile-entries :
      (request : NamespacedName) (s : W.State) (cn : ClientNamespace)
      → (W.get_client_namespace request s).0 ≡ ok cn
      → IsOpen cn
      → cn.status.services ≡ []
      → (reconcile W decimal order (services W order) request s).0 ≡ ok tt
      → (new : ClientNamespace) × (L.stored
            (reconcile W decimal order (services W order) request s).1
            (name_of cn)
          ≡ some new)
        × (new.status.services
            ≡ is_up "Namespace"
              ∷ is_up "PostgreSQL"
              ∷ is_up "Redis"
              ∷ is_up "RustFS"
              ∷ is_up "Ninegate"
              ∷ is_up "Glauth"
              ∷ [])
  unfolding services entries upsert_service service_name
  reconcile-entries = reconcile-StoredEntries
