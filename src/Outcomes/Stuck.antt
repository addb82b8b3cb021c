-- ===== src/Outcomes/Stuck.antt =====
-- Resources that no call of `Reconcile` brings to Ready: what
-- operator/internal/controller/clientnamespace_controller.go does with them.
use ninekube.Prelude.{ℕ, String, ◌≡◌, refl, sym, ◌∙◌, ap, none, inl, inr, List, [], ◌∷◌, ◌++◌}
use ninekube.Exec.{ok}
use ninekube.Exec.Moves.{Returns, Returns-bind, Returns-rest, Returns-crash, Returns-never}
use ninekube.Api.{ClientNamespace, Condition, NamespacedName}
use ninekube.World.{World}
use ninekube.World.Lawful.{Lawful, NewType, UniqueTypes}
use ninekube.Certs.{ensure_service_certs, service_certs}
use ninekube.Catalog.{OptionalService}
use ninekube.Controller.Status.{ready_condition, ready_status, mark_ready}
use ninekube.Controller.Cleanup.{ServiceReconciler}
use ninekube.Controller.Reconcile.{provision_secrets, provision, reconcile}
use ninekube.Growth.Provision.{reconcile_services-SamePlace}
use ninekube.Outcomes.Live.{IsOpen, reconcile-opened}
use ninekube.Outcomes.Failure.{HasReady, or_failed-never}

-- A type that is there already is not new.
NewType-append :
    (c new : Condition) (cs : List Condition) → c.type ≡ new.type → NewType c (cs ++ new ∷ []) → ⊥
NewType-append c new [] e (h, _) = h (sym e)
NewType-append c new (d ∷ cs) e (h, hs) = NewType-append c new cs e hs

pub append-UniqueTypes :
    (new : Condition) (cs : List Condition)
    → new.type ≡ "Ready"
    → HasReady cs
    → UniqueTypes (cs ++ new ∷ [])
    → ⊥
append-UniqueTypes new [] e h u = h
append-UniqueTypes new (c ∷ cs) e (inl r) (h, hs) = NewType-append c new cs (r ∙ sym e) h
append-UniqueTypes new (c ∷ cs) e (inr r) (h, hs) = append-UniqueTypes new cs e r hs

module _ {W : World} (L : Lawful W) where
  mark_ready-never :
      (cn : ClientNamespace) → HasReady cn.status.conditions → Returns (λ _ _. ⊥) (mark_ready W cn)
  mark_ready-never cn h =
      unfold mark_ready in
      Returns-rest _ _ (λ time. Returns-never _ _ (record {
        at = λ s new e.
            unfold ready_status in
            append-UniqueTypes (ready_condition time) cn.status.conditions
              (unfold ready_condition in refl) h
              (unfold ready_condition ready_status in (L.update_status_ok _ s new e).4);
      }))

  ensure_service_certs-never :
      (cn : ClientNamespace) (ns : String)
      → cn.spec.services ≡ none
      → Returns (λ _ _. ⊥) (ensure_service_certs W cn ns)
  ensure_service_certs-never cn ns h =
      unfold ensure_service_certs in
      Returns-rest _ _ (λ ca. Returns-never _ _ (unfold service_certs in rw h Returns-crash))

module _ {W : World} (L : Lawful W) (decimal : ℕ → String) (order : List OptionalService) where
  provision_secrets-never :
      (cn : ClientNamespace) (ns : String)
      → cn.spec.services ≡ none
      → Returns (λ _ _. ⊥) (provision_secrets W decimal order cn ns)
  provision_secrets-never cn ns h =
      unfold provision_secrets in
      Returns-rest _ _ (λ pg. Returns-rest _ _ (λ rustfs. Returns-rest _ _ (λ a.
        Returns-rest _ _ (λ b. Returns-rest _ _ (λ c.
          Returns-never _ _
            (or_failed-never L decimal order cn _ _ (ensure_service_certs-never L cn ns h)))))))

  provision-never :
      (services : List (ServiceReconciler W)) (cn : ClientNamespace)
      → cn.spec.services ≡ none
      → Returns (λ _ _. ⊥) (provision W decimal order services cn)
  provision-never services cn h =
      unfold provision in
      Returns-rest _ _
        (λ a. Returns-rest _ _ (λ b. Returns-never _ _ (provision_secrets-never _ _ h)))

  provision-stuck :
      (services : List (ServiceReconciler W)) (cn : ClientNamespace)
      → HasReady cn.status.conditions
      → Returns (λ _ _. ⊥) (provision W decimal order services cn)
  provision-stuck services cn h =
      unfold provision in
      Returns-rest _ _ (λ a. Returns-rest _ _ (λ b. Returns-rest _ _ (λ c.
        Returns-bind _ _ (reconcile_services-SamePlace L decimal order 0 services _)
          (λ marked s u same e.
            (Returns-rest _ _
                (λ d. Returns-rest _ _ (λ f. mark_ready-never L marked (rw same.3 h)))).at
              s u e))))

  -- A ClientNamespace that is live, not Ready and has a condition of the type Ready, as `setFailed`
  -- leaves it, with the finalizer or without it, is never reconciled without an error: the end of
  -- `Reconcile` appends a second condition of that type, which the API server rejects.
  pub reconcile-stuck :
      (services : List (ServiceReconciler W)) (request : NamespacedName) (s : W.State)
      (cn : ClientNamespace)
      → (W.get_client_namespace request s).0 ≡ ok cn
      → IsOpen cn
      → HasReady cn.status.conditions
      → ¬ ((reconcile W decimal order services request s).0 ≡ ok tt)
  reconcile-stuck services request s cn fetched going h done =
      reconcile-opened L decimal order services cn (λ _. ⊥) going
        (λ new same. provision-stuck services new (rw same.1 h)) request s fetched done

  -- A ClientNamespace that is live, not Ready and whose spec has no `services`, with the finalizer
  -- or without it, is never reconciled without an error or a panic.
  pub reconcile-no_services :
      (services : List (ServiceReconciler W)) (request : NamespacedName) (s : W.State)
      (cn : ClientNamespace)
      → (W.get_client_namespace request s).0 ≡ ok cn
      → IsOpen cn
      → cn.spec.services ≡ none
      → ¬ ((reconcile W decimal order services request s).0 ≡ ok tt)
  reconcile-no_services services request s cn fetched going h done =
      reconcile-opened L decimal order services cn (λ _. ⊥) going
        (λ new same. provision-never services new (ap (λ spec. spec.services) same.0 ∙ h)) request s
        fetched done
