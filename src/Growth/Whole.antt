-- ===== src/Growth/Whole.antt =====
-- What one call of `Reconcile` on a live resource does to the cluster, with the services of
-- cmd/main.go.
use ninekube.Prelude.{ℕ, String, StringMap, ◌≡◌, refl, ◌∙◌, ap, false, List, All}
use ninekube.Exec.{Outcome, attempted, continue, ok, attempt, pure, ◌>>=◌}
use ninekube.Exec.Moves.{Moves, Returns, Returns-pure, Returns-if, Moves-if, Moves-bind-Returns}
use ninekube.Api.{ClientNamespace, provisioning, NamespacedName}
use ninekube.World.{World}
use ninekube.World.Lawful.{Lawful}
use ninekube.World.Grows.{Grows, Grows-IsPreorder}
use ninekube.World.Grows.Rules.{
  Grows-Permits, Grows-pure, Grows-update, Grows-update_status, Grows-get_client_namespace,
}
use ninekube.Catalog.{OptionalService}
use ninekube.Controller.Labels.{client_labels, client_labels_of_name, ns_name}
use ninekube.Controller.Cleanup.{finalizer_name}
use ninekube.Controller.Reconcile.{
  with_phase, is_new, is_ready, ensure_finalizer, start_provisioning, provision, reconcile_phase,
  reconcile_fetched, reconcile,
}
use ninekube.Growth.Provision.{IsGrowing, provision-Grows}
use ninekube.Growth.Every.{services-Moves}
use ninekube.Manager.{services}

-- The resource of the same name: its namespace and labels are the same.
abbrev SameName : ClientNamespace → ClientNamespace → Type 0
SameName cn new = new.name ≡ cn.name

module _ {W : World} (L : Lawful W) (decimal : ℕ → String) (order : List OptionalService) where
  pub services-IsGrowing : All (IsGrowing L) (services W order)
  services-IsGrowing =
      services-Moves (λ cn. Grows L cn.status.namespace (client_labels cn))
        (λ cn. Grows-Permits L cn.status.namespace (client_labels cn)) order

  start_provisioning-Grows :
      (ns : String) (labels : StringMap) (cn : ClientNamespace)
      → Moves (Grows L ns labels) (start_provisioning W cn)
  start_provisioning-Grows ns labels cn =
      unfold start_provisioning in
      Moves-if (is_new cn.status.phase) (W.update_status (with_phase cn provisioning)) (pure cn)
        (λ _. Grows-update_status L ns labels _) (λ _. Grows-pure L ns labels cn)

  ensure_finalizer-Grows :
      (ns : String) (labels : StringMap) (cn : ClientNamespace)
      → Moves (Grows L ns labels) (ensure_finalizer W cn)
  ensure_finalizer-Grows ns labels cn =
      unfold ensure_finalizer in
      Moves-if (W.contains_finalizer cn finalizer_name) (pure cn)
        (W.update (W.add_finalizer cn finalizer_name)) (λ _. Grows-pure L ns labels cn)
        (λ _. Grows-update L ns labels _)

  start_provisioning-SameName :
      (cn : ClientNamespace) → Returns (λ new _. SameName cn new) (start_provisioning W cn)
  start_provisioning-SameName cn =
      unfold start_provisioning in
      Returns-if (is_new cn.status.phase) (W.update_status (with_phase cn provisioning)) (pure cn)
        (λ _. record { at = λ s new done. ap (λ n. n.name) (L.update_status_ok _ s new done).3 })
        (λ _. Returns-pure {P = SameName cn} cn refl)

  ensure_finalizer-SameName :
      (cn : ClientNamespace) → Returns (λ new _. SameName cn new) (ensure_finalizer W cn)
  ensure_finalizer-SameName cn =
      unfold ensure_finalizer in
      Returns-if (W.contains_finalizer cn finalizer_name) (pure cn)
        (W.update (W.add_finalizer cn finalizer_name)) (λ _. Returns-pure {P = SameName cn} cn refl)
        (λ _. record {
          at = λ s new done.
              ap (λ n. n.name)
                ((L.update_ok _ s new done).1 ∙ (L.add_finalizer_ok cn finalizer_name).2);
        })

  provision_of_name :
      (cn new : ClientNamespace)
      → SameName cn new
      → Moves
          (Grows L (ns_name cn) (client_labels cn))
          (provision W decimal order (services W order) new)
  provision_of_name cn new same =
      rw (← client_labels_of_name new cn same, ← same)
        (provision-Grows L decimal order (services W order) new services-IsGrowing)

  reconcile_phase-Grows :
      (cn new : ClientNamespace)
      → SameName cn new
      → Moves
          (Grows L (ns_name cn) (client_labels cn))
          (reconcile_phase W decimal order (services W order) new)
  reconcile_phase-Grows cn new same =
      unfold reconcile_phase in
      Moves-if (is_ready new.status.phase) (pure tt)
        (start_provisioning W new >>= λ started.
          provision W decimal order (services W order) started)
        (λ _. Grows-pure L _ _ tt)
        (λ _.
          Moves-bind-Returns (Grows-IsPreorder L _ _) _ _ (start_provisioning-Grows _ _ new)
            (start_provisioning-SameName new)
            (λ started again. provision_of_name cn started (again ∙ same)))

  live-Grows :
      (cn : ClientNamespace)
      → Moves (Grows L (ns_name cn) (client_labels cn)) (
          ensure_finalizer W cn >>= λ finalized.
          reconcile_phase W decimal order (services W order) finalized)
  live-Grows cn =
      Moves-bind-Returns (Grows-IsPreorder L _ _) _ _ (ensure_finalizer-Grows _ _ cn)
        (ensure_finalizer-SameName cn) (λ finalized same. reconcile_phase-Grows cn finalized same)

  fetched-Grows :
      (cn : ClientNamespace) (r : Outcome ClientNamespace) (t : W.State)
      → r ≡ ok cn
      → cn.deleted ≡ false
      → Grows L
          (ns_name cn)
          (client_labels cn)
          t
          (continue (attempted r) (reconcile_fetched W decimal order (services W order)) t).1
  unfolding reconcile_fetched
  fetched-Grows cn r t e live = rw e (simp live ((live-Grows cn).at t))

  -- For a resource that exists and is not being deleted, one call of `Reconcile` with the
  -- operator's six services, whether it ends well, in an error or in a panic, leaves every object
  -- that was held unchanged, changes nothing outside the client's namespace and its Namespace
  -- object, and gives every object that is new afterwards the client's labels.
  pub reconcile-Grows :
      (request : NamespacedName) (s : W.State) (cn : ClientNamespace)
      → (W.get_client_namespace request s).0 ≡ ok cn
      → cn.deleted ≡ false
      → Grows L
          (ns_name cn)
          (client_labels cn)
          s
          (reconcile W decimal order (services W order) request s).1
  unfolding reconcile attempt ◌>>=◌
  reconcile-Grows request s cn found live =
      (Grows-IsPreorder L (ns_name cn) (client_labels cn)).trans_at s
        (W.get_client_namespace request s).1 _ ((Grows-get_client_namespace L _ _ request).at s)
        (fetched-Grows cn (W.get_client_namespace request s).0 _ found live)
