-- ===== src/Phases/Run.antt =====
-- `Keeps` for Controller/Reconcile.antt: what one call of `Reconcile` makes of the API server's record
-- of the resource.
use ninekube.Prelude.{ℕ, suc, String, ◌≡◌, refl, ◌∙◌, ap, true, false, List, [], ◌∷◌, All}
use mathlib.Core.Path.{subst⁻¹}
use ninekube.Exec.{Exec, Error, message, Attempt, got, failed, attempt, attempted, ok}
use ninekube.Exec.Moves.{
  Moves, Returns, Returns-bind, Returns-rest, Returns-pure, Moves-attempt, Moves-bind-Returns,
}
use ninekube.Api.{ClientNamespace, ClientNamespaceStatus}
use ninekube.World.{World}
use ninekube.World.Lawful.{Lawful}
use ninekube.World.Permits.Rules.{bind-Moves, pure-Moves, raise-Moves, now-Moves}
use ninekube.World.Storing.{Storing, SameResource}
use ninekube.Catalog.{OptionalService}
use ninekube.Controller.Cleanup.{ServiceReconciler}
use ninekube.Controller.Status.{
  checked, set_failed, or_failed, mark_ready, ready_condition, ready_status, failed_condition,
  failed_status, refreshed, update_service_status,
}
use ninekube.Controller.Reconcile.{service_failed, service_outcome, reconcile_services}
use ninekube.Growth.Provision.{set_failed-Returns}
use ninekube.Outcomes.Failure.{attempted_got}
use ninekube.Phases.{stage_of, fail, finish, Reaches, later, is_working}
use ninekube.Phases.Keeps.{
  Keeps, Keeps-IsPreorder, Keeps-Permits, Keeps-update_status, SameResource-trans,
}

-- A copy of the resource that `Reconcile` works on: it is being provisioned.
abbrev pub IsCopy : ClientNamespace → ClientNamespace → Type 0
IsCopy cn copy =
    SameResource cn copy
    × (is_working copy.status.phase ≡ true)
    × Reaches (stage_of cn.status) (stage_of copy.status)

module _ {W : World} (L : Lawful W) (St : Storing L) (cn : ClientNamespace) where
  set_failed-Keeps :
      {A : Type 0} (copy : ClientNamespace) (reason : String) (e : Error)
      → IsCopy cn copy
      → Moves (Keeps L cn) (set_failed W {A = A} copy reason e)
  set_failed-Keeps copy reason e (same, working, r) =
      let P = Keeps-Permits L cn St (λ _. Unit) in
      unfold set_failed in
      bind-Moves P _ _ (now-Moves P) (λ time.
        bind-Moves P _ _
          (Moves-attempt _ (
            Keeps-update_status L cn St _ same (λ _.
              unfold failed_status in
              later r (
                fail (stage_of copy.status) (failed_condition time reason e) working
                  (unfold failed_condition in refl) (unfold failed_condition in refl)))))
          (λ logged. raise-Moves P e))

  checked-Keeps :
      {A : Type 0} (copy : ClientNamespace) (reason : String) (r : Attempt A)
      → IsCopy cn copy
      → Moves (Keeps L cn) (checked W copy reason r)
  checked-Keeps copy reason (got a) c = pure-Moves (Keeps-Permits L cn St (λ _. Unit)) a
  checked-Keeps copy reason (failed e) c = set_failed-Keeps copy reason e c

  pub or_failed-Keeps :
      {A : Type 0} (copy : ClientNamespace) (reason : String) (step : Exec W.State A)
      → IsCopy cn copy
      → Moves (Keeps L cn) step
      → Moves (Keeps L cn) (or_failed W copy reason step)
  unfolding or_failed
  or_failed-Keeps copy reason step c h =
      bind-Moves (Keeps-Permits L cn St (λ _. Unit)) _ _ (Moves-attempt step h)
        (λ r. checked-Keeps copy reason r c)

  pub mark_ready-Keeps :
      (copy : ClientNamespace) → IsCopy cn copy → Moves (Keeps L cn) (mark_ready W copy)
  mark_ready-Keeps copy (same, working, r) =
      let P = Keeps-Permits L cn St (λ _. Unit) in
      unfold mark_ready in
      bind-Moves P _ _ (now-Moves P) (λ time.
        bind-Moves P _ _
          (Keeps-update_status L cn St _ same (λ unique.
            unfold ready_status in
            later r (
              finish (stage_of copy.status) (ready_condition time) working
                (unfold ready_condition in refl) (unfold ready_condition in refl)
                (unfold ready_status in unique))))
          (λ updated. pure-Moves P tt))

  -- What the API server gives back of an update is a copy too.
  pub updated-IsCopy :
      (copy : ClientNamespace) (s : W.State) (new : ClientNamespace)
      → IsCopy cn copy
      → (W.update_status copy s).0 ≡ ok new
      → IsCopy cn new
  updated-IsCopy copy s new (same, working, r) e =
      let law = L.update_status_ok copy s new e in
      let kept = L.update_status_kept copy s new e in
      (
        SameResource-trans cn copy new same (law.2, law.3, kept.0, kept.1),
        ap (λ st. is_working st.phase) law.1 ∙ working,
        subst⁻¹ (λ (st : ClientNamespaceStatus). Reaches (stage_of cn.status) (stage_of st)) law.1
            r,
      )

  refreshed-IsCopy :
      (copy : ClientNamespace) (s : W.State) (r : Attempt ClientNamespace)
      → IsCopy cn copy
      → attempted (W.update_status copy s).0 ≡ ok r
      → IsCopy cn (refreshed copy r)
  unfolding refreshed
  refreshed-IsCopy copy s (got new) c e =
      updated-IsCopy copy s new c (attempted_got (W.update_status copy s).0 (got new) new e refl)
  refreshed-IsCopy copy s (failed m) c e = c

  module _ (decimal : ℕ → String) (order : List OptionalService) where
    service_failed-Keeps :
        {A : Type 0} (copy : ClientNamespace) (name : String) (e : Error)
        → IsCopy cn copy
        → Moves (Keeps L cn) (service_failed W decimal order {A = A} copy name e)
    service_failed-Keeps copy name e c =
        let marked = update_service_status copy name false (message e) in
        let still : IsCopy cn marked = unfold update_service_status in c in
        unfold service_failed in
        Moves-bind-Returns (Keeps-IsPreorder L cn)
          {P = λ (r : Attempt ClientNamespace). IsCopy cn (refreshed marked r)} _ _
          (Moves-attempt _ (Keeps-update_status L cn St marked still.0 (λ _. still.2)))
          (record { at = λ s r done. unfold attempt in refreshed-IsCopy marked s r still done })
          (λ r again. set_failed-Keeps _ _ e again)

    service_outcome-Keeps :
        (copy : ClientNamespace) (name : String) (r : Attempt (Unit {0}))
        → IsCopy cn copy
        → Moves (Keeps L cn) (service_outcome W decimal order copy name r)
    unfolding service_outcome
    service_outcome-Keeps copy name (got u) c = pure-Moves (Keeps-Permits L cn St (λ _. Unit)) _
    service_outcome-Keeps copy name (failed e) c = service_failed-Keeps copy name e c

    service_outcome-IsCopy :
        (copy : ClientNamespace) (name : String) (r : Attempt (Unit {0}))
        → IsCopy cn copy
        → Returns (λ new _. IsCopy cn new) (service_outcome W decimal order copy name r)
    unfolding service_outcome update_service_status
    service_outcome-IsCopy copy name (got u) c = Returns-pure {P = IsCopy cn} _ c
    service_outcome-IsCopy copy name (failed e) c =
        Returns-rest _ _ (λ updated. set_failed-Returns L decimal order _ _ e)

    -- A reconciler leaves the record alone, whatever copy of the resource it is given.
    abbrev pub IsKeeping : ServiceReconciler W → Type 0
    IsKeeping svc = (copy : ClientNamespace) → Moves (Keeps L cn) (svc.reconcile copy)

    pub reconcile_services-Keeps :
        (i : ℕ) (services : List (ServiceReconciler W)) (copy : ClientNamespace)
        → All IsKeeping services
        → IsCopy cn copy
        → Moves (Keeps L cn) (reconcile_services W decimal order i services copy)
    unfolding reconcile_services
    reconcile_services-Keeps i [] copy h c = pure-Moves (Keeps-Permits L cn St (λ _. Unit)) copy
    reconcile_services-Keeps i (svc ∷ services) copy (h, hs) c =
        bind-Moves (Keeps-Permits L cn St (λ _. Unit)) _ _ (Moves-attempt _ (h copy)) (λ r.
          Moves-bind-Returns (Keeps-IsPreorder L cn) _ _ (service_outcome-Keeps copy _ r c)
            (service_outcome-IsCopy copy _ r c)
            (λ new again. reconcile_services-Keeps (suc i) services new hs again))

    pub reconcile_services-IsCopy :
        (i : ℕ) (services : List (ServiceReconciler W)) (copy : ClientNamespace)
        → IsCopy cn copy
        → Returns (λ new _. IsCopy cn new) (reconcile_services W decimal order i services copy)
    unfolding reconcile_services
    reconcile_services-IsCopy i [] copy c = Returns-pure {P = IsCopy cn} copy c
    reconcile_services-IsCopy i (svc ∷ services) copy c = Returns-rest _ _ (λ r.
        Returns-bind _ _ (service_outcome-IsCopy copy _ r c) (λ new s last again done.
          (reconcile_services-IsCopy (suc i) services new again).at s last done))
