-- ===== src/Progress/Steps.antt =====
-- The parts of `Reconcile` that write the resource's status, on a good day
-- (operator/internal/controller/clientnamespace_controller.go).
use mathlib.Core.Path.{subst}
use ninekube.Prelude.{ℕ, suc, String, ◌≡◌, ◌≢◌, refl, sym, ◌∙◌, ap, List, [], ◌∷◌, ◌++◌, All}
use ninekube.Prelude.Lists.{All-append}
use ninekube.Exec.{Exec, Attempt, got, failed}
use ninekube.Exec.Succeeds.{
  Succeeds, Ends, Succeeds-pure, Succeeds-attempt, Succeeds-bind, Succeeds-weaken, Yields,
  Yields-if, Yields-bind, Yields-pure, Succeeds-return,
}
use ninekube.Api.{ClientNamespace, Condition, provisioning}
use ninekube.World.{World}
use ninekube.World.Lawful.{Lawful, NewType, UniqueTypes}
use ninekube.World.Conditions.{Accepted, is_condition-Ready, is_reason, is_message}
use ninekube.World.Storing.{SameResource}
use ninekube.World.Permits.Rules.{now-Moves}
use ninekube.Progress.Current.{AtVersion, Stored, Leaves-Permits, Succeeds-AtVersion}
use ninekube.World.Healthy.{Healthy}
use ninekube.Catalog.{OptionalService}
use ninekube.Controller.Labels.{client_labels}
use ninekube.Controller.Status.{
  update_service_status, checked, or_failed, ready_condition, ready_status, mark_ready,
}
use ninekube.Controller.Cleanup.{ServiceReconciler}
use ninekube.Controller.Reconcile.{
  with_phase, start_provisioning, service_outcome, reconcile_services,
}
use ninekube.Outcomes.Live.{SameClient}
use ninekube.Progress.Room.{IsObjectwise, now-Ends}
use ninekube.Growth.Provision.{SamePlace}

-- Conditions that the schema allows, to which the end of `Reconcile` may add a `Ready`.
abbrev pub IsUnready : List Condition → Type 0
IsUnready cs = Accepted cs × All (λ (c : Condition). c.type ≢ "Ready") cs

NewType-append :
    (c new : Condition) (cs : List Condition)
    → new.type ≢ c.type
    → NewType c cs
    → NewType c (cs ++ new ∷ [])
NewType-append c new [] h hs = (h, tt)
NewType-append c new (d ∷ cs) h (k, ks) = (k, NewType-append c new cs h ks)

append-UniqueTypes :
    (new : Condition) (cs : List Condition)
    → new.type ≡ "Ready"
    → UniqueTypes cs
    → All (λ (c : Condition). c.type ≢ "Ready") cs
    → UniqueTypes (cs ++ new ∷ [])
append-UniqueTypes new [] e h others = (tt, tt)
append-UniqueTypes new (c ∷ cs) e (u, us) (n, ns) =
    (NewType-append c new cs (λ same. n (sym same ∙ e)) u, append-UniqueTypes new cs e us ns)

append-Accepted :
    (time : ℕ) (cs : List Condition) → IsUnready cs → Accepted (cs ++ ready_condition time ∷ [])
unfolding ready_condition is_reason is_message
append-Accepted time cs ((unique, good), others) = (
  append-UniqueTypes (ready_condition time) cs refl unique others,
  All-append _ cs _ good (is_condition-Ready (ready_condition time) refl refl refl, tt),
)

module _ (W : World) where
  checked-Succeeds :
      {A : Type 0} {I : W.State → Type 0} {P : A → Type 0} (cn : ClientNamespace) (reason : String)
      (r : Attempt A)
      → ((a : A) × (r ≡ got a) × P a)
      → Succeeds I I P (checked W cn reason r)
  checked-Succeeds {P = P} cn reason (got b) (a, e, p) =
      let same : a ≡ b = cc in Succeeds-pure b (subst P same p)
  checked-Succeeds cn reason (failed m) (a, e, p) = absurd (cc)

  -- A step that ends well is not recorded.
  pub or_failed-Succeeds :
      {A : Type 0} {I J : W.State → Type 0} {P : A → Type 0} (cn : ClientNamespace)
      (reason : String) (step : Exec W.State A)
      → Succeeds I J P step
      → Succeeds I J P (or_failed W cn reason step)
  or_failed-Succeeds cn reason step h =
      unfold or_failed in
      Succeeds-bind _ _ (Succeeds-attempt step h) (λ r found. checked-Succeeds cn reason r found)

module _ {W : World} {L : Lawful W} (H : Healthy L) {I : W.State → Type 0}
    (h : IsObjectwise L I) where
  -- An update of a copy that is of the version stored, with conditions that the schema allows.
  update_status-Yields :
      (cn : ClientNamespace)
      → Accepted cn.status.conditions
      → Yields
          (AtVersion L I cn)
          (λ new. Stored L I new)
          (λ new. (new.status ≡ cn.status) × SameResource cn new)
          (W.update_status cn)
  update_status-Yields cn accepted = record {
    at = λ s (i, (old, stored, version)).
        let (new, e) = H.update_status_done cn s old stored version accepted in
        let law = L.update_status_ok cn s new e in
        let kept = L.update_status_kept cn s new e in
        (
          new,
          e,
          (law.1, (law.2, law.3, kept.0, kept.1)),
          (
            h s _ (L.update_status_same cn s) i,
            ap (L.stored (W.update_status cn s).1) law.3 ∙ law.0,
          ),
        );
  }

  pub mark_ready-Ends :
      (cn : ClientNamespace)
      → IsUnready cn.status.conditions
      → Ends (AtVersion L I cn) I (mark_ready W cn)
  mark_ready-Ends cn unready =
      let P = Leaves-Permits L H.storing (λ _. Unit) in
      unfold mark_ready in
      Succeeds-bind _ _ (Succeeds-AtVersion L cn _ (now-Moves P) (now-Ends H h)) (λ time _.
        Yields-bind _ _
          (update_status-Yields _
            (unfold ready_status in append-Accepted time cn.status.conditions unready))
          (λ updated _. Succeeds-return tt tt (λ s h. h.0)))

  pub start_provisioning-Yields :
      (cn : ClientNamespace)
      → Accepted cn.status.conditions
      → Yields (Stored L I cn) (λ new. Stored L I new) (SameClient cn) (start_provisioning W cn)
  start_provisioning-Yields cn accepted =
      unfold start_provisioning in
      Yields-if _ _ _
        (λ _. record {
          at = λ s (i, stored).
              let (new, e, (status, (spec, name, deleted, finalizers)), kept) =
                (update_status-Yields (with_phase cn provisioning) accepted).at s
                  (i, (cn, stored, refl)) in
              (
                new,
                e,
                (
                  spec,
                  ap (λ st. st.conditions) status,
                  name,
                  ap (λ st. st.services) status,
                  deleted,
                  finalizers,
                ),
                kept,
              );
        })
        (λ _. Yields-pure cn (refl, refl, refl, refl, refl, refl))

-- A copy at the same place and of the same version.
abbrev pub SameCopy : ClientNamespace → ClientNamespace → Type 0
SameCopy cn new = SamePlace cn new × (new.resource_version ≡ cn.resource_version)

SamePlace-trans : (a b c : ClientNamespace) → SamePlace b c → SamePlace a b → SamePlace a c
SamePlace-trans a b c next same = (
  next.0 ∙ same.0,
  next.1 ∙ same.1,
  next.2 ∙ same.2,
  next.3 ∙ same.3,
  next.4 ∙ same.4,
  next.5 ∙ same.5,
  next.6 ∙ same.6,
)

-- A service whose `Reconcile` ends well for a resource with the namespace in its status.
abbrev pub IsEnding : {W : World} → (W.State → Type 0) → String → ServiceReconciler W → Type 0
IsEnding I ns svc = (cn : ClientNamespace) → cn.status.namespace ≡ ns → Ends I I (svc.reconcile cn)

module _ (W : World) {I : W.State → Type 0} (decimal : ℕ → String)
    (order : List OptionalService) where
  service_outcome-Succeeds :
      (cn : ClientNamespace) (name : String) (r : Attempt (Unit {0}))
      → ((a : Unit {0}) × (r ≡ got a) × Unit {0})
      → Succeeds I I (SameCopy cn) (service_outcome W decimal order cn name r)
  unfolding service_outcome update_service_status client_labels
  service_outcome-Succeeds cn name (got u) h =
      Succeeds-pure _ ((refl, refl, refl, refl, refl, refl, refl), refl)
  service_outcome-Succeeds cn name (failed m) (a, e, p) = absurd (cc)

  pub reconcile_services-Succeeds :
      (ns : String) (i : ℕ) (services : List (ServiceReconciler W)) (cn : ClientNamespace)
      → cn.status.namespace ≡ ns
      → All (IsEnding I ns) services
      → Succeeds I I (SameCopy cn) (reconcile_services W decimal order i services cn)
  unfolding reconcile_services
  reconcile_services-Succeeds ns i [] cn here h =
      Succeeds-pure cn ((refl, refl, refl, refl, refl, refl, refl), refl)
  reconcile_services-Succeeds ns i (svc ∷ services) cn here (h, hs) =
      Succeeds-bind _ _ (Succeeds-attempt _ (h cn here)) (λ r found.
        Succeeds-bind _ _ (service_outcome-Succeeds cn _ r found) (λ new same.
          Succeeds-weaken _
            (λ last next. (SamePlace-trans cn new last next.0 same.0, next.1 ∙ same.1))
            (reconcile_services-Succeeds ns (suc i) services new (same.0.0 ∙ here) hs)))
