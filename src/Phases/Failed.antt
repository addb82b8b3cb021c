-- ===== src/Phases/Failed.antt =====
-- What `setFailed` of operator/internal/controller/clientnamespace_controller.go records of a step that
-- failed, and what becomes of the resource.
use ninekube.Prelude.{
  ℕ, String, ◌≡◌, refl, ◌∙◌, ap, ◌==◌, true, false, Option, none, some, List, [], ◌∷◌, Bool-cases,
  inl, inr, if◌then◌else◌, All,
}
use mathlib.Core.Path.{subst⁻¹}
use ninekube.Exec.{Exec, Error, message, ok, err, attempt, attempted, continue, total, ◌>>=◌, raise}
use ninekube.Api.{
  ClientNamespace, ClientNamespaceStatus, ClientNamespacePhase, Condition, condition_false,
}
use ninekube.World.{World}
use ninekube.World.Lawful.{Lawful, name_of}
use ninekube.World.Conditions.{Accepted, is_reason, is_message, is_condition-Ready}
use ninekube.World.Healthy.{Healthy}
use ninekube.World.Storing.{Storing, SameResource}
use ninekube.Catalog.{OptionalService}
use ninekube.Controller.Cleanup.{finalizer_name}
use ninekube.Controller.Status.{
  set_condition, failed_condition, failed_status, set_failed, checked, or_failed,
}
use ninekube.Outcomes.Failure.{HasReady, failed_status_lem}
use ninekube.Phases.{is_working}
use ninekube.Phases.Retry.{retried, retried-never}

-- What the conditions say of the type Ready.
unfoldable pub ready_of : List Condition → Option Condition
ready_of [] = none
ready_of (c ∷ rest) = let later = ready_of rest in if c.type == "Ready" then some c else later

ready_of-hit :
    (c : Condition) (cs : List Condition) → (c.type == "Ready") ≡ true → ready_of (c ∷ cs) ≡ some c
unfolding ready_of
ready_of-hit c cs e = ap (λ b. if b then some c else ready_of cs) e

ready_of-miss :
    (c : Condition) (cs : List Condition)
    → (c.type == "Ready") ≡ false
    → ready_of (c ∷ cs) ≡ ready_of cs
unfolding ready_of
ready_of-miss c cs e = ap (λ b. if b then some c else ready_of cs) e

ready_of-set_condition :
    (new : Condition) (cs : List Condition)
    → (new.type == "Ready") ≡ true
    → ready_of (set_condition new cs) ≡ some new
unfolding set_condition
ready_of-set_condition new [] e = ready_of-hit new [] e
ready_of-set_condition new (c ∷ cs) e = elim (Bool-cases (c.type == "Ready")) [
  | inl found ↦ rw found (ready_of-hit new cs e)
  | inr other ↦ rw other (ready_of-miss c _ other ∙ ready_of-set_condition new cs e)
]

-- The status is Failed, with a condition of the type Ready that says why.
abbrev pub TellsOf : String → Error → ClientNamespaceStatus → Type 0
TellsOf reason e status =
    (status.phase ≡ ClientNamespacePhase.failed)
    × ((c : Condition) × (ready_of status.conditions ≡ some c)
        × (c.status ≡ condition_false)
        × (c.reason ≡ reason)
        × (c.message ≡ message e))

failed_status-TellsOf :
    (time : ℕ) (reason : String) (e : Error) (status : ClientNamespaceStatus)
    → TellsOf reason e (failed_status time reason e status)
unfolding failed_status failed_condition
failed_status-TellsOf time reason e status = (
  refl,
  (
    failed_condition time reason e,
    ready_of-set_condition (failed_condition time reason e) status.conditions refl,
    refl,
    refl,
    refl,
  ),
)

-- The resource that `setFailed` stores at a time.
abbrev failing : ClientNamespace → String → Error → ℕ → ClientNamespace
failing cn reason e time = record cn { status = failed_status time reason e cn.status }

set_condition-All :
    (P : Condition → Type 0) (new : Condition) (cs : List Condition)
    → P new
    → All P cs
    → All P (set_condition new cs)
unfolding set_condition
set_condition-All P new [] p ps = (p, tt)
set_condition-All P new (c ∷ cs) p (q, ps) = elim (Bool-cases (c.type == "Ready")) [
  | inl found ↦ rw found (p, ps)
  | inr other ↦ rw other (q, set_condition-All P new cs p ps)
]

module _ (W : World) {A : Type 0} (cn : ClientNamespace) (reason : String) (e : Error) where
  set_failed-run :
      (t : W.State) (new : ClientNamespace)
      → (W.update_status (failing cn reason e (W.now t).0) (W.now t).1).0 ≡ ok new
      → set_failed W {A = A} cn reason e t
        ≡ (err e, (W.update_status (failing cn reason e (W.now t).0) (W.now t).1).1)
  unfolding set_failed total attempt ◌>>=◌ raise
  set_failed-run t new done =
      ap
        (λ r.
          continue (attempted r) (λ logged. raise {A = A} e)
            (W.update_status (failing cn reason e (W.now t).0) (W.now t).1).1)
        done

  or_failed-run :
      (step : Exec W.State A) (s : W.State)
      → (step s).0 ≡ err e
      → or_failed W cn reason step s ≡ set_failed W cn reason e (step s).1
  unfolding or_failed attempt ◌>>=◌
  or_failed-run step s fails =
      ap (λ r. continue (attempted r) (checked W cn reason) (step s).1) fails

module _ {W : World} (L : Lawful W) (cn : ClientNamespace) (reason : String) (e : Error) where
  -- The resource is stored as Failed, with what failed.
  abbrev pub Recorded : W.State → Type 0
  Recorded t =
      (new : ClientNamespace) × (L.stored t (name_of cn) ≡ some new)
      × SameResource cn new
      × HasReady new.status.conditions
      × TellsOf reason e new.status

  -- The copy is of the version stored, and the schema allows the condition that `setFailed` writes.
  pub record IsRecordable (t : W.State) : Type 0 where
    pub old : ClientNamespace
    pub stored : L.stored t (name_of cn) ≡ some old
    pub version : old.resource_version ≡ cn.resource_version
    pub conditions : Accepted cn.status.conditions
    pub reason_ok : is_reason reason ≡ true
    pub message_ok : is_message (message e) ≡ true

  failing-Accepted :
      (t : W.State) (time : ℕ)
      → IsRecordable t
      → Accepted (failing cn reason e time).status.conditions
  unfolding failed_status failed_condition
  failing-Accepted t time r = (
    (failed_status_lem time reason e cn.status r.conditions.0).0,
    set_condition-All _ (failed_condition time reason e) cn.status.conditions
        (is_condition-Ready (failed_condition time reason e) refl r.reason_ok r.message_ok)
        r.conditions.1,
  )

module _ {W : World} {L : Lawful W} (H : Healthy L) {A : Type 0} (cn : ClientNamespace)
    (reason : String) (e : Error) where
  set_failed-Recorded :
      (t : W.State)
      → IsRecordable L cn reason e t
      → (let run = set_failed W {A = A} cn reason e t in
          (run.0 ≡ err e) × Recorded L cn reason e run.1)
  set_failed-Recorded t r =
      let time : ℕ = (W.now t).0 in
      let marked = failing cn reason e time in
      let (_, has, _) = failed_status_lem time reason e cn.status r.conditions.0 in
      let (new, done) =
        H.update_status_done marked (W.now t).1 r.old (H.storing.now_kept t (name_of cn) ∙ r.stored)
          r.version (failing-Accepted L cn reason e t time r) in
      let law = L.update_status_ok marked (W.now t).1 new done in
      let kept = L.update_status_kept marked (W.now t).1 new done in
      let (ready_before, tells) =
        subst⁻¹
          (λ (status : ClientNamespaceStatus). HasReady status.conditions × TellsOf reason e status)
          law.1 (has, failed_status-TellsOf time reason e cn.status) in
      rw (set_failed-run W {A = A} cn reason e t new done)
        (refl, (new, law.0, (law.2, law.3, kept.0, kept.1), ready_before, tells))

  -- On a good day, where a step that `Reconcile` checks fails, the copy at hand is then of the
  -- version stored, its conditions are such as the resource's schema allows, and so are the step's
  -- reason and the error's text, the method returns the error of the step, and the resource is
  -- stored as Failed, its spec unchanged, with a condition Ready=False of that reason and text.
  pub or_failed-Recorded :
      (step : Exec W.State A) (s : W.State)
      → (step s).0 ≡ err e
      → IsRecordable L cn reason e (step s).1
      → (let run = or_failed W cn reason step s in (run.0 ≡ err e) × Recorded L cn reason e run.1)
  or_failed-Recorded step s fails recordable =
      rw (or_failed-run W cn reason e step s fails) (set_failed-Recorded (step s).1 recordable)

  -- One such failure is for ever: where the resource is live and has the finalizer, no number of
  -- calls of `Reconcile` after it brings one that returns without an error.
  pub or_failed-forever :
      (St : Storing L) (decimal : ℕ → String) (order : List OptionalService) (step : Exec W.State A)
      (s : W.State) (k : ℕ)
      → (step s).0 ≡ err e
      → IsRecordable L cn reason e (step s).1
      → cn.deleted ≡ false
      → W.contains_finalizer cn finalizer_name ≡ true
      → ¬ ((retried W decimal order k (name_of cn) (or_failed W cn reason step s).1).0 ≡ ok tt)
  or_failed-forever St decimal order step s k fails recordable live finalized =
      let (_, recorded) = or_failed-Recorded step s fails recordable in
      let (new, stored, (_, name, deleted, finalizers), has, (failed_phase, _)) = recorded in
      (retried-never L St decimal order (name_of cn) k (or_failed W cn reason step s).1 (
        new,
        stored,
        name,
        deleted ∙ live,
        St.contains_finalizer_of new cn finalizer_name finalizers ∙ finalized,
        (ap is_working failed_phase, has),
      )).0
