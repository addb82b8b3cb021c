-- ===== src/Outcomes/Failure.antt =====
-- The error path: `setFailed` of operator/internal/controller/clientnamespace_controller.go, and
-- the steps that it checks.
use ninekube.Prelude.{
  ℕ, String, ◌≡◌, ◌==◌, eq_iff, Bool-cases, false-ne-true, sym, ◌∙◌, inl, inr, List, [], ◌∷◌, ◌⊎◌,
  refl,
}
use ninekube.Exec.{Exec, Error, Attempt, got, failed, attempted, attempt, ok, err, panic, Outcome}
use ninekube.Exec.Moves.{Returns, Returns-bind}
use ninekube.Api.{ClientNamespace, ClientNamespaceStatus, ClientNamespacePhase, Condition}
use ninekube.World.{World}
use ninekube.World.Lawful.{Lawful, NewType, UniqueTypes}
use ninekube.Controller.Status.{set_condition, checked, or_failed, failed_condition, failed_status}
use ninekube.Catalog.{OptionalService}
use ninekube.Growth.Provision.{set_failed-Returns}

-- Some condition has the type `Ready`.
abbrev pub HasReady : List Condition → Type 0
HasReady [] = ⊥
HasReady (c ∷ cs) = (c.type ≡ "Ready") ⊎ HasReady cs

set_condition-NewType :
    (c new : Condition) (cs : List Condition)
    → ("Ready" ≡ c.type → ⊥)
    → new.type ≡ "Ready"
    → NewType c cs
    → NewType c (set_condition new cs)
unfolding set_condition
set_condition-NewType c new [] h e u = (λ p. h (sym e ∙ p), tt)
set_condition-NewType c new (d ∷ cs) h e (u, us) = elim (Bool-cases (d.type == "Ready")) [
  | inl found ↦ rw found (λ p. h (sym e ∙ p), us)
  | inr other ↦ rw other (u, set_condition-NewType c new cs h e us)
]

set_condition-UniqueTypes :
    (new : Condition) (cs : List Condition)
    → new.type ≡ "Ready"
    → UniqueTypes cs
    → UniqueTypes (set_condition new cs)
unfolding set_condition
set_condition-UniqueTypes new [] e u = (tt, tt)
set_condition-UniqueTypes new (c ∷ cs) e (u, us) = elim (Bool-cases (c.type == "Ready")) [
  | inl found ↦ rw found (rw (e, ← (eq_iff c.type "Ready").0 found) u, us)
  | inr other ↦
      let differs =
        λ (p : "Ready" ≡ c.type). false-ne-true (sym other ∙ (eq_iff c.type "Ready").1 (sym p)) in
      rw other (set_condition-NewType c new cs differs e u, set_condition-UniqueTypes new cs e us)
]

pub set_condition-HasReady :
    (new : Condition) (cs : List Condition) → new.type ≡ "Ready" → HasReady (set_condition new cs)
unfolding set_condition
set_condition-HasReady new [] e = inl e
set_condition-HasReady new (c ∷ cs) e = elim (Bool-cases (c.type == "Ready")) [
  | inl found ↦ rw found (inl e)
  | inr other ↦ rw other (inr (set_condition-HasReady new cs e))
]

-- A status whose conditions have distinct types has distinct types after `setFailed` as well; its
-- phase is then Failed, and one of its conditions has the type Ready.
pub failed_status_lem :
    (time : ℕ) (reason : String) (e : Error) (status : ClientNamespaceStatus)
    → UniqueTypes status.conditions
    → (UniqueTypes (failed_status time reason e status).conditions)
      × HasReady (failed_status time reason e status).conditions
      × ((failed_status time reason e status).phase ≡ ClientNamespacePhase.failed)
unfolding failed_status failed_condition
failed_status_lem time reason e status u = (
  set_condition-UniqueTypes (failed_condition time reason e) status.conditions refl u,
  set_condition-HasReady (failed_condition time reason e) status.conditions refl,
  refl,
)

pub attempted_got :
    {A : Type 0} (r : Outcome A) (x : Attempt A) (a : A) → attempted r ≡ ok x → x ≡ got a → r ≡ ok a
attempted_got (ok b) x a e g = cc
attempted_got (err m) x a e g = absurd (cc)
attempted_got panic x a e g = absurd (cc)

module _ {W : World} (L : Lawful W) (decimal : ℕ → String) (order : List OptionalService)
    {A : Type 0} where
  attempt-never :
      (step : Exec W.State A)
      → Returns (λ _ _. ⊥) step
      → Returns (λ r _. (a : A) → r ≡ got a → ⊥) (attempt step)
  unfolding attempt
  attempt-never step h = record { at = λ s r e a g. h.at s a (attempted_got (step s).0 r a e g) }

  checked-never :
      (cn : ClientNamespace) (reason : String) (r : Attempt A)
      → ((a : A) → r ≡ got a → ⊥)
      → Returns (λ _ _. ⊥) (checked W cn reason r)
  checked-never cn reason (got a) h = absurd (h a refl)
  checked-never cn reason (failed e) h = set_failed-Returns L decimal order cn reason e

  -- Where a step never returns without an error, nor does the step with its `setFailed`.
  pub or_failed-never :
      (cn : ClientNamespace) (reason : String) (step : Exec W.State A)
      → Returns (λ _ _. ⊥) step
      → Returns (λ _ _. ⊥) (or_failed W cn reason step)
  unfolding or_failed
  or_failed-never cn reason step h =
      Returns-bind (attempt step) (checked W cn reason) (attempt-never step h)
        (λ r s b never e. (checked-never cn reason r never).at s b e)
