-- ===== src/Phases.antt =====
-- The state machine of the phases of operator/internal/controller/clientnamespace_controller.go: what
-- one update of the status makes of the phase and the conditions, which is all that decides where
-- the next call of `Reconcile` can go.
pub mod Keeps
pub mod Run
pub mod Whole
pub mod Retry
pub mod Failed
use ninekube.Prelude.{◌≡◌, refl, Bool, true, false, ◌∷◌, [], ◌++◌, List, false-ne-true, sym, ◌∙◌}
use ninekube.Api.{
  ClientNamespaceStatus, ClientNamespacePhase, provisioning, ready, Condition, condition_true,
  condition_false,
}
use ninekube.World.Lawful.{UniqueTypes}
use ninekube.Controller.Status.{set_condition}
use ninekube.Controller.Reconcile.{is_new, is_ready}
use ninekube.Outcomes.Failure.{HasReady, set_condition-HasReady}
use ninekube.Outcomes.Stuck.{append-UniqueTypes}

pub record Stage : Type 0 where
  pub phase : ClientNamespacePhase
  pub conditions : List Condition

abbrev pub stage_of : ClientNamespaceStatus → Stage
stage_of status = record { phase = status.phase; conditions = status.conditions }

-- Provisioning, or Failed.
abbrev pub is_working : ClientNamespacePhase → Bool
is_working provisioning = true
is_working ClientNamespacePhase.failed = true
is_working _ = false

pub data Step : Stage → Stage → Type 0 where
  begin : (st : Stage) → is_new st.phase ≡ true → Step st (record st { phase = provisioning })
  fail :
      (st : Stage) (c : Condition)
      → is_working st.phase ≡ true
      → c.type ≡ "Ready"
      → c.status ≡ condition_false
      → Step st (record {
        phase = ClientNamespacePhase.failed;
        conditions = set_condition c st.conditions;
      })
  -- The API server takes no two conditions of one type.
  finish :
      (st : Stage) (c : Condition)
      → is_working st.phase ≡ true
      → c.type ≡ "Ready"
      → c.status ≡ condition_true
      → UniqueTypes (st.conditions ++ c ∷ [])
      → Step st (record { phase = ready; conditions = st.conditions ++ c ∷ [] })

pub data Reaches (st : Stage) : Stage → Type 0 where
  here : Reaches st st
  later : {t u : Stage} → Reaches st t → Step t u → Reaches st u

pub Reaches-trans : {s t u : Stage} → Reaches s t → Reaches t u → Reaches s u
Reaches-trans st here = st
Reaches-trans st (later tu step) = later (Reaches-trans st tu) step

-- Neither new nor Ready, and with a condition of the type Ready: what `setFailed` leaves.
abbrev pub IsStuck : Stage → Type 0
IsStuck st = (is_working st.phase ≡ true) × HasReady st.conditions

working-not_new : (p : ClientNamespacePhase) → is_working p ≡ true → is_new p ≡ true → ⊥
working-not_new ClientNamespacePhase.unset h n = false-ne-true h
working-not_new ClientNamespacePhase.pending h n = false-ne-true h
working-not_new provisioning h n = false-ne-true n
working-not_new ready h n = false-ne-true h
working-not_new ClientNamespacePhase.failed h n = false-ne-true n

pub working-not_ready : (p : ClientNamespacePhase) → is_working p ≡ true → is_ready p ≡ false
working-not_ready ClientNamespacePhase.unset h = refl
working-not_ready ClientNamespacePhase.pending h = refl
working-not_ready provisioning h = refl
working-not_ready ready h = absurd (false-ne-true h)
working-not_ready ClientNamespacePhase.failed h = refl

Step-IsStuck : {s t : Stage} → Step s t → IsStuck s → IsStuck t
Step-IsStuck (begin st n) (w, h) = absurd (working-not_new st.phase w n)
Step-IsStuck (fail st c w ty _) (_, h) = (refl, set_condition-HasReady c st.conditions ty)
Step-IsStuck (finish st c w ty _ u) (_, h) = absurd (append-UniqueTypes c st.conditions ty h u)

-- There is no way out of it.
pub Reaches-IsStuck : {s t : Stage} → Reaches s t → IsStuck s → IsStuck t
Reaches-IsStuck here h = h
Reaches-IsStuck (later r step) h = Step-IsStuck step (Reaches-IsStuck r h)
