-- ===== src/Outcomes/Present.antt =====
-- What an `ensure...` method that returned without an error has made sure of: its object is held.
use ninekube.Prelude.{ℕ, String, ◌≡◌, refl, ◌∙◌, List}
use ninekube.Exec.{Exec, ok, Attempt, got, failed, attempt, pure, raise, is_not_found}
use ninekube.Exec.Moves.{Returns, Returns-bind, Returns-raise, Returns-if, IsStable}
use ninekube.Api.{ClientNamespace}
use ninekube.Kube.{Key, Object, key_of}
use ninekube.World.{World}
use ninekube.World.Lawful.{Lawful}
use ninekube.World.Grows.{Grows, Present}
use ninekube.Controller.Ensure.{on_missing, if_missing}
use ninekube.Controller.Status.{checked, or_failed}
use ninekube.Catalog.{OptionalService}
use ninekube.Growth.Provision.{set_failed-Returns}
use ninekube.Outcomes.Failure.{attempted_got}

module _ {S A : Type 0} {P : A → S → Type 0} where
  pub Returns-attempt :
      (step : Exec S A)
      → Returns P step
      → Returns (λ r s. (a : A) → r ≡ got a → P a s) (attempt step)
  unfolding attempt
  Returns-attempt step h = record { at = λ s r e a g. h.at s a (attempted_got (step s).0 r a e g) }

module _ {S A : Type 0} {P Q : A → S → Type 0} where
  pub Returns-both : (m : Exec S A) → Returns P m → Returns Q m → Returns (λ a s. P a s × Q a s) m
  Returns-both m p q = record { at = λ s a e. (p.at s a e, q.at s a e) }

  pub Returns-map : (m : Exec S A) → ((a : A) (s : S) → P a s → Q a s) → Returns P m → Returns Q m
  Returns-map m f h = record { at = λ s a e. f a _ (h.at s a e) }

pub IsStable-both :
    {S : Type 0} {R : S → S → Type 0} {P Q : S → Type 0}
    → IsStable R P
    → IsStable R Q
    → IsStable R (λ s. P s × Q s)
IsStable-both p q = record { along = λ s t r h. (p.along s t r h.0, q.along s t r h.1) }

module _ {W : World} (L : Lawful W) where
  pub Present-IsStable :
      (ns : String) (labels : List (String × String)) (k : Key)
      → IsStable (Grows L ns labels) (Present L k)
  Present-IsStable ns labels k = record { along = λ s t g (x, e). (x, g.kept k x e) }

  pub create-Present : (o : Object) → Returns (λ _. Present L (key_of o)) (W.create o)
  create-Present o = record { at = λ s tt e. (L.admit o, L.create_ok o s e) }

  get-Present : (k : Key) → Returns (λ _. Present L k) (W.get k)
  get-Present k = record { at = λ s o e. (o, L.get_same k s k ∙ L.get_found k s o e) }

  on_missing-Present :
      (k : Key) (r : Attempt Object) (absent : Exec W.State (Unit {0}))
      → Returns (λ _. Present L k) absent
      → (s : W.State) (u : Unit {0}) → ((o : Object) → r ≡ got o → Present L k s)
      → (on_missing r absent s).0 ≡ ok u
      → Present L k (on_missing r absent s).1
  unfolding on_missing pure
  on_missing-Present k (got o) absent h s u p e = p o refl
  on_missing-Present k (failed m) absent h s u p e =
      (Returns-if (is_not_found m) absent (raise m) (λ _. h) (λ _. Returns-raise m)).at s u e

  pub if_missing-Present :
      (k : Key) (absent : Exec W.State (Unit {0}))
      → Returns (λ _. Present L k) absent
      → Returns (λ _. Present L k) (if_missing W k absent)
  unfolding if_missing
  if_missing-Present k absent h =
      Returns-bind _ _ (Returns-attempt _ (get-Present k))
        (λ r s u p e. on_missing-Present k r absent h s u p e)

module _ {W : World} (L : Lawful W) (decimal : ℕ → String) (order : List OptionalService) where
  checked-Returns :
      {A : Type 0} (P : W.State → Type 0) (cn : ClientNamespace) (reason : String) (r : Attempt A)
      (s : W.State) (a : A)
      → ((b : A) → r ≡ got b → P s)
      → (checked W cn reason r s).0 ≡ ok a
      → P (checked W cn reason r s).1
  unfolding pure
  checked-Returns P cn reason (got b) s a p e = p b refl
  checked-Returns P cn reason (failed m) s a p e =
      (set_failed-Returns L decimal order {P = λ _. P} cn reason m).at s a e

  -- What a step makes sure of, the step with its `setFailed` makes sure of.
  pub or_failed-Returns :
      {A : Type 0} {P : W.State → Type 0} (cn : ClientNamespace) (reason : String)
      (step : Exec W.State A)
      → Returns (λ _. P) step
      → Returns (λ _. P) (or_failed W cn reason step)
  unfolding or_failed
  or_failed-Returns {P = P} cn reason step h =
      Returns-bind _ _ (Returns-attempt step h) (λ r s a p e. checked-Returns P cn reason r s a p e)
