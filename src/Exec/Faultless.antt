-- ===== src/Exec/Faultless.antt =====
-- Actions that never return an error: they give a value, or panic.
use ninekube.Prelude.{◌≡◌, refl, List, [], ◌∷◌}
use ninekube.Exec.{
  Exec, Outcome, ok, err, panic, Error, pure, attempt, attempted, continue, ◌>>=◌, for_each,
}

pub record IsFaultless {S A : Type 0} (m : Exec S A) : Type 0 where
  pub at : (s : S) (e : Error) → (m s).0 ≡ err e → ⊥

attempted-ne-err : {A : Type 0} (r : Outcome A) (e : Error) → attempted r ≡ err e → ⊥
attempted-ne-err (ok a) e h = cc
attempted-ne-err (err m) e h = cc
attempted-ne-err panic e h = cc

module _ {S A : Type 0} where
  pub pure-IsFaultless : (a : A) → IsFaultless {S = S} (pure a)
  unfolding pure
  pure-IsFaultless a = record { at = λ s e h. cc }

  -- The error is kept for the code that follows.
  pub attempt-IsFaultless : (m : Exec S A) → IsFaultless (attempt m)
  unfolding attempt
  attempt-IsFaultless m = record { at = λ s e h. attempted-ne-err (m s).0 e h }

module _ {S A B : Type 0} where
  continue-IsFaultless :
      (r : Outcome A) (f : A → Exec S B) (s : S) (e : Error)
      → ((m : Error) → r ≡ err m → ⊥)
      → ((a : A) → IsFaultless (f a))
      → (continue r f s).0 ≡ err e
      → ⊥
  continue-IsFaultless (ok a) f s e h k g = (k a).at s e g
  continue-IsFaultless (err m) f s e h k g = h m refl
  continue-IsFaultless panic f s e h k g = cc

  pub bind-IsFaultless :
      (m : Exec S A) (f : A → Exec S B)
      → IsFaultless m
      → ((a : A) → IsFaultless (f a))
      → IsFaultless (m >>= f)
  unfolding ◌>>=◌
  bind-IsFaultless m f h k = record {
    at = λ s e g. continue-IsFaultless (m s).0 f (m s).1 e (λ x p. h.at s x p) k g;
  }

module _ {S A : Type 0} where
  pub for_each-IsFaultless :
      (xs : List A) (f : A → Exec S (Unit {0}))
      → ((x : A) → IsFaultless (f x))
      → IsFaultless (for_each xs f)
  unfolding for_each
  for_each-IsFaultless [] f h = pure-IsFaultless tt
  for_each-IsFaultless (x ∷ xs) f h =
      bind-IsFaultless (f x) (λ _. for_each xs f) (h x) (λ _. for_each-IsFaultless xs f h)
