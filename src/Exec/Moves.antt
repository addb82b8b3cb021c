-- ===== src/Exec/Moves.antt =====
-- How an action moves the state: a relation between the state before and the state after,
-- whatever the outcome, with one rule for each way to build an action.
use ninekube.Prelude.{◌≡◌, refl, List, [], ◌∷◌, Bool, true, false, if◌then◌else◌, All}
use mathlib.Core.Path.{subst}
use ninekube.Exec.{
  Outcome, ok, err, panic, Error, Exec, pure, raise, crash, lift, attempt, continue, ◌>>=◌,
  for_each,
}

pub record Moves {S A : Type 0} (R : S → S → Type 0) (m : Exec S A) : Type 0 where
  pub at : (s : S) → R s (m s).1

-- After the action returned without an error, the predicate holds of the result and the state.
pub record Returns {S A : Type 0} (P : A → S → Type 0) (m : Exec S A) : Type 0 where
  pub at : (s : S) (a : A) → (m s).0 ≡ ok a → P a (m s).1

pub record IsPreorder {S : Type 0} (R : S → S → Type 0) : Type 0 where
  pub refl_at : (s : S) → R s s
  pub trans_at : (s t u : S) → R s t → R t u → R s u

-- A predicate that the moves of `R` keep.
pub record IsStable {S : Type 0} (R : S → S → Type 0) (P : S → Type 0) : Type 0 where
  pub along : (s t : S) → R s t → P s → P t

module _ {S A : Type 0} {R : S → S → Type 0} (pre : IsPreorder R) where
  pub Moves-pure : (a : A) → Moves R (pure a)
  unfolding pure
  Moves-pure a = record { at = pre.refl_at }

  pub Moves-raise : (e : Error) → Moves R (raise {A = A} e)
  unfolding raise
  Moves-raise e = record { at = pre.refl_at }

  pub Moves-crash : Moves R (crash {A = A})
  unfolding crash
  Moves-crash = record { at = pre.refl_at }

  pub Moves-lift : (r : Outcome A) → Moves R (lift r)
  unfolding lift
  Moves-lift r = record { at = pre.refl_at }

module _ {S A : Type 0} {R : S → S → Type 0} where
  pub Moves-attempt : (m : Exec S A) → Moves R m → Moves R (attempt m)
  unfolding attempt
  Moves-attempt m h = record { at = h.at }

  pub Moves-if :
      (b : Bool) (m n : Exec S A)
      → (b ≡ true → Moves R m)
      → (b ≡ false → Moves R n)
      → Moves R (if b then m else n)
  Moves-if true m n km kn = km refl
  Moves-if false m n km kn = kn refl

module _ {S A B : Type 0} {R : S → S → Type 0} (pre : IsPreorder R) where
  Moves-continue :
      (r : Outcome A) (f : A → Exec S B) (s : S)
      → ((a : A) → Moves R (f a))
      → R s (continue r f s).1
  Moves-continue (ok a) f s h = (h a).at s
  Moves-continue (err e) f s h = pre.refl_at s
  Moves-continue panic f s h = pre.refl_at s

  Moves-continue_ran :
      (r : Outcome A) (f : A → Exec S B) (s : S)
      → ((a : A) → r ≡ ok a → R s (f a s).1)
      → R s (continue r f s).1
  Moves-continue_ran (ok a) f s h = h a refl
  Moves-continue_ran (err e) f s h = pre.refl_at s
  Moves-continue_ran panic f s h = pre.refl_at s

  pub Moves-bind :
      (m : Exec S A) (f : A → Exec S B) → Moves R m → ((a : A) → Moves R (f a)) → Moves R (m >>= f)
  unfolding ◌>>=◌
  Moves-bind m f hm hf = record {
    at = λ s. pre.trans_at s (m s).1 _ (hm.at s) (Moves-continue (m s).0 f (m s).1 hf);
  }

module _ {S A B : Type 0} {R : S → S → Type 0} (pre : IsPreorder R) where
  -- The rest of a block may use what its first action returned.
  pub Moves-bind-Returns :
      {P : A → Type 0} (m : Exec S A) (f : A → Exec S B)
      → Moves R m
      → Returns (λ a _. P a) m
      → ((a : A) → P a → Moves R (f a))
      → Moves R (m >>= f)
  unfolding ◌>>=◌
  Moves-bind-Returns m f hm hr hf = record {
    at = λ s.
        pre.trans_at s (m s).1 _ (hm.at s)
          (Moves-continue_ran pre (m s).0 f (m s).1 (λ a ran. (hf a (hr.at s a ran)).at (m s).1));
  }

module _ {S A : Type 0} {R : S → S → Type 0} (pre : IsPreorder R) where
  pub Moves-for_each :
      (xs : List A) (f : A → Exec S (Unit {0}))
      → ((x : A) → Moves R (f x))
      → Moves R (for_each xs f)
  unfolding for_each
  Moves-for_each [] f h = Moves-pure pre tt
  Moves-for_each (x ∷ xs) f h =
      Moves-bind pre (f x) (λ _. for_each xs f) (h x) (λ _. Moves-for_each xs f h)

module _ {S A : Type 0} {R : S → S → Type 0} (pre : IsPreorder R) where
  pub Moves-for_All :
      (P : A → Type 0) (xs : List A) (f : A → Exec S (Unit {0}))
      → All P xs
      → ((x : A) → P x → Moves R (f x))
      → Moves R (for_each xs f)
  unfolding for_each
  Moves-for_All P [] f ps h = Moves-pure pre tt
  Moves-for_All P (x ∷ xs) f (p, ps) h =
      Moves-bind pre (f x) (λ _. for_each xs f) (h x p) (λ _. Moves-for_All P xs f ps h)

module _ {S A B : Type 0} where
  -- A bind that returned has run both of its parts to an end.
  bind_ok :
      (r : Outcome A) (f : A → Exec S B) (s : S) {b : B}
      → (continue r f s).0 ≡ ok b
      → (a : A) × (r ≡ ok a) × ((f a s).0 ≡ ok b) × ((continue r f s).1 ≡ (f a s).1)
  bind_ok (ok a) f s h = (a, refl, h, refl)
  bind_ok (err e) f s h = cc
  bind_ok panic f s h = cc

  pub bind-ok :
      (m : Exec S A) (f : A → Exec S B) (s : S) (b : B)
      → ((m >>= f) s).0 ≡ ok b
      → (a : A) × ((m s).0 ≡ ok a) × ((f a (m s).1).0 ≡ ok b) × (((m >>= f) s).1 ≡ (f a (m s).1).1)
  unfolding ◌>>=◌
  bind-ok m f s b e = bind_ok (m s).0 f (m s).1 e

  -- What the rest of a block returns, given what its first action returned.
  pub Returns-bind :
      {P : A → S → Type 0} {Q : B → S → Type 0} (m : Exec S A) (f : A → Exec S B)
      → Returns P m
      → ((a : A) (s : S) (b : B) → P a s → (f a s).0 ≡ ok b → Q b (f a s).1)
      → Returns Q (m >>= f)
  unfolding ◌>>=◌
  Returns-bind {Q = Q} m f hm hf = record {
    at = λ s b e.
        let (a, ran, rest, same) = bind_ok (m s).0 f (m s).1 e in
        rw same (hf a (m s).1 b (hm.at s a ran) rest);
  }

module _ {S A B : Type 0} {R : S → S → Type 0} {P : S → Type 0} where
  -- What the first action established, the rest of the block keeps.
  pub Returns-first :
      IsStable R P
      → (m : Exec S A) (f : A → Exec S B) → Returns (λ _. P) m
      → ((a : A) → Moves R (f a))
      → Returns (λ _. P) (m >>= f)
  Returns-first stable m f hm hf =
      Returns-bind m f hm (λ a s b p _. stable.along s (f a s).1 ((hf a).at s) p)

module _ {S A B : Type 0} {P : B → S → Type 0} where
  pub Returns-rest :
      (m : Exec S A) (f : A → Exec S B) → ((a : A) → Returns P (f a)) → Returns P (m >>= f)
  Returns-rest m f hf =
      Returns-bind {P = λ _ _. Unit} m f (record { at = λ _ _ _. tt })
        (λ a s b _ e. (hf a).at s b e)

module _ {S A : Type 0} {P : A → S → Type 0} where
  pub Returns-raise : (e : Error) → Returns P (raise e)
  unfolding raise
  Returns-raise e = record { at = λ s a h. absurd (cc) }

  pub Returns-crash : Returns P (crash {A = A})
  unfolding crash
  Returns-crash = record { at = λ s a h. absurd (cc) }

  pub Returns-if :
      (b : Bool) (m n : Exec S A)
      → (b ≡ true → Returns P m)
      → (b ≡ false → Returns P n)
      → Returns P (if b then m else n)
  Returns-if true m n hm hn = hm refl
  Returns-if false m n hm hn = hn refl

module _ {S A : Type 0} {P : A → Type 0} where
  pub Returns-pure : (a : A) → P a → Returns {S = S} (λ b _. P b) (pure a)
  unfolding pure
  Returns-pure a p = record { at = λ s b h. returned a b s p h }
    where
      returned : (a b : A) (s : S) → P a → ok a ≡ ok b → P b
      returned a b s p h = subst P (cc h) p

module _ {S A B : Type 0} {Q : B → S → Type 0} where
  -- A block whose first action never returns never returns.
  pub Returns-never : (m : Exec S A) (f : A → Exec S B) → Returns (λ _ _. ⊥) m → Returns Q (m >>= f)
  Returns-never m f h = Returns-bind m f h (λ a s b never _. absurd never)
