-- ===== src/Exec/Succeeds.antt =====
-- Actions that end well: from a state where the first predicate holds they return a value, without
-- an error or a panic, and the second predicate holds of the state that they leave.
use ninekube.Prelude.{◌≡◌, refl, ap, List, [], ◌∷◌, Bool, true, false, if◌then◌else◌, All}
use ninekube.Exec.{
  Outcome, ok, Exec, got, pure, lift, attempt, attempted, continue, ◌>>=◌, for_each,
}

pub record Succeeds {S A : Type 0} (I J : S → Type 0) (P : A → Type 0) (m : Exec S A) : Type 0 where
  pub at : (s : S) → I s → (a : A) × ((m s).0 ≡ ok a) × P a × J (m s).1

-- The value matters to no one.
abbrev pub Ends : {S A : Type 0} → (I J : S → Type 0) → Exec S A → Type 0
Ends {A = A} I J m = Succeeds I J (λ (a : A). Unit) m

module _ {S A : Type 0} {I : S → Type 0} where
  pub Succeeds-pure : {P : A → Type 0} (a : A) → P a → Succeeds I I P (pure a)
  unfolding pure
  Succeeds-pure a p = record { at = λ s i. (a, refl, p, i) }

  pub Succeeds-lift :
      {P : A → Type 0} (r : Outcome A) (a : A) → r ≡ ok a → P a → Succeeds I I P (lift r)
  unfolding lift
  Succeeds-lift r a e p = record { at = λ s i. (a, e, p, i) }

module _ {S A : Type 0} {I J : S → Type 0} {P : A → Type 0} where
  -- What `attempt` gives is the value, and no error.
  pub Succeeds-attempt :
      (m : Exec S A)
      → Succeeds I J P m
      → Succeeds I J (λ r. (a : A) × (r ≡ got a) × P a) (attempt m)
  unfolding attempt
  Succeeds-attempt m h = record {
    at = λ s i. let (a, e, p, j) = h.at s i in (got a, ap attempted e, (a, refl, p), j);
  }

  pub Succeeds-weaken :
      {Q : A → Type 0} (m : Exec S A) → ((a : A) → P a → Q a) → Succeeds I J P m → Succeeds I J Q m
  Succeeds-weaken m f h = record { at = λ s i. let (a, e, p, j) = h.at s i in (a, e, f a p, j) }

  pub Succeeds-before :
      {I' : S → Type 0} (m : Exec S A)
      → ((s : S) → I' s → I s)
      → Succeeds I J P m
      → Succeeds I' J P m
  Succeeds-before m f h = record { at = λ s i. h.at s (f s i) }

  pub Succeeds-if :
      (b : Bool) (m n : Exec S A)
      → (b ≡ true → Succeeds I J P m)
      → (b ≡ false → Succeeds I J P n)
      → Succeeds I J P (if b then m else n)
  Succeeds-if true m n hm hn = hm refl
  Succeeds-if false m n hm hn = hn refl

module _ {S A B : Type 0} where
  continue-Succeeds :
      (K : S → Type 0) (Q : B → Type 0) (r : Outcome A) (f : A → Exec S B) (t : S) (a : A)
      → r ≡ ok a
      → ((b : B) × ((f a t).0 ≡ ok b) × Q b × K (f a t).1)
      → ((b : B) × ((continue r f t).0 ≡ ok b) × Q b × K (continue r f t).1)
  continue-Succeeds K Q r f t a e h = rw e h

module _ {S A B : Type 0} {I J K : S → Type 0} {P : A → Type 0} {Q : B → Type 0} where
  pub Succeeds-bind :
      (m : Exec S A) (f : A → Exec S B)
      → Succeeds I J P m
      → ((a : A) → P a → Succeeds J K Q (f a))
      → Succeeds I K Q (m >>= f)
  unfolding ◌>>=◌
  Succeeds-bind m f hm hf = record {
    at = λ s i.
        let (a, e, p, j) = hm.at s i in
        continue-Succeeds K Q (m s).0 f (m s).1 a e ((hf a p).at (m s).1 j);
  }

module _ {S A : Type 0} {I : S → Type 0} where
  pub Succeeds-for_each :
      (xs : List A) (f : A → Exec S (Unit {0}))
      → ((x : A) → Ends I I (f x))
      → Ends I I (for_each xs f)
  unfolding for_each
  Succeeds-for_each [] f h = Succeeds-pure tt tt
  Succeeds-for_each (x ∷ xs) f h =
      Succeeds-bind (f x) (λ _. for_each xs f) (h x) (λ _ _. Succeeds-for_each xs f h)

  pub Succeeds-for_All :
      (P : A → Type 0) (xs : List A) (f : A → Exec S (Unit {0}))
      → All P xs
      → ((x : A) → P x → Ends I I (f x))
      → Ends I I (for_each xs f)
  unfolding for_each
  Succeeds-for_All P [] f ps h = Succeeds-pure tt tt
  Succeeds-for_All P (x ∷ xs) f (p, ps) h =
      Succeeds-bind (f x) (λ _. for_each xs f) (h x p) (λ _ _. Succeeds-for_All P xs f ps h)

-- The same with a condition on the state that may speak of the value.
pub record Yields {S A : Type 0} (I : S → Type 0) (J : A → S → Type 0) (P : A → Type 0)
    (m : Exec S A) : Type 0 where
  pub at : (s : S) → I s → (a : A) × ((m s).0 ≡ ok a) × P a × J a (m s).1

module _ {S A : Type 0} {I : S → Type 0} {J : A → S → Type 0} {P : A → Type 0} where
  pub Yields-if :
      (b : Bool) (m n : Exec S A)
      → (b ≡ true → Yields I J P m)
      → (b ≡ false → Yields I J P n)
      → Yields I J P (if b then m else n)
  Yields-if true m n hm hn = hm refl
  Yields-if false m n hm hn = hn refl

  pub Yields-bind :
      {B : Type 0} {K : S → Type 0} {Q : B → Type 0} (m : Exec S A) (f : A → Exec S B)
      → Yields I J P m
      → ((a : A) → P a → Succeeds (J a) K Q (f a))
      → Succeeds I K Q (m >>= f)
  unfolding ◌>>=◌
  Yields-bind {K = K} {Q = Q} m f hm hf = record {
    at = λ s i.
        let (a, e, p, j) = hm.at s i in
        continue-Succeeds K Q (m s).0 f (m s).1 a e ((hf a p).at (m s).1 j);
  }

module _ {S A : Type 0} {P : A → Type 0} where
  pub Succeeds-return :
      {I J : S → Type 0} (a : A) → P a → ((s : S) → I s → J s) → Succeeds I J P (pure a)
  unfolding pure
  Succeeds-return a p f = record { at = λ s i. (a, refl, p, f s i) }

  pub Yields-pure : {J : A → S → Type 0} (a : A) → P a → Yields (J a) J P (pure a)
  unfolding pure
  Yields-pure a p = record { at = λ s j. (a, refl, p, j) }
