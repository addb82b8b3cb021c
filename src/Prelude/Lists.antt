-- ===== src/Prelude/Lists.antt =====
-- What holds of each entry of a list, and of some entry.
use ninekube.Prelude.{
  ◌≡◌, refl, true, false, Bool, ◌⊎◌, inl, inr, List, [], ◌∷◌, ◌++◌, All, if◌then◌else◌,
}

module _ {A : Type 0} (P : A → Type 0) where
  abbrev pub Any : List A → Type 0
  Any [] = ⊥
  Any (x ∷ xs) = P x ⊎ Any xs

  pub All-append : (xs ys : List A) → All P xs → All P ys → All P (xs ++ ys)
  All-append [] ys h k = k
  All-append (x ∷ xs) ys (h, hs) k = (h, All-append xs ys hs k)

  All-if : (b : Bool) (x : A) → (b ≡ true → P x) → All P (if b then x ∷ [] else [])
  All-if true x h = (h refl, tt)
  All-if false x h = tt

  -- The entries that three tests add, one each.
  pub All-three :
      (a b c : Bool) (x y z : A)
      → (a ≡ true → P x)
      → (b ≡ true → P y)
      → (c ≡ true → P z)
      → All P
          ((if a then x ∷ [] else []) ++ ((if b then y ∷ [] else []) ++ (if c then z ∷ [] else [])))
  All-three a b c x y z p q r = All-append (if a then x ∷ [] else []) _ (All-if a x p) (
      All-append (if b then y ∷ [] else []) (if c then z ∷ [] else []) (All-if b y q)
        (All-if c z r))

  pub Any-right : (xs ys : List A) → Any ys → Any (xs ++ ys)
  Any-right [] ys h = h
  Any-right (x ∷ xs) ys h = inr (Any-right xs ys h)

  pub Any-left : (xs ys : List A) → Any xs → Any (xs ++ ys)
  Any-left [] ys h = absurd h
  Any-left (x ∷ xs) ys (inl h) = inl h
  Any-left (x ∷ xs) ys (inr h) = inr (Any-left xs ys h)

  pub Any-if : (b : Bool) (x : A) → b ≡ true → P x → Any (if b then x ∷ [] else [])
  Any-if true x e h = inl h
  Any-if false x e h = absurd (cc)

module _ {A : Type 0} {P Q : A → Type 0} where
  pub All-map : (xs : List A) → ((x : A) → P x → Q x) → All P xs → All Q xs
  All-map [] f h = tt
  All-map (x ∷ xs) f (h, hs) = (f x h, All-map xs f hs)

  -- Some entry has the one, each has the other: some entry has both.
  pub All-Any : (xs : List A) → All P xs → Any Q xs → (x : A) × P x × Q x
  All-Any [] h k = absurd k
  All-Any (x ∷ xs) (h, hs) (inl q) = (x, h, q)
  All-Any (x ∷ xs) (h, hs) (inr q) = All-Any xs hs q

module _ {A : Type 0} (P Q : A → Type 0) where
  pub All-both : (xs : List A) → All P xs → All Q xs → All (λ x. P x × Q x) xs
  All-both [] h k = tt
  All-both (x ∷ xs) (h, hs) (k, ks) = ((h, k), All-both xs hs ks)
