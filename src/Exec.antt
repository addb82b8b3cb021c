-- ===== src/Exec.antt =====
-- Go functions that return `error` and act on the outside world. What was done before an error
-- stays done, so the state comes back beside the error too; a nil dereference is a `panic`.
pub mod Moves
pub mod Faultless
pub mod Succeeds
use ninekube.Prelude.{String, ◌<>◌, Bool, true, false, List, [], ◌∷◌}

-- The reasons that the code distinguishes in an error of the Kubernetes API.
pub data Reason : Type 0 where
  not_found already_exists other_reason : Reason

-- `error` values: an API status, `fmt.Errorf` with no cause, and `fmt.Errorf("...: %w", err)`.
pub data Error : Type 0 where
  api : Reason → String → Error
  plain : String → Error
  wrapped : String → Error → Error

-- `err.Error()`
unfoldable pub message : Error → String
message (api r m) = m
message (plain m) = m
message (wrapped m e) = m <> ": " <> message e

-- `errors.IsNotFound(err)`, which looks through wrapped errors
unfoldable pub is_not_found : Error → Bool
is_not_found (api not_found m) = true
is_not_found (api _ m) = false
is_not_found (plain m) = false
is_not_found (wrapped m e) = is_not_found e

pub data Outcome (A : Type 0) : Type 0 where
  ok : A → Outcome A
  err : Error → Outcome A
  panic : Outcome A

abbrev pub Exec : Type 0 → Type 0 → Type 0
Exec S A = S → Outcome A × S

-- `value, err := call()`, with the error kept for the code that follows
pub data Attempt (A : Type 0) : Type 0 where
  got : A → Attempt A
  failed : Error → Attempt A

abbrev pub attempted : {A : Type 0} → Outcome A → Outcome (Attempt A)
attempted (ok a) = ok (got a)
attempted (err e) = ok (failed e)
attempted panic = panic

module _ {S A : Type 0} where
  unfoldable pub pure : A → Exec S A
  pure a s = (ok a, s)

  unfoldable pub raise : Error → Exec S A
  raise e s = (err e, s)

  unfoldable pub crash : Exec S A
  crash s = (panic, s)

  unfoldable pub lift : Outcome A → Exec S A
  lift r s = (r, s)

  -- a call that cannot fail
  unfoldable pub total : (S → A × S) → Exec S A
  total f s = let (a, t) = f s in (ok a, t)

  unfoldable pub attempt : Exec S A → Exec S (Attempt A)
  attempt m s = let (r, t) = m s in (attempted r, t)

module _ {S A B : Type 0} where
  abbrev pub continue : Outcome A → (A → Exec S B) → Exec S B
  continue (ok a) f s = f a s
  continue (err e) f s = (err e, s)
  continue panic f s = (panic, s)

  infixl 10 ◌>>=◌ ◌>>◌
  unfoldable pub ◌>>=◌ : Exec S A → (A → Exec S B) → Exec S B
  ◌>>=◌ m f s = let (r, t) = m s in continue r f t

  abbrev pub ◌>>◌ : Exec S A → Exec S B → Exec S B
  m >> n = m >>= λ _. n

module _ {S A : Type 0} where
  -- `for _, x := range xs { if err := f(x); err != nil { return err } }`
  unfoldable pub for_each : List A → (A → Exec S (Unit {0})) → Exec S (Unit {0})
  for_each [] f = pure tt
  for_each (x ∷ xs) f = f x >> for_each xs f
