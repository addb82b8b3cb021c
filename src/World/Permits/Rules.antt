-- ===== src/World/Permits/Rules.antt =====
-- The rules for a relation that provisioning may move along, one for each call of the world and each
-- way to build an action.
use ninekube.Prelude.{ℕ, Option, List}
use ninekube.Exec.{Exec, Error, Outcome, pure, raise, crash, lift, total, ◌>>=◌, for_each}
use ninekube.Exec.Moves.{
  Moves, Moves-pure, Moves-raise, Moves-crash, Moves-lift, Moves-attempt, Moves-if, Moves-bind,
  Moves-for_each,
}
use ninekube.Kube.{Key, Object}
use ninekube.World.{World, Certificate}
use ninekube.World.Permits.{Permits}

module _ {W : World} {R : W.State → W.State → Type 0} {C : Object → Type 0}
    (P : Permits W R C) where
  pub get-Moves : (k : Key) → Moves R (W.get k)
  get-Moves k = P.get k

  pub now-Moves : Moves R (total W.now)
  now-Moves = P.now

  pub rand_int-Moves : (n : ℕ) → Moves R (W.rand_int n)
  rand_int-Moves n = P.rand_int n

  pub generate_rsa_key-Moves : (n : ℕ) → Moves R (W.generate_rsa_key n)
  generate_rsa_key-Moves n = P.generate_rsa_key n

  pub create_certificate-Moves :
      (t : Certificate) (p : Option Certificate) (a b : W.PrivateKey)
      → Moves R (W.create_certificate t p a b)
  create_certificate-Moves t p a b = P.create_certificate t p a b

  module _ {A : Type 0} where
    pub pure-Moves : (a : A) → Moves R (pure a)
    pure-Moves a = Moves-pure P.pre a

    pub raise-Moves : (e : Error) → Moves R (raise {A = A} e)
    raise-Moves e = Moves-raise P.pre e

    pub crash-Moves : Moves R (crash {A = A})
    crash-Moves = Moves-crash P.pre

    pub lift-Moves : (r : Outcome A) → Moves R (lift r)
    lift-Moves r = Moves-lift P.pre r

    pub for_each-Moves :
        (xs : List A) (f : A → Exec W.State (Unit {0}))
        → ((x : A) → Moves R (f x))
        → Moves R (for_each xs f)
    for_each-Moves xs f h = Moves-for_each P.pre xs f h

  module _ {A B : Type 0} where
    pub bind-Moves :
        (m : Exec W.State A) (f : A → Exec W.State B)
        → Moves R m
        → ((a : A) → Moves R (f a))
        → Moves R (m >>= f)
    bind-Moves m f hm hf = Moves-bind P.pre m f hm hf

pub ruleset moves_rules = (
  get-Moves, now-Moves, rand_int-Moves, generate_rsa_key-Moves, create_certificate-Moves,
  pure-Moves, raise-Moves, crash-Moves, lift-Moves, bind-Moves, for_each-Moves, Moves-attempt,
  Moves-if,
)
