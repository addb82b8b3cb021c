-- ===== src/Controller/Password/Moving.antt =====
-- Drawing and reading passwords, for any relation that provisioning may move along.
use ninekube.Prelude.{ℕ, zero, suc, String, Option, none, some}
use ninekube.Exec.Moves.{Moves}
use ninekube.Api.{StorageConfig}
use ninekube.Kube.{Object}
use ninekube.World.{World}
use ninekube.World.Permits.{Permits}
use ninekube.World.Permits.Rules.{moves_rules, pure-Moves, crash-Moves, bind-Moves, rand_int-Moves}
use ninekube.Controller.Password.{
  charset, char_at, generate_random_password, random_or_empty, or_random, read_or_random,
  given_or_read, get_or_create_password,
}

module _ {W : World} {R : W.State → W.State → Type 0} {C : Object → Type 0}
    (P : Permits W R C) where
  char_at-Moves : (s : String) (i : ℕ) → Moves R (char_at s i)
  unfolding char_at
  char_at-Moves String.[] i = crash-Moves P
  char_at-Moves (String.◌∷◌ c s) zero = pure-Moves P _
  char_at-Moves (String.◌∷◌ c s) (suc i) = char_at-Moves s i

  pub generate_random_password-Moves : (n : ℕ) → Moves R (generate_random_password W n)
  unfolding generate_random_password
  generate_random_password-Moves zero = pure-Moves P _
  generate_random_password-Moves (suc n) = bind-Moves P _ _ (rand_int-Moves P _) (λ i.
      bind-Moves P _ _ (char_at-Moves charset i)
        (λ c. bind-Moves P _ _ (generate_random_password-Moves n) (λ rest. pure-Moves P _)))

  pub random_or_empty-Moves : (n : ℕ) → Moves R (random_or_empty W n)
  unfolding random_or_empty
  random_or_empty-Moves n = search (moves_rules, generate_random_password-Moves)

  or_random-Moves : (o : Option String) → Moves R (or_random W o)
  unfolding or_random
  or_random-Moves (some p) = pure-Moves P p
  or_random-Moves none = random_or_empty-Moves 32

  read_or_random-Moves : (a b c : String) → Moves R (read_or_random W a b c)
  unfolding read_or_random
  read_or_random-Moves a b c = search (moves_rules, or_random-Moves)

  given_or_read-Moves : (o : Option String) (a b c : String) → Moves R (given_or_read W o a b c)
  unfolding given_or_read
  given_or_read-Moves (some p) a b c = pure-Moves P p
  given_or_read-Moves none a b c = read_or_random-Moves a b c

  pub get_or_create_password-Moves :
      (a b c : String) (st : Option StorageConfig) (f g : String)
      → Moves R (get_or_create_password W a b c st f g)
  unfolding get_or_create_password
  get_or_create_password-Moves a b c st f g = given_or_read-Moves _ a b c
