-- ===== src/Controller/Password.antt =====
-- Random passwords: `generateRandomPassword`, `getOrGeneratePassword` and `getOrCreatePassword`
-- of operator/internal/controller/clientnamespace_controller.go.
pub mod Moving
pub mod Bounds
use Prim.Native.String.{len}
use ninekube.Prelude.{
  ℕ, zero, suc, String, StringMap, ◌<>◌, Option, none, some, ◌==◌, lookup, if◌then◌else◌,
}
use ninekube.Exec.{Exec, Attempt, got, failed, pure, crash, attempt, ◌>>=◌}
use ninekube.Api.{StorageConfig}
use ninekube.Kube.{Object, secret_kind, secret_data}
use ninekube.World.{World}
use ninekube.Controller.Ensure.{key}

abbrev pub charset : String
charset = "abcdefghijklmnopqrstuvwxyzABCDEFGHIJKLMNOPQRSTUVWXYZ0123456789!$^*-=+"

module _ {S : Type 0} where
  -- charset[i], as a text of one character; out of range it panics
  unfoldable pub char_at : String → ℕ → Exec S String
  char_at String.[] i = crash
  char_at (String.◌∷◌ c s) zero = pure (String.◌∷◌ c String.[])
  char_at (String.◌∷◌ c s) (suc i) = char_at s i

-- `value, ok := m[key]; ok && len(value) > 0`
unfoldable pub filled : String → StringMap → Option String
unfolding lookup
filled k m = elim (lookup k m) [ none ↦ none | some v ↦ if v == "" then none else some v ]

-- `value, _ := call()`: the zero value stands for what an error left out
unfoldable pub or_empty : Attempt String → String
or_empty (got s) = s
or_empty (failed e) = ""

abbrev overridden : Option StorageConfig → (StorageConfig → String) → Option String
overridden none field = none
overridden (some storage) field = if field storage == "" then none else some (field storage)

-- The user's own root password of a field of the spec, if the spec gives one.
unfoldable pub override : Option StorageConfig → String → Option String
override storage field =
    if field == "postgresRootPassword"
    then overridden storage (λ st. st.postgres_root_password)
    else if field == "rustfsRootPassword"
    then overridden storage (λ st. st.rustfs_root_password)
    else none

module _ (W : World) where
  unfoldable pub generate_random_password : ℕ → Exec W.State String
  generate_random_password zero = pure ""
  generate_random_password (suc length) = do
    n ← W.rand_int (len charset)
    c ← char_at charset n
    rest ← generate_random_password length
    pure (c <> rest)

  -- `pass, _ := generateRandomPassword(length)`
  unfoldable pub random_or_empty : ℕ → Exec W.State String
  unfolding or_empty
  random_or_empty length = do pass ← attempt (generate_random_password length); pure (or_empty pass)

  unfoldable pub or_random : Option String → Exec W.State String
  or_random (some pass) = pure pass
  or_random none = random_or_empty 32

  unfoldable pub get_or_generate_password :
      Option StorageConfig → String → String → Exec W.State String
  unfolding or_random override
  get_or_generate_password storage field seed = or_random (override storage field)

  -- the password in the Secret that was read, if it was read and has one
  unfoldable pub existing_password : String → Attempt Object → Option String
  unfolding filled
  existing_password secret_key (got secret) = filled secret_key (secret_data secret.body)
  existing_password secret_key (failed e) = none

  unfoldable pub read_or_random : String → String → String → Exec W.State String
  unfolding or_random existing_password
  read_or_random ns secret_name secret_key = do
    secret ← attempt (W.get (key secret_kind ns secret_name))
    or_random (existing_password secret_key secret)

  unfoldable pub given_or_read : Option String → String → String → String → Exec W.State String
  unfolding read_or_random
  given_or_read (some pass) ns secret_name secret_key = pure pass
  given_or_read none ns secret_name secret_key = read_or_random ns secret_name secret_key

  unfoldable pub get_or_create_password :
      String → String → String → Option StorageConfig → String → String → Exec W.State String
  unfolding override given_or_read
  get_or_create_password ns secret_name secret_key storage storage_field seed =
      given_or_read (override storage storage_field) ns secret_name secret_key
