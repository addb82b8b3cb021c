-- ===== src/World/Permits.antt =====
-- The moves that provisioning may make: a relation on clusters that holds across each call of the
-- world that the operator makes to provision a client, but for those that write the resource. What is
-- proved of the operator's methods for such a relation holds for each of them: that a call only adds
-- the client's objects, and that it leaves the stored resources alone.
pub mod Rules
use ninekube.Prelude.{ℕ, String, StringMap, ◌≡◌, true, Option}
use ninekube.Exec.{total}
use ninekube.Exec.Moves.{Moves, IsPreorder}
use ninekube.Kube.{Key, Object, key_of, has_labels}
use ninekube.World.{World, Certificate}
use ninekube.World.Grows.{IsOwn}

-- An object of the namespace, or the Namespace itself, with the labels.
abbrev pub IsClients : String → StringMap → Object → Type 0
IsClients ns labels o = IsOwn ns (key_of o) × (has_labels o.meta.labels labels ≡ true)

-- `C` is what may be created.
pub record Permits (W : World) (R : W.State → W.State → Type 0) (C : Object → Type 0) : Type 0 where
  pub pre : IsPreorder R
  pub get : (k : Key) → Moves R (W.get k)
  pub now : Moves R (total W.now)
  pub rand_int : (n : ℕ) → Moves R (W.rand_int n)
  pub generate_rsa_key : (n : ℕ) → Moves R (W.generate_rsa_key n)
  pub create_certificate :
      (t : Certificate) (p : Option Certificate) (a b : W.PrivateKey)
      → Moves R (W.create_certificate t p a b)
  pub create : (o : Object) → C o → Moves R (W.create o)
