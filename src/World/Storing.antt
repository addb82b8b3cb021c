-- ===== src/World/Storing.antt =====
-- What the proofs rely on of the API server's record of a ClientNamespace while no other client
-- writes to it: reads, new objects, the clock and the crypto packages leave it alone, and an update
-- of the status is either stored whole or leaves no trace.
use ninekube.Prelude.{ℕ, String, ◌≡◌, ◌⊎◌, true, Option, none, some}
use ninekube.Exec.{err, Error, is_not_found}
use ninekube.Api.{ClientNamespace, NamespacedName}
use ninekube.Kube.{Key, Object}
use ninekube.World.{World, Certificate}
use ninekube.World.Lawful.{Lawful, name_of, UniqueTypes}

-- The same resource, up to its status and its version.
abbrev pub SameResource : ClientNamespace → ClientNamespace → Type 0
SameResource cn new =
    (new.spec ≡ cn.spec)
    × (name_of new ≡ name_of cn)
    × (new.deleted ≡ cn.deleted)
    × (new.finalizers ≡ cn.finalizers)

pub record Storing {W : World} (L : Lawful W) : Type 0 where
  pub get_kept :
      (k : Key) (s : W.State) (n : NamespacedName) → L.stored (W.get k s).1 n ≡ L.stored s n
  pub create_kept :
      (o : Object) (s : W.State) (n : NamespacedName) → L.stored (W.create o s).1 n ≡ L.stored s n
  -- "Not found" is said of what is not stored.
  pub get_client_namespace_missing :
      (n : NamespacedName) (s : W.State) (e : Error)
      → (W.get_client_namespace n s).0 ≡ err e
      → is_not_found e ≡ true
      → L.stored s n ≡ none
  pub now_kept : (s : W.State) (n : NamespacedName) → L.stored (W.now s).1 n ≡ L.stored s n
  pub rand_int_kept :
      (i : ℕ) (s : W.State) (n : NamespacedName) → L.stored (W.rand_int i s).1 n ≡ L.stored s n
  pub generate_rsa_key_kept :
      (i : ℕ) (s : W.State) (n : NamespacedName)
      → L.stored (W.generate_rsa_key i s).1 n ≡ L.stored s n
  pub create_certificate_kept :
      (t : Certificate) (p : Option Certificate) (a b : W.PrivateKey) (s : W.State)
      (n : NamespacedName)
      → L.stored (W.create_certificate t p a b s).1 n ≡ L.stored s n
  -- Where the call returns an error, the status may have been stored, or not.
  pub update_status_stored :
      (cn : ClientNamespace) (s : W.State)
      → (L.stored (W.update_status cn s).1 (name_of cn) ≡ L.stored s (name_of cn))
        ⊎ ((new : ClientNamespace) × (L.stored (W.update_status cn s).1 (name_of cn) ≡ some new)
            × (new.status ≡ cn.status)
            × SameResource cn new
            × UniqueTypes cn.status.conditions)
  -- `ContainsFinalizer` looks at the finalizers only.
  pub contains_finalizer_of :
      (a b : ClientNamespace) (f : String)
      → a.finalizers ≡ b.finalizers
      → W.contains_finalizer a f ≡ W.contains_finalizer b f
