-- ===== src/World/Lawful.antt =====
-- What the proofs rely on of the world: the documented behaviour of the Kubernetes API while no
-- other client writes to the objects in question. `object` and `stored` are what the API server
-- holds, and `admit` is what it makes of an object that it stores (defaults, `StringData` merged
-- into `Data`).
use ninekube.Prelude.{
  ℕ, ◌<◌, String, StringMap, ◌≡◌, ◌≢◌, true, Option, none, some, List, [], ◌∷◌, All, lookup,
}
use ninekube.Exec.{ok, err, Error, api, already_exists, is_not_found}
use ninekube.Api.{ClientNamespace, NamespacedName, Condition}
use ninekube.Kube.{Kind, Key, Object, SecretSpec, secret, kind_of, key_of, secret_data, has_labels}
use ninekube.World.{World, Certificate}

abbrev pub name_of : ClientNamespace → NamespacedName
name_of cn = record { name = cn.name; namespace = cn.namespace }

-- No type occurs twice: what `+listType=map` with `+listMapKey=type` asks of the conditions.
abbrev pub NewType : Condition → List Condition → Type 0
NewType c cs = All (λ (d : Condition). d.type ≢ c.type) cs

abbrev pub UniqueTypes : List Condition → Type 0
UniqueTypes [] = Unit
UniqueTypes (c ∷ cs) = NewType c cs × UniqueTypes cs

pub record Lawful (W : World) : Type 0 where
  pub object : W.State → Key → Option Object
  pub stored : W.State → NamespacedName → Option ClientNamespace
  pub admit : Object → Object
  -- Only `create` and `delete` change what the server holds of other kinds.
  pub get_same : (k : Key) (s : W.State) (j : Key) → object (W.get k s).1 j ≡ object s j
  pub list_same :
      (kind : Kind) (ns : String) (labels : StringMap) (s : W.State) (j : Key)
      → object (W.list kind ns labels s).1 j ≡ object s j
  pub get_client_namespace_same :
      (n : NamespacedName) (s : W.State) (j : Key)
      → object (W.get_client_namespace n s).1 j ≡ object s j
  pub update_same :
      (cn : ClientNamespace) (s : W.State) (j : Key) → object (W.update cn s).1 j ≡ object s j
  pub update_status_same :
      (cn : ClientNamespace) (s : W.State) (j : Key)
      → object (W.update_status cn s).1 j ≡ object s j
  pub now_same : (s : W.State) (j : Key) → object (W.now s).1 j ≡ object s j
  pub rand_int_same : (n : ℕ) (s : W.State) (j : Key) → object (W.rand_int n s).1 j ≡ object s j
  pub generate_rsa_key_same :
      (n : ℕ) (s : W.State) (j : Key) → object (W.generate_rsa_key n s).1 j ≡ object s j
  pub create_certificate_same :
      (t : Certificate) (p : Option Certificate) (a b : W.PrivateKey) (s : W.State) (j : Key)
      → object (W.create_certificate t p a b s).1 j ≡ object s j
  -- A read that succeeds gives what is held, and "not found" is said of what is not held.
  pub get_found : (k : Key) (s : W.State) (o : Object) → (W.get k s).0 ≡ ok o → object s k ≡ some o
  pub get_missing :
      (k : Key) (s : W.State) (e : Error)
      → (W.get k s).0 ≡ err e
      → is_not_found e ≡ true
      → object s k ≡ none
  pub list_found :
      (kind : Kind) (ns : String) (labels : StringMap) (s : W.State) (os : List Object)
      → (W.list kind ns labels s).0 ≡ ok os
      → All
          (λ (o : Object).
            (kind_of o.body ≡ kind)
            × (o.meta.namespace ≡ ns)
            × (has_labels o.meta.labels labels ≡ true)
            × (object s (key_of o) ≡ some o))
          os
  -- `create` overwrites nothing. Where it returns an error, the object may have been stored.
  pub create_kept :
      (o : Object) (s : W.State) (k : Key) (x : Object)
      → object s k ≡ some x
      → object (W.create o s).1 k ≡ some x
  pub create_other :
      (o : Object) (s : W.State) (k : Key) → k ≢ key_of o → object (W.create o s).1 k ≡ object s k
  pub create_new :
      (o : Object) (s : W.State) (x : Object)
      → object s (key_of o) ≡ none
      → object (W.create o s).1 (key_of o) ≡ some x
      → x ≡ admit o
  pub create_ok :
      (o : Object) (s : W.State)
      → (W.create o s).0 ≡ ok tt
      → object (W.create o s).1 (key_of o) ≡ some (admit o)
  pub create_conflict :
      (o : Object) (s : W.State) (x : Object)
      → object s (key_of o) ≡ some x
      → (m : String) × ((W.create o s).0 ≡ err (api already_exists m))
  -- Deleting a Namespace marks it; what the cluster's own namespace controller then removes from it
  -- is no part of the call.
  pub delete_other :
      (j : Key) (s : W.State) (k : Key) → k ≢ j → object (W.delete j s).1 k ≡ object s k
  -- The labels that were asked for are there; the server may add its own, as it does to a Namespace.
  pub admit_labels :
      (o : Object) (wanted : StringMap)
      → has_labels o.meta.labels wanted ≡ true
      → has_labels (admit o).meta.labels wanted ≡ true
  -- A Secret with `Data` only is stored with that data.
  pub admit_binary :
      (o : Object) (spec : SecretSpec)
      → o.body ≡ secret spec
      → spec.string_data ≡ []
      → secret_data (admit o).body ≡ spec.binary
  pub admit_string_data :
      (o : Object) (spec : SecretSpec) (k v : String)
      → o.body ≡ secret spec
      → lookup k spec.string_data ≡ some v
      → lookup k (secret_data (admit o).body) ≡ some v
  pub get_client_namespace_found :
      (n : NamespacedName) (s : W.State) (cn : ClientNamespace)
      → (W.get_client_namespace n s).0 ≡ ok cn
      → (stored s n ≡ some cn) × (name_of cn ≡ n)
  pub update_status_ok :
      (cn : ClientNamespace) (s : W.State) (new : ClientNamespace)
      → (W.update_status cn s).0 ≡ ok new
      → (stored (W.update_status cn s).1 (name_of cn) ≡ some new)
        × (new.status ≡ cn.status)
        × (new.spec ≡ cn.spec)
        × (name_of new ≡ name_of cn)
        × UniqueTypes cn.status.conditions
  -- An update of the status alters neither the finalizers nor the mark of a deletion.
  pub update_status_kept :
      (cn : ClientNamespace) (s : W.State) (new : ClientNamespace)
      → (W.update_status cn s).0 ≡ ok new
      → (new.deleted ≡ cn.deleted) × (new.finalizers ≡ cn.finalizers)
  pub update_ok :
      (cn : ClientNamespace) (s : W.State) (new : ClientNamespace)
      → (W.update cn s).0 ≡ ok new
      → (new.spec ≡ cn.spec) × (name_of new ≡ name_of cn)
  -- An update of the resource leaves its status as it is stored.
  pub update_kept :
      (cn : ClientNamespace) (s : W.State) (old new : ClientNamespace)
      → stored s (name_of cn) ≡ some old
      → (W.update cn s).0 ≡ ok new
      → (new.status ≡ old.status) × (new.deleted ≡ cn.deleted)
  pub add_finalizer_kept :
      (cn : ClientNamespace) (f : String) → (W.add_finalizer cn f).deleted ≡ cn.deleted
  pub get_client_namespace_stored :
      (n : NamespacedName) (s : W.State) (m : NamespacedName)
      → stored (W.get_client_namespace n s).1 m ≡ stored s m
  pub add_finalizer_ok :
      (cn : ClientNamespace) (f : String)
      → (W.contains_finalizer (W.add_finalizer cn f) f ≡ true)
        × ((W.add_finalizer cn f).spec ≡ cn.spec)
        × (name_of (W.add_finalizer cn f) ≡ name_of cn)
  pub rand_int_lt : (n : ℕ) (s : W.State) (i : ℕ) → (W.rand_int n s).0 ≡ ok i → i < n
