-- ===== src/World/Healthy.antt =====
-- A cluster on a good day, beyond what World/Lawful and World/Storing state of every day: each call
-- that the API server and the crypto packages can serve is served. What is read is what is held; a
-- new object is stored, a Secret of the type `kubernetes.io/tls` where it has the two keys of that
-- type; an update of a resource, or of its status with conditions that the resource's schema
-- allows, is stored where it is of the version that is stored; and keys and certificates are made,
-- encoded and decoded as Go's documentation says. Names are taken to be such as the server admits:
-- a client whose name has a dot, or more than 60 characters, has no good day.
use ninekube.Prelude.{ℕ, ◌<◌, String, StringMap, ◌≡◌, true, some, none, lookup}
use ninekube.Exec.{ok, err, Error, is_not_found}
use ninekube.Api.{ClientNamespace}
use ninekube.Kube.{Key, Object, Body, SecretType, tls, secret, key_of}
use ninekube.World.{World, Certificate, rsa}
use ninekube.World.Lawful.{Lawful, name_of}
use ninekube.World.Conditions.{Accepted}
use ninekube.World.Storing.{Storing}

-- The keys that the API server asks of a Secret of a type.
abbrev pub HasKeysOf : SecretType → StringMap → Type 0
HasKeysOf tls values =
    ((c : String) × (lookup "tls.crt" values ≡ some c))
    × ((k : String) × (lookup "tls.key" values ≡ some k))
HasKeysOf _ values = Unit

abbrev pub IsComplete : Body → Type 0
IsComplete (secret spec) = HasKeysOf spec.type spec.binary
IsComplete _ = Unit

pub record Healthy {W : World} (L : Lawful W) : Type 0 where
  pub storing : Storing L
  pub get_held : (k : Key) (s : W.State) (x : Object) → L.object s k ≡ some x → (W.get k s).0 ≡ ok x
  pub get_gone :
      (k : Key) (s : W.State)
      → L.object s k ≡ none
      → (e : Error) × ((W.get k s).0 ≡ err e) × (is_not_found e ≡ true)
  pub create_gone :
      (o : Object) (s : W.State)
      → L.object s (key_of o) ≡ none
      → IsComplete o.body
      → (W.create o s).0 ≡ ok tt
  -- A stale copy is refused with a conflict, and an unknown name as not found, so neither is here.
  pub update_status_done :
      (cn : ClientNamespace) (s : W.State) (old : ClientNamespace)
      → L.stored s (name_of cn) ≡ some old
      → old.resource_version ≡ cn.resource_version
      → Accepted cn.status.conditions
      → (new : ClientNamespace) × ((W.update_status cn s).0 ≡ ok new)
  -- What the call gives back is what is stored.
  pub update_done :
      (cn : ClientNamespace) (s : W.State) (old : ClientNamespace)
      → L.stored s (name_of cn) ≡ some old
      → old.resource_version ≡ cn.resource_version
      → (new : ClientNamespace) × ((W.update cn s).0 ≡ ok new)
        × (L.stored (W.update cn s).1 (name_of new) ≡ some new)
  pub add_finalizer_version :
      (cn : ClientNamespace) (f : String)
      → (W.add_finalizer cn f).resource_version ≡ cn.resource_version
  pub get_client_namespace_held :
      (cn : ClientNamespace) (s : W.State)
      → L.stored s (name_of cn) ≡ some cn
      → (W.get_client_namespace (name_of cn) s).0 ≡ ok cn
  -- `ContainsFinalizer` looks at the finalizers only.
  pub contains_finalizer_of :
      (a b : ClientNamespace) (f : String)
      → a.finalizers ≡ b.finalizers
      → W.contains_finalizer a f ≡ W.contains_finalizer b f
  pub rand_int_done : (n : ℕ) (s : W.State) → 0 < n → (i : ℕ) × ((W.rand_int n s).0 ≡ ok i)
  pub generate_rsa_key_done :
      (n : ℕ) (s : W.State) → (k : W.PrivateKey) × ((W.generate_rsa_key n s).0 ≡ ok k)
  -- A template needs a serial number, and what is made of it can be parsed.
  pub create_certificate_done :
      (t p : Certificate) (a b : W.PrivateKey) (n : ℕ) (s : W.State)
      → t.serial_number ≡ some n
      → (der : String) × ((W.create_certificate t (some p) a b s).0 ≡ ok der)
        × ((c : Certificate) × (W.parse_certificate der ≡ ok c))
  pub marshal_done :
      (k : W.PrivateKey)
      → (der : String) × (W.marshal_pkcs8 k ≡ ok der) × (W.parse_pkcs8 der ≡ ok (rsa k))
  pub pem_decode-encode : (type der : String) → W.pem_decode (W.pem_encode type der) ≡ some der
