-- ===== src/World/Clearing.antt =====
-- A cluster on which deletions go through at once. Objects of these kinds carry no finalizers, so
-- the API server removes them when they are deleted; volume claims and namespaces linger while they
-- are in use, and nothing is said of them.
use ninekube.Prelude.{String, StringMap, ◌≡◌, ◌⊎◌, true, some, none, List, [], ◌∷◌}
use ninekube.Exec.{ok, Attempt, attempted}
use ninekube.Kube.{
  Kind, Key, Object, key_of, kind_of, has_labels, secret_kind, config_map_kind, deployment_kind,
  stateful_set_kind, service_kind,
}
use ninekube.World.{World}
use ninekube.World.Lawful.{Lawful}

pub data IsSwept : Kind → Type 0 where
  of_secret : IsSwept secret_kind
  of_config_map : IsSwept config_map_kind
  of_deployment : IsSwept deployment_kind
  of_stateful_set : IsSwept stateful_set_kind
  of_service : IsSwept service_kind

-- One of the objects has the key.
abbrev pub AmongKeys : Key → List Object → Type 0
AmongKeys k [] = ⊥
AmongKeys k (o ∷ os) = (key_of o ≡ k) ⊎ AmongKeys k os

pub record Clearing {W : World} (L : Lawful W) : Type 0 where
  -- A listing is answered, and leaves out nothing that fits.
  pub list_done :
      (kind : Kind) (ns : String) (labels : StringMap) (s : W.State)
      → (os : List Object) × ((W.list kind ns labels s).0 ≡ ok os)
        × ((x : Object)
            → L.object s (key_of x) ≡ some x
            → kind_of x.body ≡ kind
            → x.meta.namespace ≡ ns
            → has_labels x.meta.labels labels ≡ true
            → AmongKeys (key_of x) os)
  -- A deletion is answered, with or without an error.
  pub delete_answered :
      (k : Key) (s : W.State) → (r : Attempt (Unit {0})) × (attempted (W.delete k s).0 ≡ ok r)
  -- What was deleted, or was not there, is not there afterwards.
  pub delete_done : (k : Key) (s : W.State) → IsSwept k.kind → L.object (W.delete k s).1 k ≡ none
