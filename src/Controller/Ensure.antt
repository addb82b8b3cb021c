-- ===== src/Controller/Ensure.antt =====
-- The pattern that every `ensure...` method opens with, and keys of namespaced objects.
use ninekube.Prelude.{String, StringMap, [], if◌then◌else◌}
use ninekube.Exec.{Exec, Attempt, got, failed, pure, raise, attempt, is_not_found, ◌>>=◌}
use ninekube.Kube.{Kind, Key, ObjectMeta}
use ninekube.World.{World}

abbrev pub key : Kind → String → String → Key
key kind ns name = record { kind = kind; namespace = ns; name = name }

-- `metav1.ObjectMeta{Name: name, Namespace: ns, Labels: labels}`
abbrev pub named : String → String → StringMap → ObjectMeta
named ns name labels = record { name = name; namespace = ns; labels = labels; annotations = [] }

module _ {S A : Type 0} where
  -- if err == nil { return nil }; if !errors.IsNotFound(err) { return err }; ...
  unfoldable pub on_missing : Attempt A → Exec S (Unit {0}) → Exec S (Unit {0})
  on_missing (got o) absent = pure tt
  on_missing (failed e) absent = if is_not_found e then absent else raise e

module _ (W : World) where
  -- err := r.Get(ctx, key, &object), and that pattern
  unfoldable pub if_missing : Key → Exec W.State (Unit {0}) → Exec W.State (Unit {0})
  unfolding on_missing
  if_missing k absent = do found ← attempt (W.get k); on_missing found absent
