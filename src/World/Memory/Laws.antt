-- ===== src/World/Memory/Laws.antt =====
-- The cluster in memory behaves as `Lawful` asks.
pub mod Healthy
pub mod Clearing
pub mod Storing
use ninekube.Prelude.{
  ℕ, zero, suc, ◌<◌, ◌%◌, String, StringMap, ◌≡◌, ◌≢◌, refl, sym, ◌∙◌, ap, ◌==◌, Bool, true, false,
  Option, none, some, List, [], ◌∷◌, ◌++◌, All, lookup, arith, eq_refl, none-ne-some, some_inj,
  Bool-cases, inl, inr, not, ◌&&◌, if◌then◌else◌, String-discrete,
}
use mathlib.Core.Path.{subst, subst⁻¹}
use ninekube.Exec.{ok, err, api, already_exists, Error}
use ninekube.Api.{ClientNamespace, NamespacedName, Condition}
use ninekube.Kube.{
  Kind, Key, Key-discrete, Object, Body, SecretSpec, secret, key_of, kind_of, has_labels,
  secret_data,
}
use ninekube.World.Lawful.{Lawful, name_of, NewType, UniqueTypes}
use ninekube.World.Memory.{
  Memory, cell, find, without_key, NamespacedName-discrete, is, set_cell, admit_body, admit, get,
  create, create_at, delete, is_listed, listed_at, listed, list, found_client, get_client_namespace,
  set_client, bump, with_stored_status, update, is_new_type, unique_types, update_status, now,
  rand_int, generate_rsa_key, create_certificate, contains, memory,
}
use ninekube.World.Memory.Cells.{
  is_yes, is_no, is_true, is_false, and_true, not-true, find_hit, find_miss, find_behind,
  find-without_key_self, find-without_key_ne, set_cell_self, set_cell_ne,
}
use ninekube.World.Memory.Clients.{
  found_client_ok, update_status_same, update_status_ok, update_status_kept, update_same, update_ok,
  update_kept,
}

get_found : (k : Key) (s : Memory) (o : Object) → (get k s).0 ≡ ok o → cell s k ≡ some o
unfolding get
get_found k s o h = ground arith

get_missing : (k : Key) (s : Memory) (e : Error) → (get k s).0 ≡ err e → cell s k ≡ none
unfolding get
get_missing k s e h = ground arith

module _ (o : Object) (s : Memory) where
  create_at-kept :
      (old : Option Object) (k : Key) (x : Object)
      → cell s (key_of o) ≡ old
      → cell s k ≡ some x
      → cell (create_at old o s).1 k ≡ some x
  unfolding create_at
  create_at-kept (some old) k x e h = h
  create_at-kept none k x e h =
      set_cell_ne s.entries (key_of o) k _ (λ p. none-ne-some (sym e ∙ ap (cell s) (sym p) ∙ h)) ∙ h

  create_at-other :
      (old : Option Object) (k : Key) → k ≢ key_of o → cell (create_at old o s).1 k ≡ cell s k
  unfolding create_at
  create_at-other (some old) k h = refl
  create_at-other none k h = set_cell_ne s.entries (key_of o) k _ h

  create_at-new :
      (old : Option Object) (x : Object)
      → cell s (key_of o) ≡ none
      → cell (create_at old o s).1 (key_of o) ≡ some x
      → x ≡ admit o
  unfolding create_at
  create_at-new (some old) x e h = absurd (none-ne-some (sym e ∙ h))
  create_at-new none x e h = some_inj (sym h ∙ set_cell_self s.entries (key_of o) _)

  create_at-ok :
      (old : Option Object)
      → (create_at old o s).0 ≡ ok tt
      → cell (create_at old o s).1 (key_of o) ≡ some (admit o)
  unfolding create_at
  create_at-ok (some old) h = absurd (cc)
  create_at-ok none h = set_cell_self s.entries (key_of o) _

  create_at-conflict :
      (old : Option Object) (x : Object)
      → old ≡ some x
      → (m : String) × ((create_at old o s).0 ≡ err (api already_exists m))
  unfolding create_at
  create_at-conflict (some old) x h = ("already exists", refl)
  create_at-conflict none x h = absurd (none-ne-some h)

lookup-append : (k v : String) (m n : StringMap) → lookup k m ≡ some v → lookup k (m ++ n) ≡ some v
unfolding lookup
lookup-append k v [] n h = cc
lookup-append k v ((j, w) ∷ m) n h = elim (Bool-cases (j == k)) [
  | inl same ↦ rw same (rw same at h)
  | inr differ ↦ rw differ (lookup-append k v m n (rw differ at h))
]

admit_string_data :
    (o : Object) (spec : SecretSpec) (k v : String)
    → o.body ≡ secret spec
    → lookup k spec.string_data ≡ some v
    → lookup k (secret_data (admit o).body) ≡ some v
unfolding admit
admit_string_data o spec k v e h =
    subst⁻¹ (λ (b : Body). lookup k (secret_data (admit_body b)) ≡ some v) e
      (unfold admit_body in lookup-append k v spec.string_data spec.binary h)

module _ (kind : Kind) (ns : String) (labels : StringMap) (held : Key → Option Object) where
  abbrev IsListed : Object → Type 0
  IsListed o =
      (kind_of o.body ≡ kind)
      × (o.meta.namespace ≡ ns)
      × (has_labels o.meta.labels labels ≡ true)
      × (held (key_of o) ≡ some o)

  is_listed-IsListed :
      (k : Key) (o : Object) → held k ≡ some o → is_listed kind ns labels k o ≡ true → IsListed o
  unfolding is_listed
  is_listed-IsListed k o e h =
      let (a, r) = and_true _ _ h in
      let (b, r') = and_true _ _ r in
      let (c, d) = and_true _ _ r' in
      (is_yes _ a, is_yes _ b, c, ap held (is_yes (Key-discrete (key_of o) k) d) ∙ e)

  listed_at-IsListed :
      (k : Key) (old : Option Object) (rest : List Object)
      → held k ≡ old
      → All IsListed rest
      → All IsListed (listed_at kind ns labels k old rest)
  unfolding listed_at
  listed_at-IsListed k none rest e h = h
  listed_at-IsListed k (some o) rest e h = elim (Bool-cases (is_listed kind ns labels k o)) [
    | inl good ↦ rw good (is_listed-IsListed k o e good, h)
    | inr bad ↦ rw bad h
  ]

  listed-IsListed : (es : List (Key × Object)) → All IsListed (listed kind ns labels held es)
  unfolding listed
  listed-IsListed [] = tt
  listed-IsListed ((k, o) ∷ es) = listed_at-IsListed k (held k) _ refl (listed-IsListed es)

list_found :
    (kind : Kind) (ns : String) (labels : StringMap) (s : Memory) (os : List Object)
    → (list kind ns labels s).0 ≡ ok os
    → All (IsListed kind ns labels (cell s)) os
unfolding list
list_found kind ns labels s os h =
    let e : listed kind ns labels (cell s) s.entries ≡ os = cc in
    subst (All (IsListed kind ns labels (cell s))) e
      (listed-IsListed kind ns labels (cell s) s.entries)

contains_self : (f : String) (fs : List String) → contains f (f ∷ fs) ≡ true
unfolding contains
contains_self f fs = rw eq_refl

rand_int_same : (n : ℕ) (s : Memory) (j : Key) → cell (rand_int n s).1 j ≡ cell s j
unfolding rand_int
rand_int_same zero s j = refl
rand_int_same (suc n) s j = refl

rand_int_lt : (n : ℕ) (s : Memory) (i : ℕ) → (rand_int n s).0 ≡ ok i → i < n
unfolding rand_int
rand_int_lt zero s i h = absurd (cc)
rand_int_lt (suc n) s i h = let e : s.ticks % suc n ≡ i = cc in rw (← e) (omega arith)

admit_binary :
    (o : Object) (spec : SecretSpec)
    → o.body ≡ secret spec
    → spec.string_data ≡ []
    → secret_data (admit o).body ≡ spec.binary
unfolding admit
admit_binary o spec e h =
    subst⁻¹ (λ (b : Body). secret_data (admit_body b) ≡ spec.binary) e (unfold admit_body in rw h)

pub memory-Lawful : Lawful memory
unfolding create delete get_client_namespace get list update now generate_rsa_key create_certificate
    admit
memory-Lawful = record {
  object = cell;
  stored = λ s. s.clients;
  admit = admit;
  get_same = λ k s j. refl;
  list_same = λ kind ns labels s j. refl;
  get_client_namespace_same = λ n s j. refl;
  update_same = update_same;
  update_status_same = update_status_same;
  now_same = λ s j. refl;
  rand_int_same = rand_int_same;
  generate_rsa_key_same = λ n s j. refl;
  create_certificate_same = λ t p a b s j. refl;
  get_found = get_found;
  get_missing = λ k s e h _. get_missing k s e h;
  list_found = list_found;
  create_kept = λ o s k x h. create_at-kept o s _ k x refl h;
  create_other = λ o s k h. create_at-other o s _ k h;
  create_new = λ o s x e h. create_at-new o s _ x e h;
  create_ok = λ o s h. create_at-ok o s _ h;
  create_conflict = λ o s x h. create_at-conflict o s _ x h;
  delete_other = λ j s k h. set_cell_ne s.entries j k none h;
  admit_labels = λ o wanted h. h;
  admit_binary = admit_binary;
  admit_string_data = admit_string_data;
  get_client_namespace_found = λ n s cn h. found_client_ok n (s.clients n) cn h;
  update_status_ok = update_status_ok;
  update_status_kept = update_status_kept;
  update_ok = update_ok;
  update_kept = update_kept;
  add_finalizer_kept = λ cn f. refl;
  get_client_namespace_stored = λ n s m. refl;
  add_finalizer_ok = λ cn f. (contains_self f cn.finalizers, refl, refl);
  rand_int_lt = rand_int_lt;
}

-- The objects of the laws are the cells of the concrete cluster.
pub memory-object : (s : Memory) (k : Key) → memory-Lawful.object s k ≡ cell s k
unfolding memory-Lawful
memory-object s k = refl

-- The resources of the laws are those of the concrete cluster.
pub memory-stored : (s : Memory) (n : NamespacedName) → memory-Lawful.stored s n ≡ s.clients n
unfolding memory-Lawful
memory-stored s n = refl
