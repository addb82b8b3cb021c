-- ===== src/World/Memory/Laws/Healthy.antt =====
-- The cluster in memory has good days only.
use ninekube.Prelude.{
  Option, All, ℕ, zero, suc, ◌<◌, ◌≡◌, refl, ap, ◌∙◌, some, none, [], ◌∷◌, arith, true,
}
use ninekube.Exec.{ok, err, Error, api, not_found, is_not_found}
use ninekube.Api.{ClientNamespace, Condition}
use ninekube.Kube.{Key, Object, key_of}
use ninekube.World.Lawful.{name_of, NewType, UniqueTypes}
use ninekube.World.Conditions.{is_condition, Accepted}
use ninekube.World.Memory.Clients.{stored_self}
use ninekube.World.Memory.Laws.Storing.{memory-Storing}
use ninekube.Prelude.Order.{eqb_same}
use ninekube.World.Healthy.{Healthy, IsComplete}
use ninekube.World.Memory.{
  cell, get_client_namespace, found_client, NamespacedName-discrete, contains, Memory, found, get,
  create, create_at, is_new_type, unique_types, is_current, is_storable, all_conditions,
  with_stored_status, update, update_status, bump, rand_int, generate_rsa_key, create_certificate,
  blank_certificate,
}
use ninekube.World.Memory.Laws.{memory-Lawful}
use ninekube.World.Memory.Cells.{is_true, is_false}

get_held : (k : Key) (s : Memory) (x : Object) → cell s k ≡ some x → (get k s).0 ≡ ok x
unfolding get
get_held k s x h = ap found h

get_gone :
    (k : Key) (s : Memory)
    → cell s k ≡ none
    → (e : Error) × ((get k s).0 ≡ err e) × (is_not_found e ≡ true)
unfolding get is_not_found
get_gone k s h = (api not_found "not found", ap found h, refl)

create_gone :
    (o : Object) (s : Memory)
    → cell s (key_of o) ≡ none
    → IsComplete o.body
    → (create o s).0 ≡ ok tt
unfolding create create_at
create_gone o s h complete = ap (λ old. (create_at old o s).0) h

NewType-is_new_type : (c : Condition) (cs : _) → NewType c cs → is_new_type c cs ≡ true
unfolding is_new_type
NewType-is_new_type c [] h = refl
NewType-is_new_type c (d ∷ cs) (differs, h) = rw (is_false _ differs) (NewType-is_new_type c cs h)

UniqueTypes-unique_types : (cs : _) → UniqueTypes cs → unique_types cs ≡ true
unfolding unique_types
UniqueTypes-unique_types [] h = refl
UniqueTypes-unique_types (c ∷ cs) (new, h) =
    rw (NewType-is_new_type c cs new) (UniqueTypes-unique_types cs h)

All-all_conditions : (cs : _) → All (λ c. is_condition c ≡ true) cs → all_conditions cs ≡ true
unfolding all_conditions
All-all_conditions [] h = refl
All-all_conditions (c ∷ cs) (good, h) = rw good (All-all_conditions cs h)

current :
    (o : Option ClientNamespace) (cn old : ClientNamespace)
    → o ≡ some old
    → old.resource_version ≡ cn.resource_version
    → is_current o cn ≡ true
current o cn old stored version = rw stored (eqb_same _ _ version)

update_status_done :
    (cn : ClientNamespace) (s : Memory) (old : ClientNamespace)
    → s.clients (name_of cn) ≡ some old
    → old.resource_version ≡ cn.resource_version
    → Accepted cn.status.conditions
    → (new : ClientNamespace) × ((update_status cn s).0 ≡ ok new)
unfolding update_status is_storable
update_status_done cn s old stored version (unique, good) = (
  bump cn,
  rw
      (
        current _ cn old stored version,
        UniqueTypes-unique_types cn.status.conditions unique,
        All-all_conditions cn.status.conditions good,
      )
      refl,
)

update_done :
    (cn : ClientNamespace) (s : Memory) (old : ClientNamespace)
    → s.clients (name_of cn) ≡ some old
    → old.resource_version ≡ cn.resource_version
    → (new : ClientNamespace) × ((update cn s).0 ≡ ok new)
      × ((update cn s).1.clients (name_of new) ≡ some new)
unfolding update
update_done cn s old stored version =
    let new = bump (with_stored_status (s.clients (name_of cn)) cn) in
    (
      new,
      rw (current _ cn old stored version) refl,
      rw (current _ cn old stored version) (stored_self new s),
    )

get_client_namespace_held :
    (cn : ClientNamespace) (s : Memory)
    → s.clients (name_of cn) ≡ some cn
    → (get_client_namespace (name_of cn) s).0 ≡ ok cn
unfolding get_client_namespace found_client
get_client_namespace_held cn s h =
    ap (found_client (name_of cn)) h
    ∙ rw (is_true (NamespacedName-discrete (name_of cn) (name_of cn)) refl)

rand_int_done : (n : ℕ) (s : Memory) → 0 < n → (i : ℕ) × ((rand_int n s).0 ≡ ok i)
unfolding rand_int
rand_int_done zero s h = absurd (omega arith)
rand_int_done (suc n) s h = (_, refl)

pub memory-Healthy : Healthy memory-Lawful
unfolding memory-Lawful
memory-Healthy = record {
  storing = memory-Storing;
  get_held = get_held;
  get_gone = get_gone;
  create_gone = create_gone;
  update_status_done = update_status_done;
  update_done = update_done;
  add_finalizer_version = λ cn f. refl;
  get_client_namespace_held = get_client_namespace_held;
  contains_finalizer_of = λ a b f e. ap (contains f) e;
  rand_int_done = rand_int_done;
  generate_rsa_key_done = λ n s. unfold generate_rsa_key in (tt, refl);
  create_certificate_done = λ t p a b n s e.
      unfold create_certificate in (t.common_name, refl, (blank_certificate t.common_name, refl));
  marshal_done = λ k. ("key", refl, refl);
  pem_decode-encode = λ type der. refl;
}
