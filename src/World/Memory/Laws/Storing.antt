-- ===== src/World/Memory/Laws/Storing.antt =====
-- The cluster in memory keeps its resources as `Storing` asks.
use ninekube.Prelude.{
  ℕ, zero, suc, ◌≡◌, refl, ap, Option, none, some, ◌⊎◌, inl, inr, Bool-cases, true, sym,
  false-ne-true,
}
use mathlib.Core.Path.{subst}
use ninekube.Exec.{err, Error, plain, is_not_found}
use ninekube.Api.{ClientNamespace, NamespacedName}
use ninekube.Kube.{Object, key_of}
use ninekube.World.Lawful.{name_of, UniqueTypes}
use ninekube.World.Storing.{Storing, SameResource}
use ninekube.World.Memory.{
  is, NamespacedName-discrete, found_client, cell, get_client_namespace, contains, Memory, get,
  create, create_at, is_storable, update_status, bump, now, rand_int, generate_rsa_key,
  create_certificate,
}
use ninekube.World.Memory.Laws.{memory-Lawful}
use ninekube.World.Memory.Clients.{stored_self, is_storable-UniqueTypes}

create_at-kept :
    (old : Option Object) (o : Object) (s : Memory) (n : NamespacedName)
    → (create_at old o s).1.clients n ≡ s.clients n
unfolding create_at
create_at-kept (some old) o s n = refl
create_at-kept none o s n = refl

rand_int_kept : (i : ℕ) (s : Memory) (n : NamespacedName) → (rand_int i s).1.clients n ≡ s.clients n
unfolding rand_int
rand_int_kept zero s n = refl
rand_int_kept (suc i) s n = refl

update_status_stored :
    (cn : ClientNamespace) (s : Memory)
    → ((update_status cn s).1.clients (name_of cn) ≡ s.clients (name_of cn))
      ⊎ ((new : ClientNamespace) × ((update_status cn s).1.clients (name_of cn) ≡ some new)
          × (new.status ≡ cn.status)
          × SameResource cn new
          × UniqueTypes cn.status.conditions)
unfolding update_status
update_status_stored cn s = elim (Bool-cases (is_storable (s.clients (name_of cn)) cn)) [
  | inl good ↦ inr (
    bump cn,
    rw good (stored_self (bump cn) s),
    refl,
    (refl, refl, refl, refl),
    is_storable-UniqueTypes _ cn good,
  )
  | inr bad ↦ inl (rw bad)
]

found_client-missing :
    (n : NamespacedName) (o : Option ClientNamespace) (e : Error)
    → found_client n o ≡ err e
    → is_not_found e ≡ true
    → o ≡ none
unfolding found_client is_not_found
found_client-missing n none e h m = refl
found_client-missing n (some cn) e h m =
    elim (Bool-cases (is (NamespacedName-discrete (name_of cn) n))) [
      | inl same ↦ absurd (cc (rw same at h))
      | inr differ ↦
          let other : plain "corrupt" ≡ e = cc (rw differ at h) in
          absurd (false-ne-true (subst (λ (x : Error). is_not_found x ≡ true) (sym other) m))
    ]

pub memory-Storing : Storing memory-Lawful
unfolding memory-Lawful get create get_client_namespace now generate_rsa_key create_certificate
memory-Storing = record {
  get_kept = λ k s n. refl;
  create_kept = λ o s n. create_at-kept (cell s (key_of o)) o s n;
  get_client_namespace_missing = λ n s e h m. found_client-missing n (s.clients n) e h m;
  now_kept = λ s n. refl;
  rand_int_kept = rand_int_kept;
  generate_rsa_key_kept = λ i s n. refl;
  create_certificate_kept = λ t p a b s n. refl;
  update_status_stored = update_status_stored;
  contains_finalizer_of = λ a b f e. ap (contains f) e;
}
