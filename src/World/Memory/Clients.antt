-- ===== src/World/Memory/Clients.antt =====
-- The resources of the cluster in memory, and the updates of them.
use ninekube.Prelude.{
  ◌≡◌, refl, sym, ◌∙◌, ap, true, Option, none, some, List, [], ◌∷◌, none-ne-some, some_inj,
  Bool-cases, inl, inr, String-discrete,
}
use mathlib.Core.Path.{subst}
use ninekube.Exec.{ok}
use ninekube.Api.{ClientNamespace, NamespacedName, Condition}
use ninekube.Kube.{Key}
use ninekube.World.Lawful.{name_of, NewType, UniqueTypes}
use ninekube.World.Memory.{
  Memory, cell, NamespacedName-discrete, is, found_client, set_client, bump, with_stored_status,
  update, is_current, is_storable, is_new_type, unique_types, update_status,
}
use ninekube.World.Memory.Cells.{is_yes, is_no, is_true, and_true, not-true}

is_new_type-NewType : (c : Condition) (cs : List Condition) → is_new_type c cs ≡ true → NewType c cs
unfolding is_new_type
is_new_type-NewType c [] h = tt
is_new_type-NewType c (d ∷ cs) h =
    let (a, b) = and_true _ _ h in
    (is_no (String-discrete d.type c.type) (not-true _ a), is_new_type-NewType c cs b)

pub unique_types-UniqueTypes : (cs : List Condition) → unique_types cs ≡ true → UniqueTypes cs
unfolding unique_types
unique_types-UniqueTypes [] h = tt
unique_types-UniqueTypes (c ∷ cs) h =
    let (a, b) = and_true _ _ h in (is_new_type-NewType c cs a, unique_types-UniqueTypes cs b)

pub is_storable-UniqueTypes :
    (old : Option ClientNamespace) (cn : ClientNamespace)
    → is_storable old cn ≡ true
    → UniqueTypes cn.status.conditions
unfolding is_storable
is_storable-UniqueTypes old cn h =
    unique_types-UniqueTypes _ (and_true _ _ (and_true (is_current old cn) _ h).1).0

pub found_client_ok :
    (n : NamespacedName) (o : Option ClientNamespace) (cn : ClientNamespace)
    → found_client n o ≡ ok cn
    → (o ≡ some cn) × (name_of cn ≡ n)
unfolding found_client
found_client_ok n none cn h = absurd (cc)
found_client_ok n (some c) cn h = elim (Bool-cases (is (NamespacedName-discrete (name_of c) n))) [
  | inl same ↦
      let e : c ≡ cn = cc (rw same at h) in
      (ap some e, ap name_of (sym e) ∙ is_yes (NamespacedName-discrete (name_of c) n) same)
  | inr differ ↦ absurd (cc (rw differ at h))
]

pub stored_self :
    (cn : ClientNamespace) (s : Memory) → (set_client cn s).clients (name_of cn) ≡ some cn
unfolding set_client
stored_self cn s = rw (is_true (NamespacedName-discrete (name_of cn) (name_of cn)) refl)

pub update_status_same :
    (cn : ClientNamespace) (s : Memory) (j : Key) → cell (update_status cn s).1 j ≡ cell s j
unfolding update_status
update_status_same cn s j = elim (Bool-cases (is_storable (s.clients (name_of cn)) cn)) [
  | inl good ↦ rw good
  | inr bad ↦ rw bad
]

pub update_status_ok :
    (cn : ClientNamespace) (s : Memory) (new : ClientNamespace)
    → (update_status cn s).0 ≡ ok new
    → ((update_status cn s).1.clients (name_of cn) ≡ some new)
      × (new.status ≡ cn.status)
      × (new.spec ≡ cn.spec)
      × (name_of new ≡ name_of cn)
      × UniqueTypes cn.status.conditions
unfolding update_status
update_status_ok cn s new h = elim (Bool-cases (is_storable (s.clients (name_of cn)) cn)) [
  | inl good ↦
      let e : bump cn ≡ new = cc (rw good at h) in
      rw good (
        subst
          (λ (n : ClientNamespace).
            ((set_client (bump cn) s).clients (name_of cn) ≡ some n)
            × (n.status ≡ cn.status)
            × (n.spec ≡ cn.spec)
            × (name_of n ≡ name_of cn)
            × UniqueTypes cn.status.conditions)
          e (stored_self (bump cn) s, refl, refl, refl, is_storable-UniqueTypes _ cn good))
  | inr bad ↦ absurd (cc (rw bad at h))
]

pub update_status_kept :
    (cn : ClientNamespace) (s : Memory) (new : ClientNamespace)
    → (update_status cn s).0 ≡ ok new
    → (new.deleted ≡ cn.deleted) × (new.finalizers ≡ cn.finalizers)
unfolding update_status
update_status_kept cn s new h = elim (Bool-cases (is_storable (s.clients (name_of cn)) cn)) [
  | inl good ↦
      let e : bump cn ≡ new = cc (rw good at h) in
      (ap (λ c. c.deleted) (sym e), ap (λ c. c.finalizers) (sym e))
  | inr bad ↦ absurd (cc (rw bad at h))
]

KeepsSpec : ClientNamespace → ClientNamespace → Type 0
KeepsSpec cn new = (new.spec ≡ cn.spec) × (name_of new ≡ name_of cn)

with_stored_status-KeepsSpec :
    (o : Option ClientNamespace) (cn : ClientNamespace)
    → KeepsSpec cn (bump (with_stored_status o cn))
unfolding KeepsSpec
with_stored_status-KeepsSpec none cn = (refl, refl)
with_stored_status-KeepsSpec (some old) cn = (refl, refl)

-- What an update that succeeds gives back.
updated :
    (cn : ClientNamespace) (s : Memory) (new : ClientNamespace)
    → (update cn s).0 ≡ ok new
    → bump (with_stored_status (s.clients (name_of cn)) cn) ≡ new
unfolding update
updated cn s new h = elim (Bool-cases (is_current (s.clients (name_of cn)) cn)) [
  | inl current ↦ cc (rw current at h)
  | inr stale ↦ absurd (cc (rw stale at h))
]

pub update_same : (cn : ClientNamespace) (s : Memory) (j : Key) → cell (update cn s).1 j ≡ cell s j
unfolding update
update_same cn s j = elim (Bool-cases (is_current (s.clients (name_of cn)) cn)) [
  | inl current ↦ rw current
  | inr stale ↦ rw stale
]

pub update_ok :
    (cn : ClientNamespace) (s : Memory) (new : ClientNamespace)
    → (update cn s).0 ≡ ok new
    → (new.spec ≡ cn.spec) × (name_of new ≡ name_of cn)
unfolding KeepsSpec
update_ok cn s new h =
    subst (KeepsSpec cn) (updated cn s new h)
      (with_stored_status-KeepsSpec (s.clients (name_of cn)) cn)

with_stored_status_of :
    (o : Option ClientNamespace) (cn old : ClientNamespace)
    → o ≡ some old
    → (with_stored_status o cn).status ≡ old.status
with_stored_status_of none cn old e = absurd (none-ne-some e)
with_stored_status_of (some c) cn old e = ap (λ d. d.status) (some_inj e)

with_stored_status_deleted :
    (o : Option ClientNamespace) (cn : ClientNamespace)
    → (with_stored_status o cn).deleted ≡ cn.deleted
with_stored_status_deleted none cn = refl
with_stored_status_deleted (some c) cn = refl

pub update_kept :
    (cn : ClientNamespace) (s : Memory) (old new : ClientNamespace)
    → s.clients (name_of cn) ≡ some old
    → (update cn s).0 ≡ ok new
    → (new.status ≡ old.status) × (new.deleted ≡ cn.deleted)
update_kept cn s old new stored h =
    let e = updated cn s new h in
    (
      ap (λ c. c.status) (sym e) ∙ with_stored_status_of (s.clients (name_of cn)) cn old stored,
      ap (λ c. c.deleted) (sym e) ∙ with_stored_status_deleted (s.clients (name_of cn)) cn,
    )
