-- ===== src/Controller/Status/Entries.antt =====
-- `updateServiceStatus` of operator/internal/controller/clientnamespace_controller.go, seen as the
-- update of a map from the services' names to what is said of them.
use ninekube.Prelude.{
  String, ◌≡◌, ◌≢◌, sym, ◌∙◌, ap, ◌==◌, eq_iff, eq_refl, Bool, true, false, Bool-cases, inl, inr,
  Option, none, some, List, [], ◌∷◌, All, if◌then◌else◌, false-ne-true,
}
use ninekube.Api.{ServiceStatus}
use ninekube.Controller.Status.{upsert_service}

-- What the entries say of a service: the first entry of its name.
unfoldable pub entry_of : String → List ServiceStatus → Option ServiceStatus
entry_of name [] = none
entry_of name (s ∷ rest) =
    let later = entry_of name rest in if s.name == name then some s else later

-- No entry has the name, and no name occurs twice.
abbrev pub NewName : String → List ServiceStatus → Type 0
NewName name ss = All (λ (s : ServiceStatus). s.name ≢ name) ss

abbrev pub UniqueNames : List ServiceStatus → Type 0
UniqueNames [] = Unit
UniqueNames (s ∷ ss) = NewName s.name ss × UniqueNames ss

entry_of-hit :
    (name : String) (s : ServiceStatus) (rest : List ServiceStatus)
    → (s.name == name) ≡ true
    → entry_of name (s ∷ rest) ≡ some s
unfolding entry_of
entry_of-hit name s rest h = rw h

entry_of-miss :
    (name : String) (s : ServiceStatus) (rest : List ServiceStatus)
    → (s.name == name) ≡ false
    → entry_of name (s ∷ rest) ≡ entry_of name rest
unfolding entry_of
entry_of-miss name s rest h = rw h

not_equal : (a b : String) → a ≢ b → (a == b) ≡ false
not_equal a b h = elim (Bool-cases (a == b)) [
  | inl same ↦ absurd (h ((eq_iff a b).0 same))
  | inr differ ↦ differ
]

-- Entries that agree behind an entry agree with it in front.
entry_of-behind :
    (name : String) (s : ServiceStatus) (before after : List ServiceStatus)
    → entry_of name before ≡ entry_of name after
    → entry_of name (s ∷ before) ≡ entry_of name (s ∷ after)
unfolding entry_of
entry_of-behind name s before after h = ap (λ later. if s.name == name then some s else later) h

module _ (name : String) (is_up : Bool) (msg : String) where
  entry_of-upsert_same :
      (ss : List ServiceStatus)
      → entry_of name (upsert_service name is_up msg ss)
        ≡ some (record { name = name; ready = is_up; message = msg })
  unfolding upsert_service
  entry_of-upsert_same [] = entry_of-hit name _ [] (eq_refl name)
  entry_of-upsert_same (s ∷ rest) = elim (Bool-cases (s.name == name)) [
    | inl same ↦
        let e : s.name ≡ name = (eq_iff s.name name).0 same in
        rw same (
          entry_of-hit name _ rest same
          ∙ ap (λ n. some (record { name = n; ready = is_up; message = msg })) e)
    | inr differ ↦ rw differ (entry_of-miss name s _ differ ∙ entry_of-upsert_same rest)
  ]

  entry_of-upsert_other :
      (other : String) (ss : List ServiceStatus)
      → name ≢ other
      → entry_of other (upsert_service name is_up msg ss) ≡ entry_of other ss
  unfolding upsert_service
  entry_of-upsert_other other [] h = entry_of-miss other _ [] (not_equal name other h)
  entry_of-upsert_other other (s ∷ rest) h = elim (Bool-cases (s.name == name)) [
    | inl same ↦
        let e : s.name ≡ name = (eq_iff s.name name).0 same in
        let miss = not_equal s.name other (λ f. h (sym e ∙ f)) in
        rw same (entry_of-miss other _ rest miss ∙ sym (entry_of-miss other s rest miss))
    | inr differ ↦ rw differ (entry_of-behind other s _ rest (entry_of-upsert_other other rest h))
  ]

  NewName-upsert :
      (other : String) (ss : List ServiceStatus)
      → name ≢ other
      → NewName other ss
      → NewName other (upsert_service name is_up msg ss)
  unfolding upsert_service
  NewName-upsert other [] h new = (h, tt)
  NewName-upsert other (s ∷ rest) h (here, new) = elim (Bool-cases (s.name == name)) [
    | inl same ↦ rw same (here, new)
    | inr differ ↦ rw differ (here, NewName-upsert other rest h new)
  ]

  -- Where no two entries have the same name, no two have it after `updateServiceStatus`.
  pub upsert_service-UniqueNames :
      (ss : List ServiceStatus) → UniqueNames ss → UniqueNames (upsert_service name is_up msg ss)
  unfolding upsert_service
  upsert_service-UniqueNames [] unique = (tt, tt)
  upsert_service-UniqueNames (s ∷ rest) (new, unique) = elim (Bool-cases (s.name == name)) [
    | inl same ↦ rw same (new, unique)
    | inr differ ↦
        let apart : name ≢ s.name =
          λ e. false-ne-true (sym differ ∙ (eq_iff s.name name).1 (sym e)) in
        rw differ (NewName-upsert s.name rest apart new, upsert_service-UniqueNames rest unique)
  ]

  -- `updateServiceStatus` is the update of a map: afterwards the entries say of the service what it
  -- was called with, and of every other service what they said before.
  pub upsert_service-updates :
      (other : String) (ss : List ServiceStatus)
      → entry_of other (upsert_service name is_up msg ss) ≡ (
          if name == other
          then some (record { name = name; ready = is_up; message = msg })
          else entry_of other ss)
  upsert_service-updates other ss = elim (Bool-cases (name == other)) [
    | inl same ↦ rw same (
        ap (λ n. entry_of n (upsert_service name is_up msg ss)) (sym ((eq_iff name other).0 same))
        ∙ entry_of-upsert_same ss)
    | inr differ ↦
        rw differ (
          entry_of-upsert_other other ss
            (λ e. false-ne-true (sym differ ∙ (eq_iff name other).1 e)))
  ]
