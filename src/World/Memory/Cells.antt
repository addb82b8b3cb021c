-- ===== src/World/Memory/Cells.antt =====
-- Reading and writing the cells of the cluster in memory, and its tests.
use ninekube.Prelude.{
  ◌≡◌, ◌≢◌, refl, sym, ◌∙◌, ap, Bool, true, false, Option, none, some, List, [], ◌∷◌, not, ◌&&◌,
  if◌then◌else◌,
}
use ninekube.Kube.{Key, Key-discrete, Object}
use ninekube.World.Memory.{find, without_key, is, set_cell}

pub is_yes : {P : Type 0} (d : Dec P) → is d ≡ true → P
is_yes (yes p) h = p
is_yes (no n) h = absurd (cc)

pub is_no : {P : Type 0} (d : Dec P) → is d ≡ false → ¬ P
is_no (yes p) h = absurd (cc)
is_no (no n) h = n

pub is_true : {P : Type 0} (d : Dec P) → P → is d ≡ true
is_true (yes p) h = refl
is_true (no n) h = absurd (n h)

pub is_false : {P : Type 0} (d : Dec P) → ¬ P → is d ≡ false
is_false (yes p) h = absurd (h p)
is_false (no n) h = refl

pub and_true : (a b : Bool) → (a && b) ≡ true → (a ≡ true) × (b ≡ true)
and_true true b h = (refl, h)
and_true false b h = cc

pub not-true : (a : Bool) → not a ≡ true → a ≡ false
not-true true h = cc
not-true false h = refl

pub find_hit :
    (k j : Key) (o : Object) (rest : List (Key × Object)) → k ≡ j → find k ((j, o) ∷ rest) ≡ some o
unfolding find
find_hit k j o rest h = rw (is_true (Key-discrete k j) h)

pub find_miss :
    (k j : Key) (o : Object) (rest : List (Key × Object))
    → k ≢ j
    → find k ((j, o) ∷ rest) ≡ find k rest
unfolding find
find_miss k j o rest h = rw (is_false (Key-discrete k j) h)

pub find_behind :
    (k j : Key) (o : Object) (before after : List (Key × Object))
    → find k before ≡ find k after
    → find k ((j, o) ∷ before) ≡ find k ((j, o) ∷ after)
unfolding find
find_behind k j o before after h = ap (λ later. if is (Key-discrete k j) then some o else later) h

pub find-without_key_self : (k : Key) (es : List (Key × Object)) → find k (without_key k es) ≡ none
unfolding without_key find
find-without_key_self k [] = refl
find-without_key_self k ((j, o) ∷ rest) = elim (Key-discrete k j) [
  | yes same ↦ rw (is_true (Key-discrete k j) same) (find-without_key_self k rest)
  | no differ ↦
      rw (is_false (Key-discrete k j) differ)
        (rw (is_false (Key-discrete k j) differ) (find-without_key_self k rest))
]

pub find-without_key_ne :
    (k j : Key) (es : List (Key × Object)) → j ≢ k → find j (without_key k es) ≡ find j es
unfolding without_key
find-without_key_ne k j [] h = refl
find-without_key_ne k j ((i, o) ∷ rest) h = elim (Key-discrete k i) [
  | yes same ↦
      rw (is_true (Key-discrete k i) same)
        (find-without_key_ne k j rest h ∙ sym (find_miss j i o rest (λ e. h (e ∙ sym same))))
  | no differ ↦
      rw (is_false (Key-discrete k i) differ)
        (find_behind j i o (without_key k rest) rest (find-without_key_ne k j rest h))
]

pub set_cell_self :
    (es : List (Key × Object)) (k : Key) (o : Option Object) → find k (set_cell es k o) ≡ o
unfolding set_cell
set_cell_self es k none = find-without_key_self k es
set_cell_self es k (some o) = find_hit k k o es refl

pub set_cell_ne :
    (es : List (Key × Object)) (k j : Key) (o : Option Object)
    → j ≢ k
    → find j (set_cell es k o) ≡ find j es
unfolding set_cell
set_cell_ne es k j none h = find-without_key_ne k j es h
set_cell_ne es k j (some o) h = find_miss j k o es h
