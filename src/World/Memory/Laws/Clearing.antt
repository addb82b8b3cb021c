-- ===== src/World/Memory/Laws/Clearing.antt =====
-- On the cluster in memory deletions go through at once.
use mathlib.Core.Path.{subst}
use ninekube.Prelude.{
  String, StringMap, ◌≡◌, refl, sym, ◌∙◌, true, Option, some, none, List, [], ◌∷◌, inl, inr,
  none-ne-some, Bool-cases, String-discrete,
}
use ninekube.Exec.{got}
use ninekube.Kube.{Kind, Kind-discrete, Key, Key-discrete, Object, key_of, kind_of, has_labels}
use ninekube.World.Clearing.{AmongKeys, Clearing}
use ninekube.World.Memory.{cell, find, is_listed, listed_at, listed, list, delete}
use ninekube.World.Memory.Laws.{memory-Lawful}
use ninekube.World.Memory.Cells.{is_true, find_miss, set_cell_self}

found_nothing : (k : Key) (y : Object) → find k [] ≡ some y → ⊥
unfolding find
found_nothing k y h = none-ne-some h

module _ (kind : Kind) (ns : String) (labels : StringMap) where
  AmongKeys-listed_at :
      (k j : Key) (old : Option Object) (rest : List Object)
      → AmongKeys k rest
      → AmongKeys k (listed_at kind ns labels j old rest)
  unfolding listed_at
  AmongKeys-listed_at k j none rest h = h
  AmongKeys-listed_at k j (some o) rest h = elim (Bool-cases (is_listed kind ns labels j o)) [
    | inl good ↦ rw good (inr h)
    | inr bad ↦ rw bad h
  ]

  module _ (held : Key → Option Object) (x : Object) (there : held (key_of x) ≡ some x)
      (fits : is_listed kind ns labels (key_of x) x ≡ true) where
    listed_at_hit :
        (old : Option Object) (rest : List Object)
        → old ≡ some x
        → AmongKeys (key_of x) (listed_at kind ns labels (key_of x) old rest)
    unfolding listed_at
    listed_at_hit old rest e = rw (e, fits) (inl refl)

    listed_complete :
        (es : List (Key × Object)) (y : Object)
        → find (key_of x) es ≡ some y
        → AmongKeys (key_of x) (listed kind ns labels held es)
    unfolding listed
    listed_complete [] y h = absurd (found_nothing (key_of x) y h)
    listed_complete ((j, o) ∷ rest) y h = elim (Key-discrete (key_of x) j) [
      | yes same ↦
          subst
            (λ i.
              AmongKeys (key_of x)
                (listed_at kind ns labels i (held i) (listed kind ns labels held rest)))
            same (listed_at_hit (held (key_of x)) _ there)
      | no differ ↦
          AmongKeys-listed_at (key_of x) j (held j) _
            (listed_complete rest y (sym (find_miss (key_of x) j o rest differ) ∙ h))
    ]

is_listed-true :
    (kind : Kind) (ns : String) (labels : StringMap) (x : Object)
    → kind_of x.body ≡ kind
    → x.meta.namespace ≡ ns
    → has_labels x.meta.labels labels ≡ true
    → is_listed kind ns labels (key_of x) x ≡ true
unfolding is_listed
is_listed-true kind ns labels x of_kind here labelled = rw (
  is_true (Kind-discrete (kind_of x.body) kind) of_kind,
  is_true (String-discrete x.meta.namespace ns) here,
  labelled,
  is_true (Key-discrete (key_of x) (key_of x)) refl,
)

pub memory-Clearing : Clearing memory-Lawful
unfolding memory-Lawful list delete
memory-Clearing = record {
  list_done = λ kind ns labels s. (
    _,
    refl,
    λ x held of_kind here labelled.
        listed_complete kind ns labels (cell s) x held
          (is_listed-true kind ns labels x of_kind here labelled) s.entries x held,
  );
  delete_answered = λ k s. (got tt, refl);
  delete_done = λ k s swept. set_cell_self s.entries k none;
}
