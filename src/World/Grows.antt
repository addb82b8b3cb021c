-- ===== src/World/Grows.antt =====
-- How provisioning may move the cluster: it adds objects of one client, and changes no other.
pub mod Rules
use ninekube.Prelude.{
  String, ◌≡◌, refl, sym, ◌∙◌, ◌⊎◌, inl, inr, true, none, some, none-ne-some, some_inj,
  Option-cases, StringMap,
}
use ninekube.Exec.Moves.{Moves, IsPreorder}
use ninekube.Kube.{namespace_kind, Key, Key-discrete, Object, key_of, has_labels}
use ninekube.World.{World}
use ninekube.World.Lawful.{Lawful}

abbrev pub namespace_key : String → Key
namespace_key ns = record { kind = namespace_kind; namespace = ""; name = ns }

-- The keys that belong to a client: its Namespace, and all that stands in it.
abbrev pub IsOwn : String → Key → Type 0
IsOwn ns k = (k.namespace ≡ ns) ⊎ (k ≡ namespace_key ns)

module _ {W : World} (L : Lawful W) where
  -- The object is held, whatever its contents.
  abbrev pub Present : Key → W.State → Type 0
  Present k s = (x : Object) × (L.object s k ≡ some x)

module _ {W : World} (L : Lawful W) (ns : String) (labels : StringMap) where
  pub record Grows (s t : W.State) : Type 0 where
    -- What was held is held unchanged.
    pub kept : (k : Key) (x : Object) → L.object s k ≡ some x → L.object t k ≡ some x
    -- What is not the client's is as it was.
    pub confined : (k : Key) → ¬ IsOwn ns k → L.object t k ≡ L.object s k
    -- What is new carries the labels.
    pub labelled :
        (k : Key) (x : Object)
        → L.object s k ≡ none
        → L.object t k ≡ some x
        → has_labels x.meta.labels labels ≡ true

  pub Grows-of_same : (s t : W.State) → ((k : Key) → L.object t k ≡ L.object s k) → Grows s t
  Grows-of_same s t same = record {
    kept = λ k x e. same k ∙ e;
    confined = λ k _. same k;
    labelled = λ k x e f. absurd (none-ne-some (sym e ∙ sym (same k) ∙ f));
  }

  labelled_trans :
      (s t u : W.State)
      → Grows s t
      → Grows t u
      → (k : Key) (x : Object) → L.object s k ≡ none
      → L.object u k ≡ some x
      → has_labels x.meta.labels labels ≡ true
  labelled_trans s t u st tu k x e f = elim (Option-cases (L.object t k)) [
    | inl gone ↦ tu.labelled k x gone f
    | inr (y, there) ↦
        let same : y ≡ x = some_inj (sym (tu.kept k y there) ∙ f) in
        rw (← same) (st.labelled k y e there)
  ]

  pub Grows-IsPreorder : IsPreorder Grows
  Grows-IsPreorder = record {
    refl_at = λ s. Grows-of_same s s (λ k. refl);
    trans_at = λ s t u st tu. record {
      kept = λ k x e. tu.kept k x (st.kept k x e);
      confined = λ k h. tu.confined k h ∙ st.confined k h;
      labelled = labelled_trans s t u st tu;
    };
  }

  module _ (o : Object) (good : has_labels o.meta.labels labels ≡ true) where
    labelled_create :
        (s : W.State) (k : Key) (x : Object)
        → L.object s k ≡ none
        → L.object (W.create o s).1 k ≡ some x
        → Dec (k ≡ key_of o)
        → has_labels x.meta.labels labels ≡ true
    labelled_create s k x e f (yes p) =
        rw (L.create_new o s x (rw (← p) e) (rw (← p) f)) (L.admit_labels o labels good)
    labelled_create s k x e f (no n) =
        absurd (none-ne-some (sym e ∙ sym (L.create_other o s k n) ∙ f))

  -- A new object of the client, with the labels, is such a move, also where `create` fails.
  pub Grows-create :
      (o : Object)
      → IsOwn ns (key_of o)
      → has_labels o.meta.labels labels ≡ true
      → Moves Grows (W.create o)
  Grows-create o own good = record {
    at = λ s. record {
      kept = λ k x e. L.create_kept o s k x e;
      confined = λ k h. L.create_other o s k (λ e. h (rw e own));
      labelled = λ k x e f. labelled_create o good s k x e f (Key-discrete k (key_of o));
    };
  }
