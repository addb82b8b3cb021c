-- ===== src/World/Adds.antt =====
-- How provisioning may move the cluster, where more is known of what it adds: each new object is one
-- that may stand under its key.
use ninekube.Prelude.{
  ◌≡◌, refl, sym, ◌∙◌, inl, inr, none, some, none-ne-some, some_inj, Option-cases,
}
use mathlib.Core.Path.{subst⁻¹}
use ninekube.Exec.{total}
use ninekube.Exec.Moves.{IsPreorder}
use ninekube.Kube.{Key, Key-discrete, Object, key_of}
use ninekube.World.{World}
use ninekube.World.Lawful.{Lawful}
use ninekube.World.Permits.{Permits}

module _ {W : World} (L : Lawful W) (N : Key → Object → Type 0) where
  pub record Adds (s t : W.State) : Type 0 where
    pub kept : (k : Key) (x : Object) → L.object s k ≡ some x → L.object t k ≡ some x
    pub new : (k : Key) (x : Object) → L.object s k ≡ none → L.object t k ≡ some x → N k x

  Adds-of_same : (s t : W.State) → ((k : Key) → L.object t k ≡ L.object s k) → Adds s t
  Adds-of_same s t same = record {
    kept = λ k x e. same k ∙ e;
    new = λ k x e f. absurd (none-ne-some (sym e ∙ sym (same k) ∙ f));
  }

  new_trans :
      (s t u : W.State)
      → Adds s t
      → Adds t u
      → (k : Key) (x : Object) → L.object s k ≡ none
      → L.object u k ≡ some x
      → N k x
  new_trans s t u st tu k x e f = elim (Option-cases (L.object t k)) [
    | inl gone ↦ tu.new k x gone f
    | inr (y, there) ↦
        let same : x ≡ y = some_inj (sym f ∙ tu.kept k y there) in
        subst⁻¹ (λ (o : Object). N k o) same (st.new k y e there)
  ]

  pub Adds-IsPreorder : IsPreorder Adds
  Adds-IsPreorder = record {
    refl_at = λ s. Adds-of_same s s (λ k. refl);
    trans_at = λ s t u st tu. record {
      kept = λ k x e. tu.kept k x (st.kept k x e);
      new = new_trans s t u st tu;
    };
  }

  new_create :
      (o : Object) (s : W.State) (k : Key) (x : Object)
      → N (key_of o) (L.admit o)
      → L.object s k ≡ none
      → L.object (W.create o s).1 k ≡ some x
      → Dec (k ≡ key_of o)
      → N k x
  new_create o s k x good e f (yes p) = rw (p, L.create_new o s x (rw (← p) e) (rw (← p) f)) good
  new_create o s k x good e f (no n) =
      absurd (none-ne-some (sym e ∙ sym (L.create_other o s k n) ∙ f))

  -- An object may be created where what the API server makes of it may be added.
  pub Adds-Permits : Permits W Adds (λ o. N (key_of o) (L.admit o))
  unfolding total
  Adds-Permits = record {
    pre = Adds-IsPreorder;
    get = λ k. record { at = λ s. Adds-of_same s _ (L.get_same k s) };
    now = record { at = λ s. Adds-of_same s _ (L.now_same s) };
    rand_int = λ n. record { at = λ s. Adds-of_same s _ (L.rand_int_same n s) };
    generate_rsa_key = λ n. record { at = λ s. Adds-of_same s _ (L.generate_rsa_key_same n s) };
    create_certificate =
        λ t p a b. record { at = λ s. Adds-of_same s _ (L.create_certificate_same t p a b s) };
    create = λ o good. record {
      at = λ s. record {
        kept = λ k x e. L.create_kept o s k x e;
        new = λ k x e f. new_create o s k x good e f (Key-discrete k (key_of o));
      };
    };
  }
