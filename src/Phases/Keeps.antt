-- ===== src/Phases/Keeps.antt =====
-- How a call of `Reconcile` for a resource may move the API server's record of it.
use ninekube.Prelude.{◌≡◌, sym, ◌∙◌, ap, some, inl, inr}
use mathlib.Core.Path.{subst⁻¹}
use ninekube.Exec.{total}
use ninekube.Exec.Moves.{Moves, IsPreorder}
use ninekube.Api.{ClientNamespace, ClientNamespaceStatus, NamespacedName}
use ninekube.Kube.{Object}
use ninekube.World.{World}
use ninekube.World.Lawful.{Lawful, name_of, UniqueTypes}
use ninekube.World.Permits.{Permits}
use ninekube.World.Storing.{Storing, SameResource}
use ninekube.Phases.{Reaches, stage_of}

pub SameResource-trans :
    (a b c : ClientNamespace) → SameResource a b → SameResource b c → SameResource a c
SameResource-trans a b c (s, n, d, f) (s', n', d', f') = (s' ∙ s, n' ∙ n, d' ∙ d, f' ∙ f)

module _ {W : World} (L : Lawful W) (cn : ClientNamespace) where
  -- The record is that of the resource, in a stage that its stage can reach.
  abbrev pub Holds : W.State → Type 0
  Holds s =
      (new : ClientNamespace) × (L.stored s (name_of cn) ≡ some new)
      × SameResource cn new
      × Reaches (stage_of cn.status) (stage_of new.status)

  abbrev pub Keeps : W.State → W.State → Type 0
  Keeps s t = Holds s → Holds t

  pub Keeps-IsPreorder : IsPreorder Keeps
  Keeps-IsPreorder = record { refl_at = λ s h. h; trans_at = λ s t u st tu h. tu (st h) }

  -- What leaves the records alone keeps this one.
  Keeps-of_same : (s t : W.State) → ((n : NamespacedName) → L.stored t n ≡ L.stored s n) → Keeps s t
  Keeps-of_same s t same (new, e, again, r) = (new, same (name_of cn) ∙ e, again, r)

  module _ (St : Storing L) where
    pub Keeps-Permits : (C : Object → Type 0) → Permits W Keeps C
    Keeps-Permits C = record {
      pre = Keeps-IsPreorder;
      get = λ k. record { at = λ s. Keeps-of_same s _ (St.get_kept k s) };
      now = unfold total in record { at = λ s. Keeps-of_same s _ (St.now_kept s) };
      rand_int = λ n. record { at = λ s. Keeps-of_same s _ (St.rand_int_kept n s) };
      generate_rsa_key = λ n. record { at = λ s. Keeps-of_same s _ (St.generate_rsa_key_kept n s) };
      create_certificate =
          λ t p a b. record { at = λ s. Keeps-of_same s _ (St.create_certificate_kept t p a b s) };
      create = λ o _. record { at = λ s. Keeps-of_same s _ (St.create_kept o s) };
    }

    pub Keeps-get_client_namespace : (n : NamespacedName) → Moves Keeps (W.get_client_namespace n)
    Keeps-get_client_namespace n = record {
      at = λ s. Keeps-of_same s _ (L.get_client_namespace_stored n s);
    }

    -- An update to a stage that can be reached, of the same resource.
    pub Keeps-update_status :
        (next : ClientNamespace)
        → SameResource cn next
        → (UniqueTypes next.status.conditions → Reaches (stage_of cn.status) (stage_of next.status))
        → Moves Keeps (W.update_status next)
    Keeps-update_status next same r = record {
      at = λ s (old, e, kin, h). elim (St.update_status_stored next s) [
        | inl kept ↦ (old, ap (L.stored _) (sym same.1) ∙ kept ∙ ap (L.stored s) same.1 ∙ e, kin, h)
        | inr (new, there, status, again, unique) ↦ (
          new,
          ap (L.stored _) (sym same.1) ∙ there,
          SameResource-trans cn next new same again,
          subst⁻¹ (λ (st : ClientNamespaceStatus). Reaches (stage_of cn.status) (stage_of st))
              status (r unique),
        )
      ];
    }
