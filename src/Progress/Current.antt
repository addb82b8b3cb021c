-- ===== src/Progress/Current.antt =====
-- The API server's record of the resource on a good day: what leaves it alone, and what is known of
-- it while a copy of it is at hand. An update of a copy whose version is no longer the stored one
-- would end in a conflict.
use ninekube.Prelude.{◌≡◌, refl, ◌∙◌, some}
use ninekube.Exec.{Exec, total}
use ninekube.Exec.Moves.{Moves}
use ninekube.Exec.Succeeds.{Succeeds}
use ninekube.Api.{ClientNamespace, NamespacedName}
use ninekube.Kube.{Object}
use ninekube.World.{World}
use ninekube.World.Lawful.{Lawful, name_of}
use ninekube.World.Permits.{Permits}
use ninekube.World.Storing.{Storing}

module _ {W : World} (L : Lawful W) where
  -- No resource's record changes.
  abbrev pub Leaves : W.State → W.State → Type 0
  Leaves s t = (n : NamespacedName) → L.stored t n ≡ L.stored s n

  pub Leaves-Permits : Storing L → (C : Object → Type 0) → Permits W Leaves C
  Leaves-Permits St C = record {
    pre = record { refl_at = λ s n. refl; trans_at = λ s t u st tu n. tu n ∙ st n };
    get = λ k. record { at = λ s. St.get_kept k s };
    now = unfold total in record { at = λ s. St.now_kept s };
    rand_int = λ i. record { at = λ s. St.rand_int_kept i s };
    generate_rsa_key = λ i. record { at = λ s. St.generate_rsa_key_kept i s };
    create_certificate = λ t p a b. record { at = λ s. St.create_certificate_kept t p a b s };
    create = λ o _. record { at = λ s. St.create_kept o s };
  }

  -- The condition, and that the resource is stored at the version of the copy.
  abbrev pub AtVersion : (W.State → Type 0) → ClientNamespace → W.State → Type 0
  AtVersion I cn s =
      I s
      × ((old : ClientNamespace) × (L.stored s (name_of cn) ≡ some old)
          × (old.resource_version ≡ cn.resource_version))

  -- The condition, and that the copy is what is stored.
  abbrev pub Stored : (W.State → Type 0) → ClientNamespace → W.State → Type 0
  Stored I cn s = I s × (L.stored s (name_of cn) ≡ some cn)

  -- What leaves the records alone leaves the version.
  pub Succeeds-AtVersion :
      {A : Type 0} {I J : W.State → Type 0} {P : A → Type 0} (cn : ClientNamespace)
      (m : Exec W.State A)
      → Moves Leaves m
      → Succeeds I J P m
      → Succeeds (AtVersion I cn) (AtVersion J cn) P m
  Succeeds-AtVersion cn m moves h = record {
    at = λ s (i, (old, stored, version)).
        let (a, e, p, j) = h.at s i in
        (a, e, p, (j, (old, moves.at s (name_of cn) ∙ stored, version)));
  }

  pub Succeeds-Stored :
      {A : Type 0} {I J : W.State → Type 0} {P : A → Type 0} (cn : ClientNamespace)
      (m : Exec W.State A)
      → Succeeds (AtVersion I cn) J P m
      → Succeeds (Stored I cn) J P m
  Succeeds-Stored cn m h = record { at = λ s (i, stored). h.at s (i, (cn, stored, refl)) }
