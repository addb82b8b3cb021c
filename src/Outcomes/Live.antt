-- ===== src/Outcomes/Live.antt =====
-- What a call of `Reconcile` that returned has run through, for a resource that is being provisioned
-- (operator/internal/controller/clientnamespace_controller.go).
use ninekube.Prelude.{
  ℕ, String, ◌≡◌, refl, sym, ◌∙◌, ap, false-ne-true, Bool, true, false, some, List, if◌then◌else◌,
}
use mathlib.Core.Path.{subst, subst⁻¹}
use ninekube.Exec.{ok, pure, Outcome, got, attempt, attempted, continue, ◌>>=◌}
use ninekube.Exec.Moves.{Returns, Returns-if, Returns-pure, Returns-bind, bind-ok}
use ninekube.Api.{ClientNamespace, provisioning, NamespacedName}
use ninekube.World.{World}
use ninekube.World.Lawful.{Lawful, name_of}
use ninekube.Catalog.{OptionalService}
use ninekube.Controller.Cleanup.{finalizer_name, ServiceReconciler, reconcile_delete}
use ninekube.Controller.Reconcile.{
  is_ready, with_phase, ensure_finalizer, start_provisioning, provision, reconcile_phase,
  reconcile_fetched, reconcile,
}

-- Neither deleted nor Ready, and with the finalizer.
abbrev pub IsGoing : World → ClientNamespace → Type 0
IsGoing W cn =
    (cn.deleted ≡ false)
    × (W.contains_finalizer cn finalizer_name ≡ true)
    × (is_ready cn.status.phase ≡ false)

-- The same resource, up to the phase and the version.
abbrev pub SameClient : ClientNamespace → ClientNamespace → Type 0
SameClient cn new =
    (new.spec ≡ cn.spec)
    × (new.status.conditions ≡ cn.status.conditions)
    × (name_of new ≡ name_of cn)
    × (new.status.services ≡ cn.status.services)
    × (new.deleted ≡ cn.deleted)
    × (new.finalizers ≡ cn.finalizers)

module _ {W : World} (L : Lawful W) (decimal : ℕ → String) (order : List OptionalService) where
  start_provisioning-Returns :
      (cn : ClientNamespace) → Returns (λ new _. SameClient cn new) (start_provisioning W cn)
  start_provisioning-Returns cn =
      unfold start_provisioning in
      Returns-if _ _ _
        (λ _. record {
          at = λ s new e.
              let law = L.update_status_ok (with_phase cn provisioning) s new e in
              let kept = L.update_status_kept (with_phase cn provisioning) s new e in
              (
                law.2,
                ap (λ status. status.conditions) law.1,
                law.3,
                ap (λ status. status.services) law.1,
                kept.0,
                kept.1,
              );
        })
        (λ _. Returns-pure {P = SameClient cn} cn (refl, refl, refl, refl, refl, refl))

  pub ensure_finalizer-Returns :
      (cn : ClientNamespace)
      → W.contains_finalizer cn finalizer_name ≡ true
      → Returns (λ new _. new ≡ cn) (ensure_finalizer W cn)
  ensure_finalizer-Returns cn finalized =
      unfold ensure_finalizer in
      Returns-if _ _ _ (λ _. Returns-pure {P = λ new. new ≡ cn} cn refl)
        (λ missing. absurd (false-ne-true (sym missing ∙ finalized)))

  module _ (services : List (ServiceReconciler W)) (cn : ClientNamespace)
      {P : W.State → Type 0} where
    reconcile_phase-Returns :
        is_ready cn.status.phase ≡ false
        → ((new : ClientNamespace)
            → SameClient cn new
            → Returns (λ _. P) (provision W decimal order services new))
        → Returns (λ _. P) (reconcile_phase W decimal order services cn)
    unfolding reconcile_phase
    reconcile_phase-Returns going h =
        rw going (
          Returns-bind _ _ (start_provisioning-Returns cn)
            (λ new s u same e. (h new same).at s u e))

    fetched-Returns :
        IsGoing W cn
        → ((new : ClientNamespace)
            → SameClient cn new
            → Returns (λ _. P) (provision W decimal order services new))
        → Returns (λ _. P) (reconcile_fetched W decimal order services (got cn))
    unfolding reconcile_fetched
    fetched-Returns (live, finalized, going) h =
        Returns-if _ _ _ (λ deleted. absurd (false-ne-true (sym live ∙ deleted)))
          (λ _. Returns-bind _ _ (ensure_finalizer-Returns cn finalized) (λ new s u same e.
            (subst (λ c. Returns (λ _. P) (reconcile_phase W decimal order services c)) (sym same)
                (reconcile_phase-Returns going h)).at
              s u e))

    continue-Returns :
        (r : Outcome ClientNamespace) (t : W.State)
        → r ≡ ok cn
        → Returns (λ _. P) (reconcile_fetched W decimal order services (got cn))
        → (continue (attempted r) (reconcile_fetched W decimal order services) t).0 ≡ ok tt
        → P (continue (attempted r) (reconcile_fetched W decimal order services) t).1
    continue-Returns r t e h done =
        (rw e (
          h.at t tt (
            subst
              (λ q.
                (continue (attempted q) (reconcile_fetched W decimal order services) t).0 ≡ ok tt)
              e done)))

    -- What holds after `provision`, for the resource that it is given, holds after `Reconcile`.
    pub reconcile-Returns :
        (request : NamespacedName) (s : W.State)
        → (W.get_client_namespace request s).0 ≡ ok cn
        → IsGoing W cn
        → ((new : ClientNamespace)
            → SameClient cn new
            → Returns (λ _. P) (provision W decimal order services new))
        → (reconcile W decimal order services request s).0 ≡ ok tt
        → P (reconcile W decimal order services request s).1
    unfolding reconcile attempt ◌>>=◌
    reconcile-Returns request s fetched going h done =
        continue-Returns (W.get_client_namespace request s).0 _ fetched (fetched-Returns going h)
          done

-- Neither deleted nor Ready, with the finalizer or without it.
abbrev pub IsOpen : ClientNamespace → Type 0
IsOpen cn = (cn.deleted ≡ false) × (is_ready cn.status.phase ≡ false)

-- The same resource, up to the finalizers, the phase and the version.
abbrev pub SamePlan : ClientNamespace → ClientNamespace → Type 0
SamePlan cn new =
    (new.spec ≡ cn.spec)
    × (new.status.conditions ≡ cn.status.conditions)
    × (name_of new ≡ name_of cn)
    × (new.status.services ≡ cn.status.services)
    × (new.deleted ≡ cn.deleted)

-- The same resource, up to the finalizers and the version.
abbrev pub Prepared : ClientNamespace → ClientNamespace → Type 0
Prepared cn new =
    (new.spec ≡ cn.spec)
    × (new.status ≡ cn.status)
    × (name_of new ≡ name_of cn)
    × (new.deleted ≡ cn.deleted)

module _ {W : World} (L : Lawful W) (cn : ClientNamespace) (t : W.State) where
  -- With the finalizer, or the update that adds it.
  pub finalized-Prepared :
      (b : Bool) (new : ClientNamespace)
      → L.stored t (name_of cn) ≡ some cn
      → ((if b then pure cn else W.update (W.add_finalizer cn finalizer_name)) t).0 ≡ ok new
      → Prepared cn new
  finalized-Prepared true new stored e =
      (Returns-pure {P = Prepared cn} cn (refl, refl, refl, refl)).at t new e
  finalized-Prepared false new stored e =
      let added : ClientNamespace = W.add_finalizer cn finalizer_name in
      let (_, spec, name) = L.add_finalizer_ok cn finalizer_name in
      let law = L.update_ok added t new e in
      let kept = L.update_kept added t cn new (ap (L.stored t) name ∙ stored) e in
      (law.0 ∙ spec, kept.0, law.1 ∙ name, kept.1 ∙ L.add_finalizer_kept cn finalizer_name)

  ensure_finalizer-Prepared :
      (new : ClientNamespace)
      → L.stored t (name_of cn) ≡ some cn
      → (ensure_finalizer W cn t).0 ≡ ok new
      → Prepared cn new
  unfolding ensure_finalizer
  ensure_finalizer-Prepared new stored e =
      finalized-Prepared (W.contains_finalizer cn finalizer_name) new stored e

SamePlan-of_Prepared :
    (cn new last : ClientNamespace) → Prepared cn new → SameClient new last → SamePlan cn last
SamePlan-of_Prepared cn new last (spec, status, name, deleted) (a, b, c, d, e, _) = (
  a ∙ spec,
  b ∙ ap (λ st. st.conditions) status,
  c ∙ name,
  d ∙ ap (λ st. st.services) status,
  e ∙ deleted,
)

module _ {W : World} (L : Lawful W) (decimal : ℕ → String) (order : List OptionalService)
    (services : List (ServiceReconciler W)) (cn : ClientNamespace) (P : W.State → Type 0)
    (still : IsOpen cn)
    (h : (new : ClientNamespace)
      → SamePlan cn new
      → Returns (λ _. P) (provision W decimal order services new)) where
  opened :
      (t : W.State)
      → L.stored t (name_of cn) ≡ some cn
      → (reconcile_fetched W decimal order services (got cn) t).0 ≡ ok tt
      → P (reconcile_fetched W decimal order services (got cn) t).1
  unfolding reconcile_fetched
  opened t stored done =
      let phase = reconcile_phase W decimal order services in
      let run =
        ap (λ b. (if b then reconcile_delete W services cn else ensure_finalizer W cn >>= phase) t)
          still.0 in
      let (new, made, rest, last) =
        bind-ok (ensure_finalizer W cn) phase t tt (ap (λ r. r.0) (sym run) ∙ done) in
      let prepared = ensure_finalizer-Prepared L cn t new stored made in
      let unready = ap (λ st. is_ready st.phase) prepared.1 ∙ still.1 in
      subst⁻¹ P (ap (λ r. r.1) run ∙ last) (
        (reconcile_phase-Returns L decimal order services new {P = P} unready
            (λ final same. h final (SamePlan-of_Prepared cn new final prepared same))).at
          _ tt rest)

  opened_of :
      (r : Outcome ClientNamespace) (t : W.State)
      → r ≡ ok cn
      → L.stored t (name_of cn) ≡ some cn
      → (continue (attempted r) (reconcile_fetched W decimal order services) t).0 ≡ ok tt
      → P (continue (attempted r) (reconcile_fetched W decimal order services) t).1
  opened_of r t e stored done =
      let run = ap (λ q. continue (attempted q) (reconcile_fetched W decimal order services) t) e in
      subst⁻¹ P (ap (λ q. q.1) run) (opened t stored (ap (λ q. q.0) (sym run) ∙ done))

  -- What holds after `provision` for the resource that it is given holds after `Reconcile`, which
  -- adds the finalizer first where it is not there.
  pub reconcile-opened :
      (request : NamespacedName) (s : W.State)
      → (W.get_client_namespace request s).0 ≡ ok cn
      → (reconcile W decimal order services request s).0 ≡ ok tt
      → P (reconcile W decimal order services request s).1
  unfolding reconcile attempt ◌>>=◌
  reconcile-opened request s fetched done =
      let (stored, named) = L.get_client_namespace_found request s cn fetched in
      opened_of (W.get_client_namespace request s).0 _ fetched
        (L.get_client_namespace_stored request s (name_of cn) ∙ (ap (L.stored s) named ∙ stored))
        done
