-- ===== src/Phases/Retry.antt =====
-- The work queue, which calls `Reconcile` (operator/internal/controller/clientnamespace_controller.go)
-- again while it fails.
use ninekube.Prelude.{
  ℕ, zero, suc, String, ◌≡◌, refl, sym, ◌∙◌, ap, true, false, some, none-ne-some, some_inj, List,
  Bool-cases, inl, inr,
}
use mathlib.Core.Path.{subst, subst⁻¹}
use ninekube.Exec.{
  Exec, Outcome, Error, ok, err, panic, attempt, attempted, continue, ◌>>=◌, pure, raise,
  is_not_found, failed,
}
use ninekube.Api.{ClientNamespace, NamespacedName}
use ninekube.World.{World}
use ninekube.World.Lawful.{Lawful, name_of}
use ninekube.World.Storing.{Storing}
use ninekube.Catalog.{OptionalService}
use ninekube.Controller.Cleanup.{finalizer_name}
use ninekube.Controller.Reconcile.{reconcile_fetched, reconcile}
use ninekube.Manager.{services}
use ninekube.Outcomes.Stuck.{reconcile-stuck}
use ninekube.Phases.{stage_of, IsStuck, Reaches-IsStuck, working-not_ready}
use ninekube.Phases.Whole.{reconcile-Reaches}

-- A call that failed is followed by the next one.
abbrev pub or_again : {S : Type 0} → Outcome (Unit {0}) → Exec S (Unit {0}) → Exec S (Unit {0})
or_again (ok u) next t = (ok u, t)
or_again (err e) next t = next t
or_again panic next t = next t

-- A call of `Reconcile`, and up to k more while it returns an error or panics.
unfoldable pub retried :
    (W : World) (decimal : ℕ → String) (order : List OptionalService)
    → ℕ
    → NamespacedName
    → Exec W.State (Unit {0})
retried W decimal order zero request s = reconcile W decimal order (services W order) request s
retried W decimal order (suc k) request s =
    let (r, t) = reconcile W decimal order (services W order) request s in
    or_again r (retried W decimal order k request) t

-- The stored resource is live, has the finalizer, and is in a stage that it does not leave.
abbrev pub StoredStuck : {W : World} → Lawful W → NamespacedName → W.State → Type 0
StoredStuck {W} L request s =
    (cn : ClientNamespace) × (L.stored s request ≡ some cn)
    × (name_of cn ≡ request)
    × (cn.deleted ≡ false)
    × (W.contains_finalizer cn finalizer_name ≡ true)
    × IsStuck (stage_of cn.status)

module _ {W : World} (L : Lawful W) (St : Storing L) (decimal : ℕ → String)
    (order : List OptionalService) (request : NamespacedName) where
  abbrev Again : Outcome (Unit {0}) → W.State → Type 0
  Again r t = (¬ (r ≡ ok tt)) × StoredStuck L request t

  raise_if-Again :
      (e : Error) (t : W.State)
      → ¬ (is_not_found e ≡ true)
      → StoredStuck L request t
      → (let run = reconcile_fetched W decimal order (services W order) (failed e) t in
          Again run.0 run.1)
  unfolding reconcile_fetched pure raise
  raise_if-Again e t known h = elim (Bool-cases (is_not_found e)) [
    | inl missing ↦ absurd (known missing)
    | inr other ↦ rw other ((λ p. cc), h)
  ]

  module _ (s : W.State) where
    -- The resource was read.
    read-Again :
        (cn : ClientNamespace)
        → (W.get_client_namespace request s).0 ≡ ok cn
        → name_of cn ≡ request
        → cn.deleted ≡ false
        → W.contains_finalizer cn finalizer_name ≡ true
        → IsStuck (stage_of cn.status)
        → (let run = reconcile W decimal order (services W order) request s in Again run.0 run.1)
    read-Again cn fetched named live finalized (working, failed_before) =
        let t : W.State = (reconcile W decimal order (services W order) request s).1 in
        let (new, there, (_, name, deleted, finalizers), reached) =
          reconcile-Reaches L St cn decimal order request s fetched live finalized in
        (
          reconcile-stuck L decimal order (services W order) request s cn fetched
              (live, working-not_ready cn.status.phase working) failed_before,
          (
            new,
            ap (L.stored t) (sym named) ∙ there,
            name ∙ named,
            deleted ∙ live,
            St.contains_finalizer_of new cn finalizer_name finalizers ∙ finalized,
            Reaches-IsStuck reached (working, failed_before),
          ),
        )

    fetched-Again :
        (r : Outcome ClientNamespace)
        → (W.get_client_namespace request s).0 ≡ r
        → StoredStuck L request s
        → (let run = reconcile W decimal order (services W order) request s in Again run.0 run.1)
    unfolding reconcile attempt ◌>>=◌
    fetched-Again (ok cn) e (old, stored, h0, h1, h2, h3) =
        let same : old ≡ cn =
          some_inj (sym stored ∙ (L.get_client_namespace_found request s cn e).0) in
        let (named, live, finalized, stuck) =
          subst
            (λ (c : ClientNamespace).
              (name_of c ≡ request)
              × (c.deleted ≡ false)
              × (W.contains_finalizer c finalizer_name ≡ true)
              × IsStuck (stage_of c.status))
            same (h0, h1, h2, h3) in
        read-Again cn e named live finalized stuck
    fetched-Again (err x) e (old, stored, named, live, finalized, stuck) =
        let t : W.State = (W.get_client_namespace request s).1 in
        subst⁻¹
          (λ (q : Outcome ClientNamespace).
            (let run =
                continue (attempted q) (reconcile_fetched W decimal order (services W order)) t in
              Again run.0 run.1))
          e
          (raise_if-Again x t
            (λ missing.
              none-ne-some (sym (St.get_client_namespace_missing request s x e missing) ∙ stored))
            (
              old,
              L.get_client_namespace_stored request s request ∙ stored,
              named,
              live,
              finalized,
              stuck,
            ))
    fetched-Again panic e (old, stored, named, live, finalized, stuck) =
        let t : W.State = (W.get_client_namespace request s).1 in
        subst⁻¹
          (λ (q : Outcome ClientNamespace).
            (let run =
                continue (attempted q) (reconcile_fetched W decimal order (services W order)) t in
              Again run.0 run.1))
          e
          (
            (λ p. cc),
            (
              old,
              L.get_client_namespace_stored request s request ∙ stored,
              named,
              live,
              finalized,
              stuck,
            ),
          )

  or_again-Again :
      (r : Outcome (Unit {0})) (next : Exec W.State (Unit {0})) (t : W.State)
      → Again r t
      → (StoredStuck L request t → Again (next t).0 (next t).1)
      → Again (or_again r next t).0 (or_again r next t).1
  or_again-Again (ok u) next t (never, h) k = absurd (never refl)
  or_again-Again (err e) next t (never, h) k = k h
  or_again-Again panic next t (never, h) k = k h

  -- Once the stored resource is live, with the finalizer, Provisioning or Failed and with a condition
  -- of the type Ready, no number of calls of `Reconcile` brings one that returns without an error,
  -- and the resource is still stored so afterwards.
  pub retried-never :
      (k : ℕ) (s : W.State)
      → StoredStuck L request s
      → (¬ ((retried W decimal order k request s).0 ≡ ok tt))
        × StoredStuck L request (retried W decimal order k request s).1
  unfolding retried
  retried-never zero s h = fetched-Again s (W.get_client_namespace request s).0 refl h
  retried-never (suc k) s h =
      or_again-Again _ (retried W decimal order k request) _
        (fetched-Again s (W.get_client_namespace request s).0 refl h) (retried-never k _)
