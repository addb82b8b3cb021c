-- ===== src/Outcomes/Undone.antt =====
-- What a deletion removes: `reconcileDelete` of
-- operator/internal/controller/clientnamespace_controller.go, after its listings.
use mathlib.Core.Path.{subst}
use mathlib.Core.List.{reverse}
use ninekube.Prelude.{
  ℕ, String, ◌<>◌, ◌==◌, index, ◌≡◌, ◌≢◌, refl, sym, ◌∙◌, ap, inl, true, false, some, none, List,
  false-ne-true,
}
use ninekube.Exec.{
  Exec, Outcome, Attempt, got, failed, ok, pure, attempt, attempted, continue, ◌>>=◌, ◌>>◌,
  for_each,
}
use ninekube.Exec.Moves.{
  Moves, IsPreorder, Moves-pure, Moves-raise, Moves-if, Moves-bind, Moves-attempt,
}
use ninekube.Api.{ClientNamespace, NamespacedName}
use ninekube.Kube.{Kind, Key, Object, key_of, kind_of, has_labels, namespace_kind}
use ninekube.World.{World}
use ninekube.World.Lawful.{Lawful}
use ninekube.World.Grows.{namespace_key}
use ninekube.World.Clearing.{
  IsSwept, of_secret, of_config_map, of_deployment, of_stateful_set, of_service, Clearing,
}
use ninekube.Catalog.{OptionalService}
use ninekube.Controller.Labels.{client_labels, ns_name, client_labels_of_name}
use ninekube.Controller.Cleanup.{
  cleanup_client_resources, unless_gone, delete_if_owned, delete_namespace, remove_finalizer,
  reconcile_delete,
}
use ninekube.Controller.Reconcile.{reconcile_fetched, reconcile}
use ninekube.Manager.{services}
use ninekube.Growth.Whole.{reconcile-Grows}
use ninekube.Services.Postgres
use ninekube.Services.Redis
use ninekube.Services.RustFs
use ninekube.Services.Ninegate
use ninekube.Services.Glauth
use ninekube.Services.Dex
use ninekube.Outcomes.Cleared.{IsGone, IsLeft, kind_hit, cleanup_hit}

module _ {W : World} {L : Lawful W} (C : Clearing L) (x : Object)
    (swept : IsSwept (kind_of x.body)) where
  module _ (cn : ClientNamespace) where
    -- A swept object is no Namespace.
    swept-ne-namespace : (kind : Kind) → IsSwept kind → kind ≢ namespace_kind
    swept-ne-namespace kind of_secret e = cc
    swept-ne-namespace kind of_config_map e = cc
    swept-ne-namespace kind of_deployment e = cc
    swept-ne-namespace kind of_stateful_set e = cc
    swept-ne-namespace kind of_service e = cc

    key-ne-namespace : key_of x ≢ namespace_key (ns_name cn)
    key-ne-namespace e = swept-ne-namespace (kind_of x.body) swept (ap (λ (j : Key). j.kind) e)

    -- What is gone stays gone: the moves of what follows the listings.
    abbrev StaysGone : W.State → W.State → Type 0
    StaysGone s t = IsGone L x s → IsGone L x t

    StaysGone-IsPreorder : IsPreorder StaysGone
    StaysGone-IsPreorder = record {
      refl_at = λ s gone. gone;
      trans_at = λ s t u st tu gone. tu (st gone);
    }

    StaysGone-same :
        {A : Type 0} (m : Exec W.State A)
        → ((s : W.State) → L.object (m s).1 (key_of x) ≡ L.object s (key_of x))
        → Moves StaysGone m
    StaysGone-same m same = record { at = λ s gone. same s ∙ gone }

    unless_gone-StaysGone : (r : Attempt (Unit {0})) → Moves StaysGone (unless_gone W r)
    unfolding unless_gone
    unless_gone-StaysGone (got u) = Moves-pure StaysGone-IsPreorder tt
    unless_gone-StaysGone (failed e) =
        Moves-if _ _ _ (λ _. Moves-pure StaysGone-IsPreorder tt)
          (λ _. Moves-raise StaysGone-IsPreorder e)

    delete_key-StaysGone :
        Moves StaysGone
          (attempt (W.delete (namespace_key (ns_name cn))) >>= λ deleted. unless_gone W deleted)
    delete_key-StaysGone =
        Moves-bind StaysGone-IsPreorder _ _
          (Moves-attempt _ (
            StaysGone-same (W.delete (namespace_key (ns_name cn)))
              (λ s. L.delete_other _ s (key_of x) key-ne-namespace)))
          unless_gone-StaysGone

    delete_if_owned-StaysGone :
        (r : Attempt Object) → Moves StaysGone (delete_if_owned W cn (ns_name cn) r)
    unfolding delete_if_owned
    delete_if_owned-StaysGone (failed e) = Moves-pure StaysGone-IsPreorder tt
    delete_if_owned-StaysGone (got o) =
        Moves-if (index "ninekube.io/client" o.meta.labels == cn.name) _ (pure tt)
          (λ _. delete_key-StaysGone) (λ _. Moves-pure StaysGone-IsPreorder tt)

    finish-StaysGone : Moves StaysGone (delete_namespace W cn (ns_name cn) >> remove_finalizer W cn)
    unfolding delete_namespace remove_finalizer
    finish-StaysGone =
        Moves-bind StaysGone-IsPreorder _ _
          (Moves-bind StaysGone-IsPreorder _ _
            (Moves-attempt _ (StaysGone-same _ (λ s. L.get_same _ s (key_of x))))
            delete_if_owned-StaysGone)
          (λ _.
            Moves-bind StaysGone-IsPreorder _ _
              (StaysGone-same _ (λ s. L.update_same _ s (key_of x)))
              (λ _. Moves-pure StaysGone-IsPreorder tt))

    module _ (order : List OptionalService) (here : x.meta.namespace ≡ ns_name cn)
        (labelled : has_labels x.meta.labels (client_labels cn) ≡ true) where
      services-cleanup-run :
          (s : W.State)
          → for_each (reverse (services W order)) (λ svc. svc.cleanup cn) s ≡ (ok tt, s)
      unfolding services for_each ◌>>=◌ pure Postgres.cleanup Redis.cleanup RustFs.cleanup
          Ninegate.cleanup Glauth.cleanup Dex.cleanup
      services-cleanup-run s = refl

      cleared :
          (r : Outcome (Unit {0})) (t : W.State) (u : Unit {0})
          → r ≡ ok u
          → IsGone L x t
          → (IsGone L x)
              (continue r (λ _. delete_namespace W cn (ns_name cn) >> remove_finalizer W cn) t).1
      cleared r t u e gone = rw e (finish-StaysGone.at t gone)

      reconcile_delete-IsGone :
          (s : W.State) → IsLeft L x s → IsGone L x (reconcile_delete W (services W order) cn s).1
      unfolding reconcile_delete ◌>>=◌
      reconcile_delete-IsGone s left =
          let (u, done, _, gone) =
            (cleanup_hit C x swept cn (kind_of x.body) swept
                (kind_hit C x swept cn here labelled)).at
              s left in
          subst
            (λ (r : Outcome (Unit {0}) × W.State).
              IsGone L x
                (continue r.0
                  (λ _.
                    cleanup_client_resources W cn (ns_name cn)
                    >> (delete_namespace W cn (ns_name cn) >> remove_finalizer W cn))
                  r.1).1)
            (sym (services-cleanup-run s)) (cleared _ _ u done gone)

      fetched-IsGone :
          (decimal : ℕ → String) (r : Outcome ClientNamespace) (t : W.State)
          → r ≡ ok cn
          → cn.deleted ≡ true
          → IsLeft L x t
          → (IsGone L x)
              (continue (attempted r) (reconcile_fetched W decimal order (services W order)) t).1
      unfolding reconcile_fetched
      fetched-IsGone decimal r t e dying left = rw e (
          (Moves-if {R = λ s u. IsLeft L x s → IsGone L x u} cn.deleted _ _
              (λ _. record { at = reconcile_delete-IsGone })
              (λ live. absurd (false-ne-true (sym live ∙ dying)))).at
            t left)

-- On a cluster where deletions go through at once, a call of `Reconcile` with the operator's six
-- services for a ClientNamespace that is being deleted removes every Secret, ConfigMap, Deployment,
-- StatefulSet and Service of the client's namespace that has the client's labels.
pub reconcile-clears :
    {W : World} {L : Lawful W} (C : Clearing L) (decimal : ℕ → String)
    (order : List OptionalService) (request : NamespacedName) (s : W.State) (cn : ClientNamespace)
    (x : Object)
    → (W.get_client_namespace request s).0 ≡ ok cn
    → cn.deleted ≡ true
    → L.object s (key_of x) ≡ some x
    → IsSwept (kind_of x.body)
    → x.meta.namespace ≡ ns_name cn
    → has_labels x.meta.labels (client_labels cn) ≡ true
    → L.object (reconcile W decimal order (services W order) request s).1 (key_of x) ≡ none
unfolding reconcile attempt ◌>>=◌
reconcile-clears {W} {L} C decimal order request s cn x fetched dying held swept here labelled =
    fetched-IsGone C x swept cn order here labelled decimal (W.get_client_namespace request s).0 _
      fetched dying (inl (L.get_client_namespace_same request s (key_of x) ∙ held))

-- On such a cluster, what a call of `Reconcile` adds, a later call removes: let one call run for a
-- live ClientNamespace, however it ends, and then one for the same resource once it is being deleted;
-- then a Secret, ConfigMap, Deployment, StatefulSet or Service of the client's namespace that was not
-- there before the first call, and was there after it, is not there after the second.
pub reconcile-undoes :
    {W : World} {L : Lawful W} (C : Clearing L) (decimal : ℕ → String)
    (order : List OptionalService) (request : NamespacedName) (s t : W.State)
    (cn dying : ClientNamespace) (x : Object)
    → (W.get_client_namespace request s).0 ≡ ok cn
    → cn.deleted ≡ false
    → ((k : Key)
        → L.object t k ≡ L.object (reconcile W decimal order (services W order) request s).1 k)
    → (W.get_client_namespace request t).0 ≡ ok dying
    → dying.deleted ≡ true
    → IsSwept (kind_of x.body)
    → x.meta.namespace ≡ ns_name cn
    → L.object s (key_of x) ≡ none
    → L.object t (key_of x) ≡ some x
    → L.object (reconcile W decimal order (services W order) request t).1 (key_of x) ≡ none
reconcile-undoes {W} {L} C decimal order request s t cn dying x fetched live same again deleted
      swept here absent there =
    let name : dying.name ≡ cn.name =
      ap (λ (n : NamespacedName). n.name)
        ((L.get_client_namespace_found request t dying again).1
          ∙ sym (L.get_client_namespace_found request s cn fetched).1) in
    reconcile-clears C decimal order request t dying x again deleted there swept
      (here ∙ ap (λ n. n <> "-ns") (sym name))
      (rw (client_labels_of_name dying cn name) (
        (reconcile-Grows L decimal order request s cn fetched live).labelled (key_of x) x absent
          (sym (same (key_of x)) ∙ there)))
