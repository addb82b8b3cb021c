-- ===== src/Outcomes/Deletion.antt =====
-- `reconcileDelete` and `cleanupClientResources` of
-- operator/internal/controller/clientnamespace_controller.go: what they leave alone.
use ninekube.Prelude.{
  ℕ, String, ◌≡◌, ◌≢◌, refl, sym, ◌∙◌, ap, ◌⊎◌, inl, inr, true, false, false-ne-true, some,
  some_inj, List, [], ◌∷◌, All, ◌==◌, index,
}
use mathlib.Core.List.{reverse}
use ninekube.Exec.{
  Exec, Outcome, ok, err, panic, Attempt, got, failed, attempted, attempt, continue, pure, ◌>>=◌,
  for_each,
}
use ninekube.Exec.Moves.{
  Moves, IsPreorder, Moves-bind, Moves-pure, Moves-raise, Moves-if, Moves-attempt,
}
use ninekube.Api.{ClientNamespace, NamespacedName}
use ninekube.Kube.{Kind, Key, Object, key_of, kind_of, has_labels}
use ninekube.World.{World}
use ninekube.World.Lawful.{Lawful}
use ninekube.World.Grows.{namespace_key}
use ninekube.Manager.{services}
use ninekube.Services.Postgres
use ninekube.Services.Redis
use ninekube.Services.RustFs
use ninekube.Services.Ninegate
use ninekube.Services.Glauth
use ninekube.Services.Dex
use ninekube.Controller.Reconcile.{reconcile_fetched, reconcile}
use ninekube.Catalog.{OptionalService}
use ninekube.Controller.Labels.{client_labels, ns_name}
use ninekube.Controller.Cleanup.{
  delete_ignoring, delete_listed, cleanup_kind, cleanup_client_resources, unless_gone,
  delete_if_owned, delete_namespace, remove_finalizer, reconcile_delete, ServiceReconciler,
}

-- An object that does not belong to the client: it stands elsewhere or lacks the client's labels,
-- and where it is the Namespace of that name, it does not carry the client's name.
abbrev pub IsForeign : ClientNamespace → Key → Object → Type 0
IsForeign cn k x =
    ((k.namespace ≢ ns_name cn) ⊎ (has_labels x.meta.labels (client_labels cn) ≡ false))
    × (k ≡ namespace_key (ns_name cn)
        → (index "ninekube.io/client" x.meta.labels == cn.name) ≡ false)

module _ {W : World} (L : Lawful W) (k : Key) (x : Object) where
  abbrev pub Spares : W.State → W.State → Type 0
  Spares s t = L.object s k ≡ some x → L.object t k ≡ some x

  pub Spares-IsPreorder : IsPreorder Spares
  Spares-IsPreorder = record { refl_at = λ s h. h; trans_at = λ s t u st tu h. tu (st h) }

  Spares-same :
      {A : Type 0} (m : Exec W.State A)
      → ((s : W.State) → L.object (m s).1 k ≡ L.object s k)
      → Moves Spares m
  Spares-same m same = record { at = λ s h. same s ∙ h }

  delete-Spares : (j : Key) → k ≢ j → Moves Spares (W.delete j)
  delete-Spares j other = Spares-same _ (λ s. L.delete_other j s k other)

  delete_ignoring-Spares : (o : Object) → k ≢ key_of o → Moves Spares (delete_ignoring W o)
  delete_ignoring-Spares o other =
      unfold delete_ignoring in
      Moves-bind Spares-IsPreorder _ _ (Moves-attempt _ (delete-Spares (key_of o) other))
        (λ dropped. Moves-pure Spares-IsPreorder tt)

  delete_each-Spares :
      (os : List Object)
      → All (λ (o : Object). k ≢ key_of o) os
      → Moves Spares (for_each os (delete_ignoring W))
  unfolding for_each
  delete_each-Spares [] h = Moves-pure Spares-IsPreorder tt
  delete_each-Spares (o ∷ os) (h, hs) =
      Moves-bind Spares-IsPreorder _ _ (delete_ignoring-Spares o h) (λ _. delete_each-Spares os hs)

  unless_gone-Spares : (r : Attempt (Unit {0})) → Moves Spares (unless_gone W r)
  unfolding unless_gone
  unless_gone-Spares (got u) = Moves-pure Spares-IsPreorder tt
  unless_gone-Spares (failed e) =
      Moves-if _ _ _ (λ _. Moves-pure Spares-IsPreorder tt) (λ _. Moves-raise Spares-IsPreorder e)

  module _ (cn : ClientNamespace) (foreign : IsForeign cn k x) where
    abbrev Listed : Kind → W.State → Object → Type 0
    Listed kind s o =
        (kind_of o.body ≡ kind)
        × (o.meta.namespace ≡ ns_name cn)
        × (has_labels o.meta.labels (client_labels cn) ≡ true)
        × (L.object s (key_of o) ≡ some o)

    -- What the listing gives is the client's own, so it is not that object.
    Listed-other :
        (kind : Kind) (s : W.State) (o : Object)
        → L.object s k ≡ some x
        → Listed kind s o
        → k ≢ key_of o
    Listed-other kind s o held (_, here, labels, there) same = elim foreign.0 [
      | inl elsewhere ↦ elsewhere (ap (λ (j : Key). j.namespace) same ∙ here)
      | inr unlabelled ↦
          let e : o ≡ x = some_inj (sym there ∙ ap (L.object s) (sym same) ∙ held) in
          false-ne-true (
            sym unlabelled
            ∙ ap (λ (y : Object). has_labels y.meta.labels (client_labels cn)) (sym e)
            ∙ labels)
    ]

    Listed-others :
        (kind : Kind) (s : W.State) (os : List Object)
        → L.object s k ≡ some x
        → All (Listed kind s) os
        → All (λ (o : Object). k ≢ key_of o) os
    Listed-others kind s [] held h = tt
    Listed-others kind s (o ∷ os) held (h, hs) =
        (Listed-other kind s o held h, Listed-others kind s os held hs)

    delete_listed-Spares :
        (r : Outcome (List Object)) (t : W.State)
        → ((os : List Object) → r ≡ ok os → All (λ (o : Object). k ≢ key_of o) os)
        → Spares t (continue (attempted r) (delete_listed W) t).1
    unfolding delete_listed pure
    delete_listed-Spares (ok os) t h held = (delete_each-Spares os (h os refl)).at t held
    delete_listed-Spares (err e) t h held = held
    delete_listed-Spares panic t h held = held

    cleanup_kind-Spares : (kind : Kind) → Moves Spares (cleanup_kind W cn (ns_name cn) kind)
    unfolding cleanup_kind ◌>>=◌ attempt
    cleanup_kind-Spares kind = record {
      at = λ s held.
          delete_listed-Spares (W.list kind (ns_name cn) (client_labels cn) s).0 _
            (λ os e. Listed-others kind s os held (L.list_found kind _ _ s os e))
            (L.list_same kind _ _ s k ∙ held);
    }

    delete_namespace_key-Spares :
        k ≢ namespace_key (ns_name cn)
        → Moves Spares
            (attempt (W.delete (namespace_key (ns_name cn))) >>= λ deleted. unless_gone W deleted)
    delete_namespace_key-Spares other =
        Moves-bind Spares-IsPreorder _ _ (Moves-attempt _ (delete-Spares _ other))
          (λ deleted. unless_gone-Spares deleted)

    owned-Spares :
        (o : Object)
        → (k ≡ namespace_key (ns_name cn) → o ≡ x)
        → Moves Spares (delete_if_owned W cn (ns_name cn) (got o))
    unfolding delete_if_owned
    owned-Spares o h =
        Moves-if _ _ _
          (λ owned. delete_namespace_key-Spares (λ same. false-ne-true (
            sym (foreign.1 same)
            ∙ ap (λ (y : Object). index "ninekube.io/client" y.meta.labels == cn.name)
                (sym (h same))
            ∙ owned)))
          (λ _. Moves-pure Spares-IsPreorder tt)

    delete_if_owned-Spares :
        (r : Outcome Object) (t : W.State)
        → ((o : Object) → r ≡ ok o → k ≡ namespace_key (ns_name cn) → o ≡ x)
        → Spares t (continue (attempted r) (delete_if_owned W cn (ns_name cn)) t).1
    unfolding delete_if_owned pure
    delete_if_owned-Spares (ok o) t h held = (owned-Spares o (h o refl)).at t held
    delete_if_owned-Spares (err e) t h held = held
    delete_if_owned-Spares panic t h held = held

    delete_namespace-Spares : Moves Spares (delete_namespace W cn (ns_name cn))
    unfolding delete_namespace ◌>>=◌ attempt
    delete_namespace-Spares = record {
      at = λ s held.
          delete_if_owned-Spares (W.get (namespace_key (ns_name cn)) s).0 _
            (λ o e same. some_inj (sym (L.get_found _ s o e) ∙ ap (L.object s) (sym same) ∙ held))
            (L.get_same _ s k ∙ held);
    }

    remove_finalizer-Spares : Moves Spares (remove_finalizer W cn)
    remove_finalizer-Spares =
        unfold remove_finalizer in
        Moves-bind Spares-IsPreorder _ _ (Spares-same _ (λ s. L.update_same _ s k))
          (λ updated. Moves-pure Spares-IsPreorder tt)

    cleanup_client_resources-Spares : Moves Spares (cleanup_client_resources W cn (ns_name cn))
    cleanup_client_resources-Spares =
        let next = λ (m n : Exec W.State (Unit {0})) (p : Moves Spares m) (q : Moves Spares n).
          Moves-bind Spares-IsPreorder m (λ _. n) p (λ _. q) in
        unfold cleanup_client_resources in
        next _ _ (cleanup_kind-Spares _) (
          next _ _ (cleanup_kind-Spares _) (
            next _ _ (cleanup_kind-Spares _) (
              next _ _ (cleanup_kind-Spares _)
                (next _ _ (cleanup_kind-Spares _) (cleanup_kind-Spares _)))))

    -- The services' own `Cleanup` methods, of any order, that spare the object.
    pub reconcile_delete-Spares :
        (services : List (ServiceReconciler W))
        → Moves Spares (for_each (reverse services) (λ svc. svc.cleanup cn))
        → Moves Spares (reconcile_delete W services cn)
    reconcile_delete-Spares services h =
        unfold reconcile_delete in
        Moves-bind Spares-IsPreorder _ _ h (λ _.
          Moves-bind Spares-IsPreorder _ _ cleanup_client_resources-Spares (λ _.
            Moves-bind Spares-IsPreorder _ _ delete_namespace-Spares
              (λ _. remove_finalizer-Spares)))

    services-cleanup-Spares :
        (order : List OptionalService)
        → Moves Spares (for_each (reverse (services W order)) (λ svc. svc.cleanup cn))
    unfolding services for_each ◌>>=◌ pure Postgres.cleanup Redis.cleanup RustFs.cleanup
        Ninegate.cleanup Glauth.cleanup Dex.cleanup
    services-cleanup-Spares order = record { at = λ s held. held }

    fetched-Spares :
        (decimal : ℕ → String) (order : List OptionalService) (r : Outcome ClientNamespace)
        (t : W.State)
        → r ≡ ok cn
        → cn.deleted ≡ true
        → Spares t
            (continue (attempted r) (reconcile_fetched W decimal order (services W order)) t).1
    unfolding reconcile_fetched
    fetched-Spares decimal order r t e dying = rw e (
        (Moves-if cn.deleted _ _
            (λ _. reconcile_delete-Spares (services W order) (services-cleanup-Spares order))
            (λ live. absurd (false-ne-true (sym live ∙ dying)))).at
          t)

    -- A call of `Reconcile` with the operator's six services, for a ClientNamespace that is being
    -- deleted, leaves an object that does not belong to the client unchanged, however it ends: an
    -- object outside the client's namespace or without the client's labels, and, where it is the
    -- Namespace of the client's name, one whose label names another client.
    pub reconcile-Spares :
        (decimal : ℕ → String) (order : List OptionalService) (request : NamespacedName)
        (s : W.State)
        → (W.get_client_namespace request s).0 ≡ ok cn
        → cn.deleted ≡ true
        → L.object s k ≡ some x
        → L.object (reconcile W decimal order (services W order) request s).1 k ≡ some x
    unfolding reconcile attempt ◌>>=◌
    reconcile-Spares decimal order request s fetched dying held =
        fetched-Spares decimal order (W.get_client_namespace request s).0 _ fetched dying
          (L.get_client_namespace_same request s k ∙ held)
