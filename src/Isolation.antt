-- ===== src/Isolation.antt =====
-- Many clients on one cluster: calls of `Reconcile`
-- (operator/internal/controller/clientnamespace_controller.go) for the resources of others, one
-- after the other, and what stands in a client's own namespace.
use text.Mathlib.TextLemmas.{append_cancel_right, append-eq-nil_iff}
use ninekube.Prelude.{
  ℕ, String, ◌<>◌, ◌≡◌, ◌≢◌, refl, sym, ◌∙◌, ap, inl, inr, some, List, [], ◌∷◌, All, Bool-cases,
  ◌⊎◌, ◌==◌, false-ne-true,
}
use ninekube.Exec.{
  Outcome, ok, err, panic, attempt, attempted, continue, ◌>>=◌, is_not_found, raise, pure,
}
use ninekube.Api.{ClientNamespace, NamespacedName}
use ninekube.Kube.{Key, Object}
use ninekube.World.{World}
use ninekube.World.Lawful.{Lawful}
use ninekube.World.Grows.{IsOwn}
use ninekube.Catalog.{OptionalService}
use ninekube.Controller.Reconcile.{reconcile_fetched, reconcile}
use ninekube.Manager.{services}
use ninekube.Growth.Whole.{reconcile-Grows}
use ninekube.Exec.Moves.{Moves-if, Moves-pure, Moves-raise}
use ninekube.Outcomes.Deletion.{IsForeign, Spares, Spares-IsPreorder, reconcile-Spares}

-- The namespaces of two clients with different names are different.
ns_name_inj : (a b : String) → a <> "-ns" ≡ b <> "-ns" → a ≡ b
ns_name_inj a b e = append_cancel_right a b "-ns" e

-- The calls of a work queue, in its order.
unfoldable pub reconcile_all :
    (W : World) (decimal : ℕ → String) (order : List OptionalService)
    → List NamespacedName
    → W.State
    → W.State
reconcile_all W decimal order [] s = s
reconcile_all W decimal order (request ∷ requests) s =
    reconcile_all W decimal order requests
      (reconcile W decimal order (services W order) request s).1

-- A client's namespace has a name.
pub ns_name-ne-empty : (a : String) → a <> "-ns" ≡ "" → ⊥
ns_name-ne-empty a e =
    let gone : ◌≡◌ {A = String} "-ns" "" = (append-eq-nil_iff.0 e).1 in
    false-ne-true (sym (ap (λ t. t == "-ns") gone))

-- A key of one client is not another client's.
not-IsOwn :
    (mine theirs : String) (k : Key)
    → theirs ≢ mine
    → IsOwn (mine <> "-ns") k
    → ¬ IsOwn (theirs <> "-ns") k
not-IsOwn mine theirs k differ (inl e) (inl f) = differ (ns_name_inj theirs mine (sym f ∙ e))
not-IsOwn mine theirs k differ (inl e) (inr f) =
    ns_name-ne-empty mine (sym e ∙ ap (λ (j : Key). j.namespace) f)
not-IsOwn mine theirs k differ (inr e) (inl f) =
    ns_name-ne-empty theirs (sym f ∙ ap (λ (j : Key). j.namespace) e)
not-IsOwn mine theirs k differ (inr e) (inr f) =
    differ (ns_name_inj theirs mine (ap (λ (j : Key). j.name) (sym f ∙ e)))

own-IsForeign :
    (mine : String) (cn : ClientNamespace) (k : Key) (x : Object)
    → cn.name ≢ mine
    → IsOwn (mine <> "-ns") k
    → IsForeign cn k x
own-IsForeign mine cn k x differ own =
    let theirs = not-IsOwn mine cn.name k differ own in
    (inl (λ e. theirs (inl e)), λ e. absurd (theirs (inr e)))

-- What a read gave, or that it gave nothing.
Outcome-cases : {A : Type 0} (r : Outcome A) → ((a : A) × (r ≡ ok a)) ⊎ ((a : A) → r ≡ ok a → ⊥)
Outcome-cases (ok a) = inl (a, refl)
Outcome-cases (err e) = inr (λ a h. cc)
Outcome-cases panic = inr (λ a h. cc)

module _ {W : World} (L : Lawful W) (decimal : ℕ → String) (order : List OptionalService) where
  module _ (name : String) (k : Key) (x : Object) (own : IsOwn (name <> "-ns") k) where
    unread-Spares :
        (r : Outcome ClientNamespace) (t : W.State)
        → ((cn : ClientNamespace) → r ≡ ok cn → ⊥)
        → Spares L k x t
            (continue (attempted r) (reconcile_fetched W decimal order (services W order)) t).1
    unfolding reconcile_fetched pure
    unread-Spares (ok cn) t h = absurd (h cn refl)
    unread-Spares (err e) t h =
        (Moves-if (is_not_found e) (pure tt) (raise e)
            (λ _. Moves-pure (Spares-IsPreorder L k x) tt)
            (λ _. Moves-raise (Spares-IsPreorder L k x) e)).at
          t
    unread-Spares panic t h = λ held. held

    reconcile_fetched_other :
        (request : NamespacedName) (s : W.State) (cn : ClientNamespace)
        → request.name ≢ name
        → (W.get_client_namespace request s).0 ≡ ok cn
        → L.object s k ≡ some x
        → L.object (reconcile W decimal order (services W order) request s).1 k ≡ some x
    reconcile_fetched_other request s cn differ fetched held =
        let same =
          ap (λ (n : NamespacedName). n.name)
            (L.get_client_namespace_found request s cn fetched).1 in
        elim (Bool-cases cn.deleted) [
          | inl dying ↦
              reconcile-Spares L k x cn (own-IsForeign name cn k x (λ e. differ (sym same ∙ e)) own)
                decimal order request s fetched dying held
          | inr live ↦ (reconcile-Grows L decimal order request s cn fetched live).kept k x held
        ]

    -- One call for a resource of another name, whatever its state and however the call ends.
    reconcile_other :
        (request : NamespacedName) (s : W.State)
        → request.name ≢ name
        → L.object s k ≡ some x
        → L.object (reconcile W decimal order (services W order) request s).1 k ≡ some x
    unfolding reconcile attempt ◌>>=◌
    reconcile_other request s differ held =
        elim (Outcome-cases (W.get_client_namespace request s).0) [
          | inl (cn, fetched) ↦ reconcile_fetched_other request s cn differ fetched held
          | inr unread ↦
              unread-Spares (W.get_client_namespace request s).0 _ unread
                (L.get_client_namespace_same request s k ∙ held)
        ]

    -- Whatever calls of `Reconcile` run for resources of other names, in whichever order, and
    -- however each of them ends, an object of a client's namespace, or its Namespace, that was held
    -- before is held unchanged afterwards.
    pub reconcile_all-keeps :
        (requests : List NamespacedName) (s : W.State)
        → All (λ (request : NamespacedName). request.name ≢ name) requests
        → L.object s k ≡ some x
        → L.object (reconcile_all W decimal order requests s) k ≡ some x
    unfolding reconcile_all
    reconcile_all-keeps [] s others held = held
    reconcile_all-keeps (request ∷ requests) s (other, others) held =
        reconcile_all-keeps requests _ others (reconcile_other request s other held)
