-- ===== src/Outcomes/Cleared.antt =====
-- The listings of a deletion: `cleanupClientResources` of
-- operator/internal/controller/clientnamespace_controller.go.
use mathlib.Core.Path.{subst}
use ninekube.Prelude.{◌≡◌, refl, sym, ◌∙◌, ◌⊎◌, inl, inr, true, some, none, List, [], ◌∷◌}
use ninekube.Exec.{Exec, Outcome, ok, pure, attempt, attempted, continue, ◌>>=◌, ◌>>◌, for_each}
use ninekube.Exec.Succeeds.{Ends, Succeeds-bind, Succeeds-for_each}
use ninekube.Api.{ClientNamespace}
use ninekube.Kube.{Kind, Key, Key-discrete, Object, key_of, kind_of, has_labels}
use ninekube.World.{World}
use ninekube.World.Lawful.{Lawful}
use ninekube.World.Clearing.{
  IsSwept, of_secret, of_config_map, of_deployment, of_stateful_set, of_service, AmongKeys,
  Clearing,
}
use ninekube.Controller.Labels.{client_labels, ns_name}
use ninekube.Controller.Cleanup.{
  delete_ignoring, delete_listed, cleanup_kind, cleanup_client_resources,
}

-- Nothing has the object's key any more.
abbrev pub IsGone : {W : World} → Lawful W → Object → W.State → Type 0
IsGone L x s = L.object s (key_of x) ≡ none

-- It is as it was, or gone.
abbrev pub IsLeft : {W : World} → Lawful W → Object → W.State → Type 0
IsLeft L x s = (L.object s (key_of x) ≡ some x) ⊎ IsGone L x s

module _ {W : World} {L : Lawful W} (C : Clearing L) (x : Object)
    (swept : IsSwept (kind_of x.body)) where
  delete-IsGone : (j : Key) (s : W.State) → IsGone L x s → IsGone L x (W.delete j s).1
  delete-IsGone j s gone = elim (Key-discrete (key_of x) j) [
    | yes same ↦
        subst (λ i. L.object (W.delete i s).1 (key_of x) ≡ none) same
          (C.delete_done (key_of x) s swept)
    | no differ ↦ L.delete_other j s (key_of x) differ ∙ gone
  ]

  delete-IsLeft : (j : Key) (s : W.State) → IsLeft L x s → IsLeft L x (W.delete j s).1
  delete-IsLeft j s (inr gone) = inr (delete-IsGone j s gone)
  delete-IsLeft j s (inl held) = elim (Key-discrete (key_of x) j) [
    | yes same ↦ inr (
        subst (λ i. L.object (W.delete i s).1 (key_of x) ≡ none) same
          (C.delete_done (key_of x) s swept))
    | no differ ↦ inl (L.delete_other j s (key_of x) differ ∙ held)
  ]

  module _ {I J : W.State → Type 0} where
    delete_ignoring-Ends :
        (o : Object)
        → ((s : W.State) → I s → J (W.delete (key_of o) s).1)
        → Ends I J (delete_ignoring W o)
    unfolding delete_ignoring ◌>>=◌ attempt pure
    delete_ignoring-Ends o f = record {
      at = λ s i.
          let (r, answered) = C.delete_answered (key_of o) s in rw answered (tt, refl, tt, f s i);
    }

    listed-Ends :
        (r : Outcome (List Object)) (os : List Object) (t : W.State)
        → r ≡ ok os
        → Ends I J (for_each os (delete_ignoring W))
        → I t
        → (u : Unit {0}) × ((continue (attempted r) (delete_listed W) t).0 ≡ ok u)
          × Unit {0}
          × J (continue (attempted r) (delete_listed W) t).1
    unfolding delete_listed
    listed-Ends r os t e ends i = rw e (ends.at t i)

  module _ (I : W.State → Type 0) (keep : (j : Key) (s : W.State) → I s → I (W.delete j s).1) where
    each-Ends : (os : List Object) → Ends I I (for_each os (delete_ignoring W))
    each-Ends os =
        Succeeds-for_each os (delete_ignoring W)
          (λ o. delete_ignoring-Ends o (λ s i. keep (key_of o) s i))

  each_hit :
      (os : List Object)
      → AmongKeys (key_of x) os
      → Ends (IsLeft L x) (IsGone L x) (for_each os (delete_ignoring W))
  unfolding for_each
  each_hit [] among = absurd among
  each_hit (o ∷ os) (inl here) =
      Succeeds-bind _ _
        (delete_ignoring-Ends o (λ s left.
          subst (λ j. L.object (W.delete j s).1 (key_of x) ≡ none) (sym here)
            (C.delete_done (key_of x) s swept)))
        (λ _ _. each-Ends (IsGone L x) delete-IsGone os)
  each_hit (o ∷ os) (inr later) =
      Succeeds-bind _ _ (delete_ignoring-Ends o (λ s left. delete-IsLeft (key_of o) s left))
        (λ _ _. each_hit os later)

  module _ (cn : ClientNamespace) where
    kind-IsGone :
        (kind : Kind) → Ends (IsGone L x) (IsGone L x) (cleanup_kind W cn (ns_name cn) kind)
    unfolding cleanup_kind ◌>>=◌ attempt
    kind-IsGone kind = record {
      at = λ s gone.
          let (os, answered, _) = C.list_done kind (ns_name cn) (client_labels cn) s in
          listed-Ends (W.list kind (ns_name cn) (client_labels cn) s).0 os _ answered
            (each-Ends (IsGone L x) delete-IsGone os) (L.list_same kind _ _ s (key_of x) ∙ gone);
    }

    kind-IsLeft :
        (kind : Kind) → Ends (IsLeft L x) (IsLeft L x) (cleanup_kind W cn (ns_name cn) kind)
    unfolding cleanup_kind ◌>>=◌ attempt
    kind-IsLeft kind = record {
      at = λ s left.
          let (os, answered, _) = C.list_done kind (ns_name cn) (client_labels cn) s in
          listed-Ends (W.list kind (ns_name cn) (client_labels cn) s).0 os _ answered
            (each-Ends (IsLeft L x) delete-IsLeft os) (after_list kind s left);
    }
      where
        after_list :
            (kind : Kind) (s : W.State)
            → IsLeft L x s
            → IsLeft L x (W.list kind (ns_name cn) (client_labels cn) s).1
        after_list kind s (inl held) = inl (L.list_same kind _ _ s (key_of x) ∙ held)
        after_list kind s (inr gone) = inr (L.list_same kind _ _ s (key_of x) ∙ gone)

    module _ (here : x.meta.namespace ≡ ns_name cn)
        (labelled : has_labels x.meta.labels (client_labels cn) ≡ true) where
      pub kind_hit :
          Ends (IsLeft L x) (IsGone L x) (cleanup_kind W cn (ns_name cn) (kind_of x.body))
      unfolding cleanup_kind ◌>>=◌ attempt
      kind_hit = record {
        at = λ s left. elim left [
          | inr gone ↦ (kind-IsGone (kind_of x.body)).at s gone
          | inl held ↦
              let (os, answered, complete) =
                C.list_done (kind_of x.body) (ns_name cn) (client_labels cn) s in
              listed-Ends (W.list (kind_of x.body) (ns_name cn) (client_labels cn) s).0 os _
                answered (each_hit os (complete x held refl here labelled))
                (inl (L.list_same (kind_of x.body) _ _ s (key_of x) ∙ held))
        ];
      }

    module _ {n : Exec W.State (Unit {0})} where
      then_gone :
          (kind : Kind)
          → Ends (IsLeft L x) (IsGone L x) (cleanup_kind W cn (ns_name cn) kind)
          → Ends (IsGone L x) (IsGone L x) n
          → Ends (IsLeft L x) (IsGone L x) (cleanup_kind W cn (ns_name cn) kind >> n)
      then_gone kind hit rest = Succeeds-bind _ _ hit (λ _ _. rest)

      then_gone_on :
          (kind : Kind)
          → Ends (IsGone L x) (IsGone L x) n
          → Ends (IsGone L x) (IsGone L x) (cleanup_kind W cn (ns_name cn) kind >> n)
      then_gone_on kind rest = Succeeds-bind _ _ (kind-IsGone _) (λ _ _. rest)

      before :
          (kind : Kind)
          → Ends (IsLeft L x) (IsGone L x) n
          → Ends (IsLeft L x) (IsGone L x) (cleanup_kind W cn (ns_name cn) kind >> n)
      before kind rest = Succeeds-bind _ _ (kind-IsLeft _) (λ _ _. rest)

    -- The six listings, of which one is that of the object's kind.
    pub cleanup_hit :
        (kind : Kind)
        → IsSwept kind
        → Ends (IsLeft L x) (IsGone L x) (cleanup_kind W cn (ns_name cn) kind)
        → Ends (IsLeft L x) (IsGone L x) (cleanup_client_resources W cn (ns_name cn))
    unfolding cleanup_client_resources
    cleanup_hit kind of_secret hit =
        then_gone _ hit
          (then_gone_on _ (then_gone_on _ (then_gone_on _ (then_gone_on _ (kind-IsGone _)))))
    cleanup_hit kind of_config_map hit =
        before _
          (then_gone _ hit (then_gone_on _ (then_gone_on _ (then_gone_on _ (kind-IsGone _)))))
    cleanup_hit kind of_deployment hit =
        before _ (before _ (then_gone _ hit (then_gone_on _ (then_gone_on _ (kind-IsGone _)))))
    cleanup_hit kind of_stateful_set hit =
        before _ (before _ (before _ (then_gone _ hit (then_gone_on _ (kind-IsGone _)))))
    cleanup_hit kind of_service hit =
        before _ (before _ (before _ (before _ (then_gone _ hit (kind-IsGone _)))))
