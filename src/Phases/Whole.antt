-- ===== src/Phases/Whole.antt =====
-- One call of `Reconcile` (operator/internal/controller/clientnamespace_controller.go) takes the
-- record of a live resource along the steps of the state machine.
use ninekube.Prelude.{
  ℕ, String, ◌≡◌, refl, sym, ◌∙◌, ap, inr, true, false, List, All, false-ne-true,
}
use mathlib.Core.Path.{subst⁻¹}
use ninekube.Exec.{Outcome, attempt, attempted, continue, ok, pure, ◌>>=◌, ◌>>◌}
use ninekube.Exec.Moves.{Moves, Returns, Returns-pure, Returns-if, Moves-if, Moves-bind-Returns}
use ninekube.Api.{ClientNamespace, ClientNamespacePhase, provisioning, ready, NamespacedName}
use ninekube.World.{World}
use ninekube.World.Lawful.{Lawful}
use ninekube.World.Permits.{IsClients}
use ninekube.World.Permits.Rules.{bind-Moves, pure-Moves, for_each-Moves}
use ninekube.World.Storing.{Storing}
use ninekube.Catalog.{OptionalService, reconcile_optional_services}
use ninekube.Controller.Cleanup.{finalizer_name, reconcile_delete}
use ninekube.Controller.Labels.{client_labels, ns_name, has_labels-client_labels}
use ninekube.Controller.Password.Moving.{get_or_create_password-Moves}
use ninekube.Controller.Status.{or_failed, mark_ready}
use ninekube.Controller.Reconcile.{
  is_new, is_ready, with_phase, with_namespace, with_admin_secret, namespace_object,
  ensure_namespace, provision_secrets, provision, start_provisioning, ensure_finalizer,
  reconcile_phase, reconcile_fetched, reconcile,
}
use ninekube.Growth.Secrets.{
  if_missing-Moves, ensure_admin_credentials-Moves, ensure_root_secrets-Moves,
  ensure_ninegate_secret-Moves,
}
use ninekube.Growth.Crypto.{ensure_ca-Moves, ensure_service_certs-Moves}
use ninekube.Growth.Network.{ensure_ingresses-Moves, ensure_network_policies-Moves}
use ninekube.Growth.Every.{services-Moves}
use ninekube.Ingress.{ensure_ingresses, ensure_network_policies}
use ninekube.Manager.{services}
use ninekube.Outcomes.Live.{ensure_finalizer-Returns}
use ninekube.Phases.{stage_of, begin, here, later, is_working}
use ninekube.Phases.Keeps.{
  Holds, Keeps, Keeps-IsPreorder, Keeps-Permits, Keeps-get_client_namespace, Keeps-update_status,
}
use ninekube.Phases.Run.{
  IsCopy, IsKeeping, or_failed-Keeps, mark_ready-Keeps, updated-IsCopy, reconcile_services-Keeps,
  reconcile_services-IsCopy,
}

old_working :
    (p : ClientNamespacePhase) → is_ready p ≡ false → is_new p ≡ false → is_working p ≡ true
old_working ClientNamespacePhase.unset r n = absurd (false-ne-true (sym n))
old_working ClientNamespacePhase.pending r n = absurd (false-ne-true (sym n))
old_working provisioning r n = refl
old_working ready r n = absurd (false-ne-true (sym r))
old_working ClientNamespacePhase.failed r n = refl

module _ {W : World} (L : Lawful W) (St : Storing L) (cn : ClientNamespace) (decimal : ℕ → String)
    (order : List OptionalService) where
  services-IsKeeping : All (IsKeeping L St cn decimal order) (services W order)
  services-IsKeeping =
      services-Moves (λ _. Keeps L cn)
        (λ copy. Keeps-Permits L cn St (IsClients copy.status.namespace (client_labels copy))) order

  provision_secrets-Keeps :
      (copy : ClientNamespace) (ns : String)
      → IsCopy cn copy
      → Moves (Keeps L cn) (provision_secrets W decimal order copy ns)
  provision_secrets-Keeps copy ns c =
      let P = Keeps-Permits L cn St (IsClients ns (client_labels copy)) in
      unfold provision_secrets reconcile_optional_services in
      bind-Moves P _ _ (get_or_create_password-Moves P _ _ _ _ _ _) (λ pg.
        bind-Moves P _ _ (get_or_create_password-Moves P _ _ _ _ _ _) (λ s3.
          bind-Moves P _ _
            (or_failed-Keeps L St cn copy _ _ c (ensure_root_secrets-Moves copy ns P pg s3))
            (λ _.
              bind-Moves P _ _
                (or_failed-Keeps L St cn copy _ _ c (ensure_ninegate_secret-Moves copy ns P pg s3))
                (λ _.
                  bind-Moves P _ _ (or_failed-Keeps L St cn copy _ _ c (ensure_ca-Moves copy ns P))
                    (λ _.
                      bind-Moves P _ _
                        (or_failed-Keeps L St cn copy _ _ c (ensure_service_certs-Moves copy ns P))
                        (λ _.
                          or_failed-Keeps L St cn copy _ _ c
                            (for_each-Moves P order _ (λ _. pure-Moves P tt))))))))

  finish-Keeps :
      (copy : ClientNamespace) (ns : String)
      → IsCopy cn copy
      → Moves (Keeps L cn) (
          or_failed W copy "IngressFailed" (ensure_ingresses W copy ns)
          >> (or_failed W copy "NetworkPolicyFailed" (ensure_network_policies W copy ns)
              >> mark_ready W copy))
  finish-Keeps copy ns c =
      let P = Keeps-Permits L cn St (IsClients ns (client_labels copy)) in
      bind-Moves P _ _ (or_failed-Keeps L St cn copy _ _ c (ensure_ingresses-Moves copy ns P)) (λ _.
        bind-Moves P _ _
          (or_failed-Keeps L St cn copy _ _ c (ensure_network_policies-Moves copy ns P))
          (λ _. mark_ready-Keeps L St cn copy c))

  provision-Keeps :
      (copy : ClientNamespace)
      → IsCopy cn copy
      → Moves (Keeps L cn) (provision W decimal order (services W order) copy)
  provision-Keeps copy c =
      let ns : String = ns_name copy in
      let placed = with_namespace copy ns in
      let named = with_admin_secret placed "admin-credentials" in
      let P = Keeps-Permits L cn St (IsClients ns (client_labels copy)) in
      unfold provision ensure_namespace in
      bind-Moves P _ _
        (or_failed-Keeps L St cn copy _ _ c (
          if_missing-Moves P _ _ (
            P.create (namespace_object copy ns)
              (inr refl, unfold namespace_object in has_labels-client_labels copy))))
        (λ _.
          bind-Moves P _ _
            (or_failed-Keeps L St cn placed _ _ c (
              ensure_admin_credentials-Moves placed ns
                (Keeps-Permits L cn St (IsClients ns (client_labels placed)))))
            (λ _. bind-Moves P _ _ (provision_secrets-Keeps named ns c) (λ _.
              Moves-bind-Returns (Keeps-IsPreorder L cn) _ _
                (reconcile_services-Keeps L St cn decimal order 0 _ named services-IsKeeping c)
                (reconcile_services-IsCopy L St cn decimal order 0 _ named c)
                (λ marked again. finish-Keeps marked ns again))))

  start_provisioning-Keeps : Moves (Keeps L cn) (start_provisioning W cn)
  start_provisioning-Keeps =
      unfold start_provisioning in
      Moves-if (is_new cn.status.phase) (W.update_status (with_phase cn provisioning)) (pure cn)
        (λ new.
          Keeps-update_status L cn St _ (refl, refl, refl, refl)
            (λ _. later here (begin (stage_of cn.status) new)))
        (λ _. pure-Moves (Keeps-Permits L cn St (λ _. Unit)) cn)

  start_provisioning-IsCopy :
      is_ready cn.status.phase ≡ false → Returns (λ new _. IsCopy cn new) (start_provisioning W cn)
  start_provisioning-IsCopy unready =
      unfold start_provisioning in
      Returns-if (is_new cn.status.phase) (W.update_status (with_phase cn provisioning)) (pure cn)
        (λ new. record {
          at = λ s updated e.
              updated-IsCopy L St cn (with_phase cn provisioning) s updated
                ((refl, refl, refl, refl), refl, later here (begin (stage_of cn.status) new)) e;
        })
        (λ old.
          Returns-pure {P = IsCopy cn} cn
            ((refl, refl, refl, refl), old_working cn.status.phase unready old, here))

  reconcile_phase-Keeps : Moves (Keeps L cn) (reconcile_phase W decimal order (services W order) cn)
  reconcile_phase-Keeps =
      unfold reconcile_phase in
      Moves-if (is_ready cn.status.phase) (pure tt)
        (start_provisioning W cn >>= λ started.
          provision W decimal order (services W order) started)
        (λ _. pure-Moves (Keeps-Permits L cn St (λ _. Unit)) tt)
        (λ unready.
          Moves-bind-Returns (Keeps-IsPreorder L cn) _ _ start_provisioning-Keeps
            (start_provisioning-IsCopy unready) (λ started c. provision-Keeps started c))

  ensure_finalizer-Keeps :
      W.contains_finalizer cn finalizer_name ≡ true → Moves (Keeps L cn) (ensure_finalizer W cn)
  ensure_finalizer-Keeps finalized =
      unfold ensure_finalizer in
      Moves-if (W.contains_finalizer cn finalizer_name) (pure cn)
        (W.update (W.add_finalizer cn finalizer_name))
        (λ _. pure-Moves (Keeps-Permits L cn St (λ _. Unit)) cn)
        (λ missing. absurd (false-ne-true (sym missing ∙ finalized)))

  live-Keeps :
      W.contains_finalizer cn finalizer_name ≡ true
      → Moves (Keeps L cn) (
          ensure_finalizer W cn >>= λ finalized.
          reconcile_phase W decimal order (services W order) finalized)
  live-Keeps finalized =
      Moves-bind-Returns (Keeps-IsPreorder L cn) _ _ (ensure_finalizer-Keeps finalized)
        (ensure_finalizer-Returns L decimal order cn finalized)
        (λ same e.
          subst⁻¹ (λ c. Moves (Keeps L cn) (reconcile_phase W decimal order (services W order) c)) e
            reconcile_phase-Keeps)

  fetched-Keeps :
      (r : Outcome ClientNamespace) (t : W.State)
      → r ≡ ok cn
      → cn.deleted ≡ false
      → W.contains_finalizer cn finalizer_name ≡ true
      → Keeps L cn t
          (continue (attempted r) (reconcile_fetched W decimal order (services W order)) t).1
  unfolding reconcile_fetched
  fetched-Keeps r t e live finalized = rw e (
      (Moves-if cn.deleted (reconcile_delete W (services W order) cn)
          (ensure_finalizer W cn >>= reconcile_phase W decimal order (services W order))
          (λ deleted. absurd (false-ne-true (sym live ∙ deleted))) (λ _. live-Keeps finalized)).at
        t)

  -- One call of `Reconcile` with the operator's six services for a live resource that has the
  -- finalizer, whether it ends well, in an error or in a panic, takes the API server's record of it
  -- along steps of the state machine, and changes no more of it than the status: not its spec, its
  -- finalizers or the mark of a deletion.
  pub reconcile-Reaches :
      (request : NamespacedName) (s : W.State)
      → (W.get_client_namespace request s).0 ≡ ok cn
      → cn.deleted ≡ false
      → W.contains_finalizer cn finalizer_name ≡ true
      → Holds L cn (reconcile W decimal order (services W order) request s).1
  unfolding reconcile attempt ◌>>=◌
  reconcile-Reaches request s fetched live finalized =
      let (stored, named) = L.get_client_namespace_found request s cn fetched in
      fetched-Keeps (W.get_client_namespace request s).0 _ fetched live finalized (
        (Keeps-get_client_namespace L cn St request).at s
          (cn, ap (L.stored s) named ∙ stored, (refl, refl, refl, refl), here))
