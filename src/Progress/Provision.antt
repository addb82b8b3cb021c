-- ===== src/Progress/Provision.antt =====
-- `provision` of `Reconcile` (operator/internal/controller/clientnamespace_controller.go) with the
-- services of cmd/main.go, on a good day.
use ninekube.Prelude.Lists.{All-map, All-both}
use ninekube.Prelude.{inr, All, sym}
use ninekube.Exec.{Exec}
use ninekube.Exec.Moves.{Moves}
use ninekube.Exec.Succeeds.{Succeeds-before}
use ninekube.World.Permits.{Permits, IsClients}
use ninekube.Controller.Labels.{has_labels-client_labels}
use ninekube.Growth.Secrets.{
  if_missing-Moves, ensure_admin_credentials-Moves, ensure_root_secrets-Moves,
  ensure_ninegate_secret-Moves,
}
use ninekube.Growth.Crypto.{ensure_service_certs-Moves}
use ninekube.Growth.Network.{ensure_ingresses-Moves, ensure_network_policies-Moves}
use ninekube.Progress.Steps.{SameCopy, IsEnding}
use ninekube.Controller.Password.Moving.{get_or_create_password-Moves}
use ninekube.Growth.Every.{services-Moves}
use ninekube.Progress.Current.{
  Leaves, Leaves-Permits, AtVersion, Stored, Succeeds-AtVersion, Succeeds-Stored,
}
use ninekube.Prelude.{
  ℕ, String, ◌<>◌, ◌==◌, eq_iff, ◌≡◌, refl, ◌∙◌, ap, false, Bool-cases, inl, inr, some, List,
}
use ninekube.Exec.{◌>>◌}
use ninekube.Exec.Succeeds.{Ends, Succeeds-pure, Succeeds-bind, Succeeds-for_each}
use ninekube.Api.{ClientNamespace, ServicesSpec}
use ninekube.Kube.{Object, secret_kind}
use ninekube.World.{World}
use ninekube.World.Grows.Rules.{Grows-Permits}
use ninekube.World.Lawful.{Lawful}
use ninekube.World.Healthy.{Healthy}
use ninekube.Catalog.{OptionalService, reconcile_optional_services}
use ninekube.Certs.{ensure_ca}
use ninekube.Controller.Labels.{client_labels, ns_name}
use ninekube.Controller.Ensure.{key}
use ninekube.Controller.Secrets.{ensure_root_secrets}
use ninekube.Controller.Status.{or_failed, mark_ready}
use ninekube.Ingress.{ensure_ingresses, ensure_network_policies}
use ninekube.Progress.Manager.{services-IsEnding}
use ninekube.Controller.Reconcile.{
  namespace_object, ensure_namespace, with_namespace, with_admin_secret, provision_secrets,
  provision,
}
use ninekube.Manager.{services}
use ninekube.Isolation.{ns_name-ne-empty}
use ninekube.Growth.Crypto.{ensure_ca-Moves}
use ninekube.Outcomes.Objects.{ensure_root_secrets-Present, ensure_ca-Present}
use ninekube.Outcomes.Present.{Returns-map}
use ninekube.Progress.Room.{IsRoomy, ca_key}
use ninekube.Progress.Fit.{
  IsAuthority, Fit, Fit-IsRoomy, With, With-IsRoomy, Ends-With, Ends-made, Anything,
  Anything-IsRoomy,
}
use ninekube.Progress.Secrets.{
  get_or_create_password-Ends, ensure_admin_credentials-Ends, ensure_root_secrets-Ends,
  ensure_ninegate_secret-Ends,
}
use ninekube.Progress.Services.{ensure_plain-Ends}
use ninekube.Progress.Certs.{ensure_ca-Ends, ensure_service_certs-Ends}
use ninekube.Progress.Network.{ensure_ingresses-Ends, ensure_network_policies-Ends}
use ninekube.Progress.Steps.{
  IsUnready, or_failed-Succeeds, mark_ready-Ends, reconcile_services-Succeeds,
}

ns_name-named : (name : String) → (name <> "-ns" == "") ≡ false
ns_name-named name = elim (Bool-cases (name <> "-ns" == "")) [
  | inl empty ↦ absurd (ns_name-ne-empty name ((eq_iff (name <> "-ns") "").0 empty))
  | inr named ↦ named
]

module _ {W : World} {L : Lawful W} (H : Healthy L) (decimal : ℕ → String)
    (order : List OptionalService) where
  module _ (cn : ClientNamespace) (ns : String) where
    ensure_namespace-Ends : Ends (Fit L ns) (Fit L ns) (ensure_namespace W cn ns)
    unfolding ensure_namespace namespace_object
    ensure_namespace-Ends = ensure_plain-Ends H (Fit-IsRoomy L ns) cn _ (λ e. cc) (λ e. cc)

    -- With the root passwords' Secret, and then the CA's.
    abbrev HasRoot : W.State → Type 0
    HasRoot = With L (Fit L ns) (key secret_kind ns "postgres-secret")

    abbrev HasCa : W.State → Type 0
    HasCa = With L HasRoot (ca_key ns)

    HasRoot-IsRoomy : IsRoomy L ns HasRoot
    HasRoot-IsRoomy = With-IsRoomy L ns (Fit L ns) _ (Fit-IsRoomy L ns)

    HasCa-IsRoomy : IsRoomy L ns HasCa
    HasCa-IsRoomy = With-IsRoomy L ns HasRoot _ HasRoot-IsRoomy

    root_secrets-Ends : (p q : String) → Ends (Fit L ns) HasRoot (ensure_root_secrets W cn ns p q)
    root_secrets-Ends p q =
        Ends-made L _ _ (Returns-map _ (λ _ s h. h.0) (ensure_root_secrets-Present L cn ns p q))
          (ensure_root_secrets-Ends H (Fit-IsRoomy L ns) cn p q)

    ca-Ends : Ends HasRoot HasCa (ensure_ca W cn ns)
    ca-Ends = Ends-made L _ _ (ensure_ca-Present L cn ns) (
        Ends-With L ns (client_labels cn) _ _
          (ensure_ca-Moves cn ns (Grows-Permits L ns (client_labels cn))) (ensure_ca-Ends H cn ns))

    held-IsAuthority :
        (s : W.State) → HasCa s → (x : Object) × (L.object s (ca_key ns) ≡ some x) × IsAuthority L x
    held-IsAuthority s ((fit, root), (x, held)) = (x, held, fit.ca x held)

    -- A step that leaves the resource's record alone, while a copy of its version is at hand.
    checked-Ends :
        {I J : W.State → Type 0} (of : ClientNamespace) (reason : String)
        (step : Exec W.State (Unit {0}))
        → Moves (Leaves L) step
        → Ends I J step
        → Ends (AtVersion L I of) (AtVersion L J of) (or_failed W cn reason step)
    checked-Ends of reason step moves ends =
        or_failed-Succeeds W cn reason step (Succeeds-AtVersion L of step moves ends)

    leaving : Permits W (Leaves L) (IsClients ns (client_labels cn))
    leaving = Leaves-Permits L H.storing (IsClients ns (client_labels cn))

    provision_secrets-Ends :
        (sv : ServicesSpec)
        → cn.spec.services ≡ some sv
        → Ends
            (AtVersion L (Fit L ns) cn)
            (AtVersion L HasCa cn)
            (provision_secrets W decimal order cn ns)
    provision_secrets-Ends sv spec =
        let fit = (Fit-IsRoomy L ns).objectwise in
        unfold provision_secrets in
        Succeeds-bind _ _
          (Succeeds-AtVersion L cn _ (get_or_create_password-Moves leaving _ _ _ _ _ _)
            (get_or_create_password-Ends H fit _ _ _ _ _ _))
          (λ pg _.
            Succeeds-bind _ _
              (Succeeds-AtVersion L cn _ (get_or_create_password-Moves leaving _ _ _ _ _ _)
                (get_or_create_password-Ends H fit _ _ _ _ _ _))
              (λ s3 _.
                Succeeds-bind _ _
                  (checked-Ends cn _ _ (ensure_root_secrets-Moves cn ns leaving pg s3)
                    (root_secrets-Ends pg s3))
                  (λ _ _.
                    Succeeds-bind _ _
                      (checked-Ends cn _ _ (ensure_ninegate_secret-Moves cn ns leaving pg s3)
                        (ensure_ninegate_secret-Ends H HasRoot-IsRoomy cn pg s3))
                      (λ _ _.
                        Succeeds-bind _ _
                          (checked-Ends cn _ _ (ensure_ca-Moves cn ns leaving) ca-Ends)
                          (λ _ _.
                            Succeeds-bind _ _
                              (checked-Ends cn _ _ (ensure_service_certs-Moves cn ns leaving) (
                                ensure_service_certs-Ends H HasCa-IsRoomy cn held-IsAuthority sv
                                  spec))
                              (λ _ _. or_failed-Succeeds W cn _ _ (
                                unfold reconcile_optional_services in
                                Succeeds-for_each _ _ (λ _. Succeeds-pure tt tt))))))))

    finish-Ends :
        (sv : ServicesSpec)
        → cn.spec.services ≡ some sv
        → IsUnready cn.status.conditions
        → Ends (AtVersion L HasCa cn) Anything (
            or_failed W cn "IngressFailed" (ensure_ingresses W cn ns)
            >> (or_failed W cn "NetworkPolicyFailed" (ensure_network_policies W cn ns)
                >> mark_ready W cn))
    finish-Ends sv spec unready =
        let anything = Anything-IsRoomy L ns in
        Succeeds-bind _ _
          (checked-Ends cn _ _ (ensure_ingresses-Moves cn ns leaving)
            (ensure_ingresses-Ends H HasCa-IsRoomy cn (λ s h. h.0.0.route) sv spec))
          (λ _ _.
            Succeeds-bind _ _
              (checked-Ends cn _ _ (ensure_network_policies-Moves cn ns leaving)
                (ensure_network_policies-Ends H anything cn))
              (λ _ _. mark_ready-Ends H anything.objectwise cn unready))

  -- The six services, while a copy of the resource's version is at hand.
  services-IsEnding_at :
      (cn : ClientNamespace) (ns : String)
      → (ns == "") ≡ false
      → All (IsEnding (AtVersion L (HasCa cn ns) cn) ns) (services W order)
  services-IsEnding_at cn ns named =
      All-map (services W order)
        (λ svc (ends, moves) copy here.
          Succeeds-AtVersion L cn (svc.reconcile copy) (moves copy) (ends copy here))
        (All-both _ _ _ (services-IsEnding H order named (HasCa-IsRoomy cn ns) (λ s h. h.0.1)) (
          services-Moves (λ _. Leaves L)
            (λ copy.
              Leaves-Permits L H.storing (IsClients copy.status.namespace (client_labels copy)))
            order))

  -- The copy that the services leave behind is of the same version.
  AtVersion-copy :
      (cn copy : ClientNamespace) (ns : String) (s : W.State)
      → SameCopy cn copy
      → AtVersion L (HasCa cn ns) cn s
      → AtVersion L (HasCa copy ns) copy s
  AtVersion-copy cn copy ns s (place, version) (i, (old, stored, at)) =
      (i, (old, ap (L.stored s) place.4 ∙ stored, at ∙ sym version))

  pub provision-Ends :
      (cn : ClientNamespace) (sv : ServicesSpec)
      → cn.spec.services ≡ some sv
      → IsUnready cn.status.conditions
      → Ends
          (Stored L (Fit L (ns_name cn)) cn)
          Anything
          (provision W decimal order (services W order) cn)
  provision-Ends cn sv spec unready =
      let ns : String = ns_name cn in
      let placed = with_namespace cn ns in
      let named = with_admin_secret placed "admin-credentials" in
      unfold provision ensure_namespace in
      Succeeds-Stored L cn _ (
        Succeeds-bind _ _
          (checked-Ends cn ns cn _ _
            (if_missing-Moves (leaving cn ns) _ _ (
              (leaving cn ns).create (namespace_object cn ns)
                (inr refl, unfold namespace_object in has_labels-client_labels cn)))
            (unfold ensure_namespace in ensure_namespace-Ends cn ns))
          (λ _ _.
            Succeeds-bind _ _
              (checked-Ends placed ns cn _ _
                (ensure_admin_credentials-Moves placed ns (leaving placed ns))
                (ensure_admin_credentials-Ends H (Fit-IsRoomy L ns) placed))
              (λ _ _. Succeeds-bind _ _ (provision_secrets-Ends named ns sv spec) (λ _ _.
                Succeeds-bind _ _
                  (reconcile_services-Succeeds W decimal order ns 0 (services W order) named refl
                    (services-IsEnding_at named ns (ns_name-named cn.name)))
                  (λ marked same.
                    Succeeds-before _ (λ s i. AtVersion-copy named marked ns s same i)
                      (finish-Ends marked ns sv (ap (λ sp. sp.services) same.0.2 ∙ spec)
                        (rw same.0.3 unready)))))))
