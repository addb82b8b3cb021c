-- ===== src/Outcomes/Ready.antt =====
-- What a call of `Reconcile` that provisioned a client without an error has made sure of
-- (operator/internal/controller/clientnamespace_controller.go, ingress.go).
use ninekube.Prelude.{ℕ, String, ◌<>◌, ◌≡◌, refl, ◌∙◌, ap, some, List, [], ◌∷◌, All}
use ninekube.Exec.{ok, pure, ◌>>◌}
use ninekube.Exec.Moves.{Moves, Returns, Returns-bind, Returns-rest, Returns-first, IsStable}
use ninekube.Api.{ClientNamespace, ready, NamespacedName}
use ninekube.Kube.{secret_kind, network_policy_kind}
use ninekube.World.{World}
use ninekube.World.Lawful.{Lawful, name_of}
use ninekube.World.Grows.{Grows, namespace_key, Present}
use ninekube.World.Grows.Rules.{Grows-Permits, Grows-bind}
use ninekube.Catalog.{OptionalService, reconcile_optional_services}
use ninekube.Certs.{ensure_ca, ensure_service_certs}
use ninekube.Manager.{services}
use ninekube.Growth.Whole.{services-IsGrowing}
use ninekube.Ingress.{ensure_ingresses, ensure_network_policies}
use ninekube.Controller.Labels.{client_labels, ns_name}
use ninekube.Controller.Ensure.{key}
use ninekube.Controller.Status.{ready_status, or_failed, mark_ready}
use ninekube.Controller.Cleanup.{ServiceReconciler}
use ninekube.Controller.Reconcile.{
  with_namespace, with_admin_secret, provision_secrets, provision, reconcile,
}
use ninekube.Growth.Secrets.{ensure_admin_credentials-Moves, ensure_ninegate_secret-Moves}
use ninekube.Growth.Crypto.{ensure_ca-Moves, ensure_service_certs-Moves}
use ninekube.Growth.Provision.{
  IsGrowing, reconcile_services-SamePlace, or_failed-Grows, mark_ready-Grows,
  reconcile_optional_services-Grows, provision_secrets-Grows, services-finish-Grows,
}
use ninekube.Outcomes.Live.{IsOpen, SamePlan, reconcile-opened}
use ninekube.Outcomes.Present.{
  Returns-both, Returns-map, IsStable-both, Present-IsStable, or_failed-Returns,
}
use ninekube.Outcomes.Objects.{
  ensure_namespace-Present, ensure_root_secrets-Present, ensure_ninegate_secret-Present,
  ensure_ca-Present, ensure_network_policies-Present,
}

-- The Secrets that the other parts of a client read.
abbrev pub SecretsPresent : {W : World} → Lawful W → String → W.State → Type 0
SecretsPresent L ns s =
    All (λ name. Present L (key secret_kind ns name) s)
      ("postgres-secret" ∷ "rustfs-secret" ∷ "ninegate-secret" ∷ "ca" ∷ [])

abbrev pub PoliciesPresent : {W : World} → Lawful W → String → W.State → Type 0
PoliciesPresent L ns s =
    Present L (key network_policy_kind ns "ninekube-allow-all-egress") s
    × Present L (key network_policy_kind ns "ninekube-allow-all-ingress") s

-- What is stored of the resource: Ready, with the address of the client's domain.
abbrev pub StoredReady : {W : World} → Lawful W → ClientNamespace → W.State → Type 0
StoredReady L cn s =
    (new : ClientNamespace) × (L.stored s (name_of cn) ≡ some new)
    × (new.status.phase ≡ ready)
    × (new.status.endpoint ≡ "https://" <> cn.spec.domain)

SecretsPresent-IsStable :
    {W : World} (L : Lawful W) (ns : String) (labels : List (String × String))
    → IsStable (Grows L ns labels) (SecretsPresent L ns)
SecretsPresent-IsStable L ns labels =
    let one = λ (name : String). Present-IsStable L ns labels (key secret_kind ns name) in
    record {
      along = λ s t g h. (
        (one "postgres-secret").along s t g h.0,
        (
          (one "rustfs-secret").along s t g h.1.0,
          ((one "ninegate-secret").along s t g h.1.1.0, ((one "ca").along s t g h.1.1.1.0, tt)),
        ),
      );
    }

abbrev pub Provisioned : {W : World} → Lawful W → ClientNamespace → W.State → Type 0
Provisioned L cn s =
    Present L (namespace_key (ns_name cn)) s
    × (SecretsPresent L (ns_name cn) s × (PoliciesPresent L (ns_name cn) s × StoredReady L cn s))

module _ {W : World} (L : Lawful W) where
  StoredReady-same :
      (cn new : ClientNamespace) (s : W.State)
      → new.spec ≡ cn.spec
      → name_of new ≡ name_of cn
      → StoredReady L new s
      → StoredReady L cn s
  StoredReady-same cn new s spec name (c, held, phase, endpoint) =
      (c, rw (← name) held, phase, endpoint ∙ ap (λ sp. "https://" <> sp.domain) spec)

  Provisioned-same :
      (cn new : ClientNamespace) (s : W.State)
      → SamePlan cn new
      → Provisioned L new s
      → Provisioned L cn s
  Provisioned-same cn new s (spec, conditions, name, _, _) (n, (secrets, (policies, held))) =
      let same : ns_name new ≡ ns_name cn = ap (λ (m : NamespacedName). m.name <> "-ns") name in
      (
        rw (← same) n,
        (rw (← same) secrets, (rw (← same) policies, StoredReady-same cn new s spec name held)),
      )

module _ {W : World} (L : Lawful W) (decimal : ℕ → String) (order : List OptionalService) where
  update_status-StoredReady :
      (cn : ClientNamespace) (time : ℕ)
      → Returns
          (λ _. StoredReady L cn)
          (W.update_status (record cn { status = ready_status time cn.spec.domain cn.status }))
  unfolding ready_status
  update_status-StoredReady cn time = record {
    at = λ s new e.
        let law = L.update_status_ok _ s new e in
        (new, law.0, ap (λ status. status.phase) law.1, ap (λ status. status.endpoint) law.1);
  }

  mark_ready-StoredReady :
      (cn : ClientNamespace) → Returns (λ _. StoredReady L cn) (mark_ready W cn)
  mark_ready-StoredReady cn =
      unfold mark_ready in
      Returns-rest _ _ (λ time.
        Returns-bind _ _ (update_status-StoredReady cn time)
          (λ updated s done there _. unfold pure in there))

  module _ (cn : ClientNamespace) (ns : String) where
    certs-Grows : Moves (Grows L ns (client_labels cn)) (
        or_failed W cn "CertFailed" (ensure_service_certs W cn ns)
        >> or_failed W cn "OptionalServicesFailed" (reconcile_optional_services order cn))
    certs-Grows =
        Grows-bind L ns (client_labels cn) _ _
          (or_failed-Grows L ns (client_labels cn) cn _ _
            (ensure_service_certs-Moves cn ns (Grows-Permits L ns (client_labels cn))))
          (λ _.
            or_failed-Grows L ns (client_labels cn) cn _ _
              (reconcile_optional_services-Grows L ns (client_labels cn) order cn))

    pub ca-certs-Grows : Moves (Grows L ns (client_labels cn)) (
        or_failed W cn "CAFailed" (ensure_ca W cn ns)
        >> (or_failed W cn "CertFailed" (ensure_service_certs W cn ns)
            >> or_failed W cn "OptionalServicesFailed" (reconcile_optional_services order cn)))
    ca-certs-Grows =
        Grows-bind L ns (client_labels cn) _ _
          (or_failed-Grows L ns (client_labels cn) cn _ _
            (ensure_ca-Moves cn ns (Grows-Permits L ns (client_labels cn))))
          (λ _. certs-Grows)

    provision_secrets-SecretsPresent :
        Returns (λ _. SecretsPresent L ns) (provision_secrets W decimal order cn ns)
    provision_secrets-SecretsPresent =
        unfold provision_secrets in
        Returns-rest _ _ (λ pg. Returns-rest _ _ (λ rustfs.
          Returns-map _ (λ _ s h. (h.0.0, (h.0.1, (h.1.0, (h.1.1, tt)))))
            (Returns-both _
              (Returns-first (IsStable-both (stable "postgres-secret") (stable "rustfs-secret")) _ _
                (or_failed-Returns L decimal order cn _ _
                  (ensure_root_secrets-Present L cn ns pg rustfs))
                (λ _.
                  Grows-bind L ns (client_labels cn) _ _
                    (or_failed-Grows L ns (client_labels cn) cn _ _ (
                      ensure_ninegate_secret-Moves cn ns (Grows-Permits L ns (client_labels cn)) pg
                        rustfs))
                    (λ _. ca-certs-Grows)))
              (Returns-rest _ _ (λ _.
                Returns-both _
                  (Returns-first (stable "ninegate-secret") _ _
                    (or_failed-Returns L decimal order cn _ _
                      (ensure_ninegate_secret-Present L cn ns pg rustfs))
                    (λ _. ca-certs-Grows))
                  (Returns-rest _ _ (λ _.
                    Returns-first (stable "ca") _ _
                      (or_failed-Returns L decimal order cn _ _ (ensure_ca-Present L cn ns))
                      (λ _. certs-Grows))))))))
      where
        stable :
            (name : String)
            → IsStable (Grows L ns (client_labels cn)) (Present L (key secret_kind ns name))
        stable name = Present-IsStable L ns (client_labels cn) (key secret_kind ns name)

  finish-Returns :
      (cn : ClientNamespace) (ns : String)
      → Returns
          (λ _ s. PoliciesPresent L ns s × StoredReady L cn s)
          (or_failed W cn "IngressFailed" (ensure_ingresses W cn ns)
            >> (or_failed W cn "NetworkPolicyFailed" (ensure_network_policies W cn ns)
                >> mark_ready W cn))
  finish-Returns cn ns =
      let labels = client_labels cn in
      let stable =
        λ (name : String). Present-IsStable L ns labels (key network_policy_kind ns name) in
      Returns-rest _ _ (λ _.
        Returns-both _
          (Returns-first
            (IsStable-both (stable "ninekube-allow-all-egress")
              (stable "ninekube-allow-all-ingress"))
            _ _ (or_failed-Returns L decimal order cn _ _ (ensure_network_policies-Present L cn ns))
            (λ _. mark_ready-Grows L ns labels cn))
          (Returns-rest _ _ (λ _. mark_ready-StoredReady cn)))

  module _ (services : List (ServiceReconciler W)) (cn : ClientNamespace)
      (h : All (IsGrowing L) services) where
    provision-Namespace :
        Returns
          (λ _. Present L (namespace_key (ns_name cn)))
          (provision W decimal order services cn)
    unfolding client_labels
    provision-Namespace =
        let ns : String = ns_name cn in
        let placed = with_namespace cn ns in
        let named = with_admin_secret placed "admin-credentials" in
        unfold provision in
        Returns-first (Present-IsStable L ns (client_labels cn) _) _ _
          (or_failed-Returns L decimal order cn _ _ (ensure_namespace-Present L cn ns))
          (λ _.
            Grows-bind L ns (client_labels cn) _ _
              (or_failed-Grows L ns (client_labels cn) placed _ _ (
                ensure_admin_credentials-Moves placed ns
                  (Grows-Permits L ns (client_labels placed))))
              (λ _.
                Grows-bind L ns (client_labels cn) _ _
                  (provision_secrets-Grows L decimal order named ns)
                  (λ _. services-finish-Grows L decimal order services named ns refl h)))

    provision-SecretsPresent :
        Returns (λ _. SecretsPresent L (ns_name cn)) (provision W decimal order services cn)
    unfolding client_labels
    provision-SecretsPresent =
        let ns : String = ns_name cn in
        let named = with_admin_secret (with_namespace cn ns) "admin-credentials" in
        unfold provision in
        Returns-rest _ _ (λ _. Returns-rest _ _ (λ _.
          Returns-first (SecretsPresent-IsStable L ns (client_labels cn)) _ _
            (provision_secrets-SecretsPresent named ns)
            (λ _. services-finish-Grows L decimal order services named ns refl h)))

    provision-finished :
        Returns
          (λ _ s. PoliciesPresent L (ns_name cn) s × StoredReady L cn s)
          (provision W decimal order services cn)
    provision-finished =
        let ns : String = ns_name cn in
        let named = with_admin_secret (with_namespace cn ns) "admin-credentials" in
        unfold provision in
        Returns-rest _ _ (λ _. Returns-rest _ _ (λ _. Returns-rest _ _ (λ _.
          Returns-bind _ _ (reconcile_services-SamePlace L decimal order 0 services named)
            (λ marked s u same e.
              let done = (finish-Returns marked ns).at s u e in
              (done.0, StoredReady-same L named marked _ same.2 same.4 done.1)))))

    provision-Provisioned : Returns (λ _. Provisioned L cn) (provision W decimal order services cn)
    provision-Provisioned =
        Returns-both _ provision-Namespace
          (Returns-both _ provision-SecretsPresent provision-finished)

  -- Where a call of `Reconcile` with the operator's six services returns without an error for a
  -- ClientNamespace that is live and not Ready, with the finalizer or without it, the client's
  -- Namespace, its postgres, rustfs, ninegate and ca Secrets and its two network policies are held
  -- afterwards, and the resource is stored with the phase Ready and the endpoint of its domain.
  pub reconcile-Ready :
      (request : NamespacedName) (s : W.State) (cn : ClientNamespace)
      → (W.get_client_namespace request s).0 ≡ ok cn
      → IsOpen cn
      → (reconcile W decimal order (services W order) request s).0 ≡ ok tt
      → Provisioned L cn (reconcile W decimal order (services W order) request s).1
  reconcile-Ready request s cn fetched going done =
      reconcile-opened L decimal order (services W order) cn (Provisioned L cn) going
        (λ new same.
          Returns-map _ (λ _ t h. Provisioned-same L cn new t same h)
            (provision-Provisioned (services W order) new (services-IsGrowing L decimal order)))
        request s fetched done
