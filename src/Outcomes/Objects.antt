-- ===== src/Outcomes/Objects.antt =====
-- The objects that the steps of provisioning make sure of (`ensureNamespace`, `ensureRootSecrets`,
-- `ensureNinegateSecret`, `ensureCA` and `ensureNetworkPolicies`).
use ninekube.Prelude.{String, ◌<>◌, List}
use ninekube.Exec.Moves.{Returns, Returns-rest, Returns-first}
use ninekube.Api.{ClientNamespace}
use ninekube.Kube.Network.{PolicyType, egress_policy, ingress_policy}
use ninekube.Kube.{secret_kind, network_policy_kind}
use ninekube.World.{World}
use ninekube.World.Lawful.{Lawful}
use ninekube.World.Grows.Rules.{Grows-Permits}
use ninekube.World.Grows.{namespace_key, Present}
use ninekube.Certs.{ensure_ca, create_ca}
use ninekube.Ingress.{ensure_network_policies, ensure_network_policy_allow_all, allow_all_policy}
use ninekube.Controller.Labels.{client_labels}
use ninekube.Controller.Ensure.{key}
use ninekube.Controller.Secrets.{
  ensure_service_secret, ensure_root_secrets, create_ninegate_secret, ensure_ninegate_secret,
}
use ninekube.Controller.Reconcile.{ensure_namespace}
use ninekube.Growth.Secrets.{ensure_service_secret-Moves}
use ninekube.Growth.Network.{ensure_network_policy_allow_all-Moves}
use ninekube.Outcomes.Present.{Returns-both, Present-IsStable, create-Present, if_missing-Present}

module _ {W : World} (L : Lawful W) (cn : ClientNamespace) (ns : String) where
  pub ensure_namespace-Present :
      Returns (λ _. Present L (namespace_key ns)) (ensure_namespace W cn ns)
  ensure_namespace-Present =
      unfold ensure_namespace in if_missing-Present L _ _ (create-Present L _)

  pub ensure_service_secret-Present :
      (name : String) (values : List (String × String))
      → Returns
          (λ _. Present L (key secret_kind ns name))
          (ensure_service_secret W cn ns name values)
  ensure_service_secret-Present name values =
      unfold ensure_service_secret in if_missing-Present L _ _ (create-Present L _)

  pub ensure_root_secrets-Present :
      (pg rustfs : String)
      → Returns
          (λ _ s.
            Present L (key secret_kind ns "postgres-secret") s
            × Present L (key secret_kind ns "rustfs-secret") s)
          (ensure_root_secrets W cn ns pg rustfs)
  ensure_root_secrets-Present pg rustfs =
      unfold ensure_root_secrets in
      Returns-both _
        (Returns-first (Present-IsStable L ns (client_labels cn) _) _ _
          (ensure_service_secret-Present _ _)
          (λ _. ensure_service_secret-Moves cn ns (Grows-Permits L ns (client_labels cn)) _ _))
        (Returns-rest _ _ (λ _. ensure_service_secret-Present _ _))

  pub ensure_ninegate_secret-Present :
      (pg rustfs : String)
      → Returns
          (λ _. Present L (key secret_kind ns "ninegate-secret"))
          (ensure_ninegate_secret W cn ns pg rustfs)
  ensure_ninegate_secret-Present pg rustfs =
      unfold ensure_ninegate_secret create_ninegate_secret in
      if_missing-Present L _ _
        (Returns-rest _ _ (λ a. Returns-rest _ _ (λ b. Returns-rest _ _ (λ c. create-Present L _))))

  pub ensure_ca-Present : Returns (λ _. Present L (key secret_kind ns "ca")) (ensure_ca W cn ns)
  ensure_ca-Present =
      unfold ensure_ca create_ca in
      if_missing-Present L _ _ (Returns-rest _ _ (λ ca. create-Present L _))

  policy-Present :
      (name : String) (type : PolicyType)
      → Returns
          (λ _. Present L (key network_policy_kind ns ("ninekube-" <> name)))
          (ensure_network_policy_allow_all W cn ns name type)
  policy-Present name type =
      unfold ensure_network_policy_allow_all allow_all_policy in
      if_missing-Present L _ _ (create-Present L _)

  pub ensure_network_policies-Present :
      Returns
        (λ _ s.
          Present L (key network_policy_kind ns "ninekube-allow-all-egress") s
          × Present L (key network_policy_kind ns "ninekube-allow-all-ingress") s)
        (ensure_network_policies W cn ns)
  ensure_network_policies-Present =
      unfold ensure_network_policies in
      Returns-both _
        (Returns-first (Present-IsStable L ns (client_labels cn) _) _ _
          (policy-Present "allow-all-egress" egress_policy)
          (λ _.
            ensure_network_policy_allow_all-Moves cn ns (Grows-Permits L ns (client_labels cn))
              "allow-all-ingress" ingress_policy))
        (Returns-rest _ _ (λ _. policy-Present "allow-all-ingress" ingress_policy))
