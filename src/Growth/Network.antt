-- ===== src/Growth/Network.antt =====
-- How Ingress.antt moves the cluster, for any relation that provisioning may move along.
use ninekube.Prelude.{ℕ, String, refl, Option, none, some}
use ninekube.Exec.{Attempt, got, failed}
use ninekube.Exec.Moves.{Moves, Moves-attempt}
use ninekube.Api.{ClientNamespace, ServicesSpec}
use ninekube.Kube.{Object}
use ninekube.Kube.Network.{PolicyType, ingress_policy, egress_policy}
use ninekube.World.{World}
use ninekube.World.Permits.{Permits, IsClients}
use ninekube.World.Permits.Rules.{pure-Moves, crash-Moves, bind-Moves, for_each-Moves, get-Moves}
use ninekube.Controller.Labels.{client_labels}
use ninekube.Growth.Secrets.{if_missing-Moves, create_client-Moves}
use ninekube.Ingress.{
  ingress_defs, ingress_object, ensure_ingress, glauth_route, create_unless,
  ensure_glauth_ingress_route_tcp, ensure_ingresses, allow_all_policy,
  ensure_network_policy_allow_all, ensure_network_policies,
}

module _ {W : World} {R : W.State → W.State → Type 0} {C : Object → Type 0}
    (P : Permits W R C) where
  ingress_defs-Moves :
      (domain : String) (services : Option ServicesSpec) → Moves R (ingress_defs domain services)
  unfolding ingress_defs
  ingress_defs-Moves domain none = crash-Moves P
  ingress_defs-Moves domain (some services) = pure-Moves P _

module _ {W : World} {R : W.State → W.State → Type 0} (cn : ClientNamespace) (ns : String)
    (P : Permits W R (IsClients ns (client_labels cn))) where
  ensure_ingress-Moves :
      (name host path : String) (port : ℕ) (tls issuer : String)
      → Moves R (ensure_ingress W cn ns name host path port tls issuer)
  unfolding ensure_ingress ingress_object
  ensure_ingress-Moves name host path port tls issuer =
      if_missing-Moves P _ _ (create_client-Moves cn ns P _ refl refl)

  create_unless-Moves :
      (r : Attempt Object) (domain : String)
      → Moves R (create_unless W r (glauth_route cn ns domain))
  unfolding create_unless glauth_route
  create_unless-Moves (got o) domain = pure-Moves P tt
  create_unless-Moves (failed e) domain = create_client-Moves cn ns P _ refl refl

  ensure_glauth_ingress_route_tcp-Moves :
      (domain : String) → Moves R (ensure_glauth_ingress_route_tcp W cn ns domain)
  ensure_glauth_ingress_route_tcp-Moves domain =
      unfold ensure_glauth_ingress_route_tcp in
      bind-Moves P _ _ (Moves-attempt _ (get-Moves P _)) (λ r. create_unless-Moves r domain)

  pub ensure_ingresses-Moves : Moves R (ensure_ingresses W cn ns)
  ensure_ingresses-Moves =
      unfold ensure_ingresses in
      bind-Moves P _ _ (ingress_defs-Moves P _ _) (λ defs.
        bind-Moves P _ _ (for_each-Moves P defs _ (λ ig. ensure_ingress-Moves _ _ _ _ _ _))
          (λ _. ensure_glauth_ingress_route_tcp-Moves _))

  pub ensure_network_policy_allow_all-Moves :
      (name : String) (type : PolicyType)
      → Moves R (ensure_network_policy_allow_all W cn ns name type)
  unfolding ensure_network_policy_allow_all allow_all_policy
  ensure_network_policy_allow_all-Moves name type =
      if_missing-Moves P _ _ (create_client-Moves cn ns P _ refl refl)

  pub ensure_network_policies-Moves : Moves R (ensure_network_policies W cn ns)
  ensure_network_policies-Moves =
      unfold ensure_network_policies in
      bind-Moves P _ _ (ensure_network_policy_allow_all-Moves "allow-all-egress" egress_policy)
        (λ _. ensure_network_policy_allow_all-Moves "allow-all-ingress" ingress_policy)
