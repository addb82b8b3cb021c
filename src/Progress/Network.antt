-- ===== src/Progress/Network.antt =====
-- Ingresses, the LDAPS route and network policies on a good day: `ensureIngresses` and
-- `ensureNetworkPolicies` of operator/internal/controller/ingress.go.
use ninekube.Prelude.{ℕ, String, ◌≡◌, Option, some, none}
use ninekube.Exec.{Attempt, got, failed}
use ninekube.Exec.Succeeds.{Ends, Succeeds-pure, Succeeds-bind, Succeeds-for_each}
use ninekube.Api.{ClientNamespace, ServicesSpec}
use ninekube.Kube.{Object}
use ninekube.Kube.Network.{PolicyType, egress_policy, ingress_policy}
use ninekube.World.{World}
use ninekube.World.Lawful.{Lawful}
use ninekube.World.Healthy.{Healthy}
use ninekube.Ingress.{
  ingress_defs, ingress_object, ensure_ingress, glauth_route, create_unless,
  ensure_glauth_ingress_route_tcp, ensure_ingresses, allow_all_policy,
  ensure_network_policy_allow_all, ensure_network_policies,
}
use ninekube.Progress.Room.{IsRoomy, route_key, get-Ends}
use ninekube.Progress.Fit.{Anything}
use ninekube.Progress.Services.{ensure_plain-Ends}

module _ {W : World} {L : Lawful W} (H : Healthy L) {I : W.State → Type 0} {ns : String}
    (room : IsRoomy L ns I) (cn : ClientNamespace) where
  ensure_ingress-Ends :
      (name host path : String) (port : ℕ) (tls issuer : String)
      → Ends I I (ensure_ingress W cn ns name host path port tls issuer)
  unfolding ensure_ingress ingress_object
  ensure_ingress-Ends name host path port tls issuer =
      ensure_plain-Ends H room cn _ (λ e. cc) (λ e. cc)

  policy-Ends :
      (name : String) (type : PolicyType)
      → Ends I I (ensure_network_policy_allow_all W cn ns name type)
  unfolding ensure_network_policy_allow_all allow_all_policy
  policy-Ends name type = ensure_plain-Ends H room cn _ (λ e. cc) (λ e. cc)

  pub ensure_network_policies-Ends : Ends I I (ensure_network_policies W cn ns)
  ensure_network_policies-Ends =
      unfold ensure_network_policies in
      Succeeds-bind _ _ (policy-Ends "allow-all-egress" egress_policy)
        (λ _ _. policy-Ends "allow-all-ingress" ingress_policy)

  ingress_defs-Ends :
      (domain : String) (services : Option ServicesSpec) (sv : ServicesSpec)
      → services ≡ some sv
      → Ends I I (ingress_defs {S = W.State} domain services)
  unfolding ingress_defs
  ingress_defs-Ends domain none sv e = absurd (cc)
  ingress_defs-Ends domain (some services) sv e = Succeeds-pure _ tt

  -- The route is created where no Secret of its name is found, so it must not be there.
  module _ (absent : (s : W.State) → I s → L.object s (route_key ns) ≡ none) where
    create_unless-Ends :
        (r : Attempt Object) (domain : String)
        → Ends I Anything (create_unless W r (glauth_route cn ns domain))
    unfolding create_unless glauth_route
    create_unless-Ends (got found) domain = record {
      at = λ s i.
          let (a, e, u, j) = (Succeeds-pure {I = I} {P = λ _. Unit} tt tt).at s i in (a, e, u, tt);
    }
    create_unless-Ends (failed e) domain = record {
      at = λ s i. (tt, H.create_gone _ s (absent s i) tt, tt, tt);
    }

    pub ensure_ingresses-Ends :
        (sv : ServicesSpec)
        → cn.spec.services ≡ some sv
        → Ends I Anything (ensure_ingresses W cn ns)
    ensure_ingresses-Ends sv e =
        unfold ensure_ingresses ensure_glauth_ingress_route_tcp in
        Succeeds-bind _ _ (ingress_defs-Ends _ _ sv e) (λ defs _.
          Succeeds-bind _ _ (Succeeds-for_each _ _ (λ ig. ensure_ingress-Ends _ _ _ _ _ _)) (λ _ _.
            Succeeds-bind _ _ (get-Ends H room.objectwise _) (λ r _. create_unless-Ends r _)))
