-- ===== src/Ingress.antt =====
-- Ingresses, the LDAPS route and network policies of a client: `ensureIngresses`, `ensureIngress`,
-- `ensureGlauthIngressRouteTCP`, `ensureNetworkPolicies` and `ensureNetworkPolicyAllowAll` of
-- operator/internal/controller/ingress.go.
use ninekube.Prelude.{
  ℕ, String, StringMap, ◌<>◌, ◌==◌, Bool, true, false, Option, none, some, List, [], ◌∷◌, ◌++◌,
  if◌then◌else◌,
}
use ninekube.Exec.{Exec, Attempt, got, failed, crash, pure, attempt, ◌>>=◌, ◌>>◌, for_each}
use ninekube.Api.{ClientNamespace, ServicesSpec, CertConfig, CertType, self_signed}
use ninekube.Api.Services.{optional_enabled}
use ninekube.Kube.{
  Object, secret_kind, ingress, ingress_kind, ingress_route_tcp, network_policy,
  network_policy_kind,
}
use ninekube.Kube.Network.{prefix, PolicyType, ingress_policy, egress_policy}
use ninekube.World.{World}
use ninekube.Controller.Labels.{client_labels}
use ninekube.Controller.Ensure.{key, named, if_missing}

abbrev is_self_signed : CertType → Bool
is_self_signed self_signed = true
is_self_signed _ = false

unfoldable pub issuer_name : Option CertConfig → String
issuer_name none = "letsencrypt-prod"
issuer_name (some cert) =
    if cert.issuer_ref == ""
    then (if is_self_signed cert.type then "" else "letsencrypt-prod")
    else cert.issuer_ref

pub record IngressDef : Type 0 where
  pub name : String
  pub host : String
  pub path : String
  pub port : ℕ
  pub tls : String

unfoldable pub core_ingresses : String → List IngressDef
core_ingresses domain =
    record {
      name = "ninegate";
      host = "ninegate." <> domain;
      path = "/";
      port = 80;
      tls = "ninegate-tls";
    }
    ∷ record { name = "dex"; host = "dex." <> domain; path = "/"; port = 5556; tls = "dex-tls" }
    ∷ record {
      name = "rustfs";
      host = "rustfs." <> domain;
      path = "/";
      port = 9001;
      tls = "rustfs-tls";
    }
    ∷ record {
      name = "rustfs-api";
      host = "s3." <> domain;
      path = "/";
      port = 9000;
      tls = "rustfs-tls";
    }
    ∷ []

unfoldable pub optional_ingress : String → String → IngressDef
optional_ingress domain name = record {
  name = name;
  host = name <> "." <> domain;
  path = "/";
  port = 80;
  tls = name <> "-tls";
}

unfoldable pub optional_ingresses : String → ServicesSpec → List IngressDef
unfolding optional_enabled optional_ingress
optional_ingresses domain services =
    (if optional_enabled services.nextcloud then optional_ingress domain "nextcloud" ∷ [] else [])
    ++ ((if optional_enabled services.wordpress
          then optional_ingress domain "wordpress" ∷ []
          else [])
        ++ (if optional_enabled services.dolibarr
            then optional_ingress domain "dolibarr" ∷ []
            else []))

-- The list `ingresses`. `cn.Spec.Services` is dereferenced with no test for nil.
unfoldable pub ingress_defs : {S : Type 0} → String → Option ServicesSpec → Exec S (List IngressDef)
unfolding core_ingresses optional_ingresses
ingress_defs domain none = crash
ingress_defs domain (some services) =
    pure (core_ingresses domain ++ optional_ingresses domain services)

unfoldable pub ingress_annotations : String → StringMap
ingress_annotations issuer =
    ("traefik.ingress.kubernetes.io/router.entrypoints", "websecure")
    ∷ (if issuer == "" then [] else ("cert-manager.io/cluster-issuer", issuer) ∷ [])

-- The Ingress literal: its backend is the Service with the Ingress's own name.
unfoldable pub ingress_object :
    ClientNamespace → String → String → String → String → ℕ → String → String → Object
unfolding ingress_annotations
ingress_object cn ns name host path port tls_name issuer = record {
  meta = record (named ns name (client_labels cn)) { annotations = ingress_annotations issuer };
  body = ingress (record {
    class_name = "traefik";
    tls = record { hosts = host ∷ []; secret_name = tls_name } ∷ [];
    rules =
        record {
          host = host;
          paths = record { path = path; path_type = prefix; service = name; port = port } ∷ [];
        }
        ∷ [];
  });
}

-- The IngressRouteTCP literal.
unfoldable pub glauth_route : ClientNamespace → String → String → Object
glauth_route cn ns domain = record {
  meta = named ns "glauth-ldaps" (client_labels cn);
  body = ingress_route_tcp (record {
    entry_points = "ldaps" ∷ [];
    routes =
        record {
          rule = "HostSNI(`glauth." <> domain <> "`)";
          services = record { name = "glauth"; port = 636 } ∷ [];
        }
        ∷ [];
    passthrough = true;
  });
}

-- The NetworkPolicy literal: every pod, and no restriction.
unfoldable pub allow_all_policy : ClientNamespace → String → String → PolicyType → Object
allow_all_policy cn ns np_name policy_type = record {
  meta = named ns np_name (client_labels cn);
  body = network_policy (record { pod_selector = []; policy_types = policy_type ∷ [] });
}

module _ (W : World) where
  unfoldable pub ensure_ingress :
      ClientNamespace
      → String
      → String
      → String
      → String
      → ℕ
      → String
      → String
      → Exec W.State (Unit {0})
  ensure_ingress cn ns name host path port tls_secret issuer =
      if_missing W (key ingress_kind ns name)
        (W.create (ingress_object cn ns name host path port tls_secret issuer))

  -- if err == nil { return nil }, and any error at all goes on to `Create`
  unfoldable pub create_unless : Attempt Object → Object → Exec W.State (Unit {0})
  create_unless (got found) o = pure tt
  create_unless (failed e) o = W.create o

  -- The test for an existing route reads a Secret of that name.
  unfoldable pub ensure_glauth_ingress_route_tcp :
      ClientNamespace → String → String → Exec W.State (Unit {0})
  unfolding create_unless
  ensure_glauth_ingress_route_tcp cn ns domain = do
    existing ← attempt (W.get (key secret_kind ns "glauth-ldaps"))
    create_unless existing (glauth_route cn ns domain)

  unfoldable pub ensure_ingresses : ClientNamespace → String → Exec W.State (Unit {0})
  unfolding ensure_ingress ensure_glauth_ingress_route_tcp issuer_name ingress_defs
  ensure_ingresses cn ns = do
    ingresses ← ingress_defs cn.spec.domain cn.spec.services
    for_each ingresses (λ ig.
        ensure_ingress cn ns ig.name ig.host ig.path ig.port ig.tls (issuer_name cn.spec.cert))
    ensure_glauth_ingress_route_tcp cn ns cn.spec.domain

  unfoldable pub ensure_network_policy_allow_all :
      ClientNamespace → String → String → PolicyType → Exec W.State (Unit {0})
  ensure_network_policy_allow_all cn ns name policy_type =
      let np_name = "ninekube-" <> name in
      if_missing W (key network_policy_kind ns np_name)
        (W.create (allow_all_policy cn ns np_name policy_type))

  unfoldable pub ensure_network_policies : ClientNamespace → String → Exec W.State (Unit {0})
  unfolding ensure_network_policy_allow_all
  ensure_network_policies cn ns = do
    ensure_network_policy_allow_all cn ns "allow-all-egress" egress_policy
    ensure_network_policy_allow_all cn ns "allow-all-ingress" ingress_policy
