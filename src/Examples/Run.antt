-- ===== src/Examples/Run.antt =====
-- A whole run of `Reconcile` on the concrete cluster.
use ninekube.Prelude.{refl, ◌≡◌, some}
use ninekube.Catalog.{reconcile_optional_services}
use ninekube.Ingress.{
  issuer_name, ingress_object, glauth_route, allow_all_policy, ensure_ingress, ensure_ingresses,
  ensure_network_policy_allow_all, ensure_network_policies,
}
use ninekube.Api.{plan_text}
use ninekube.Manager.{services}
use ninekube.Certs.{
  service_certs, create_ca, ensure_ca, get_ca, create_cert, ensure_cert_secret,
  ensure_service_certs,
}
use ninekube.Ca.{
  generate_ca, or_undecoded, only_rsa, parse_ca, sign_cert_multi_san, generate_rsa_self_signed_cert,
}
use ninekube.Exec.{message, is_not_found, crash, lift, total, attempt, ◌>>=◌, for_each, pure, ok}
use ninekube.Api.Services.{core_enabled, optional_enabled, stateful_enabled, when_services}
use ninekube.Controller.Password.{
  char_at, filled, or_empty, override, generate_random_password, random_or_empty, given_or_read,
  get_or_create_password,
}
use ninekube.Controller.Secrets.{
  or_wrapped, unless_given, database_url, ninegate_values, create_admin_credentials,
  ensure_admin_credentials, ensure_service_secret, ensure_root_secrets, secret_value,
  admin_password, create_ninegate_secret, ensure_ninegate_secret,
}
use ninekube.Controller.Reconcile.{
  namespace_object, ensure_namespace, reconcile_phase, reconcile_fetched, reconcile,
}
use ninekube.Controller.Status.{update_service_status, or_failed, mark_ready}
use ninekube.Controller.Labels.{app_labels}
use ninekube.Controller.Ensure.{key, if_missing, on_missing}
use ninekube.Kube.{service_kind}
use ninekube.World.Memory.{
  cell, set_cell, admit, create_at, get, create, get_client_namespace, update_status, now, rand_int,
  generate_rsa_key, create_certificate, contains, fresh, find, memory,
}
use ninekube.Services.Postgres.{stateful_set_object}
use ninekube.Services.Postgres
use ninekube.Services.Redis
use ninekube.Services.RustFs
use ninekube.Services.Ninegate
use ninekube.Services.Glauth
use ninekube.Services.Dex
use ninekube.Examples.{going, request, holding, order, decimal}

-- A new client is provisioned without an error.
pub run : (reconcile memory decimal order (services memory order) request (holding going)).0 ≡ ok tt
unfolding reconcile_optional_services issuer_name ingress_object glauth_route allow_all_policy
    ensure_ingress ensure_ingresses ensure_network_policy_allow_all ensure_network_policies
    plan_text services service_certs create_ca ensure_ca get_ca create_cert ensure_cert_secret
    ensure_service_certs generate_ca or_undecoded only_rsa parse_ca sign_cert_multi_san
    generate_rsa_self_signed_cert message is_not_found crash lift total attempt ◌>>=◌ for_each
    core_enabled optional_enabled stateful_enabled when_services char_at filled or_empty override
    generate_random_password random_or_empty given_or_read get_or_create_password or_wrapped
    unless_given database_url ninegate_values create_admin_credentials ensure_admin_credentials
    ensure_service_secret ensure_root_secrets secret_value admin_password create_ninegate_secret
    ensure_ninegate_secret namespace_object ensure_namespace Glauth.provision reconcile_phase
    reconcile_fetched reconcile Postgres.reconcile Ninegate.reconcile RustFs.reconcile Dex.reconcile
    Redis.reconcile Glauth.reconcile update_service_status or_failed mark_ready if_missing get
    create get_client_namespace update_status now rand_int generate_rsa_key create_certificate
    contains fresh find Postgres.config_map_object Glauth.config_map_object stateful_set_object
    Postgres.service_object Ninegate.service_object RustFs.service_object Dex.service_object
    Redis.service_object Glauth.service_object Postgres.own_size RustFs.own_size Ninegate.pvc_object
    RustFs.pvc_object Ninegate.deployment_object RustFs.deployment_object Dex.deployment_object
    Redis.deployment_object Glauth.deployment_object pure
run = refl

-- The Service of Redis is among the objects that it leaves.
pub redis_held :
    cell
      (reconcile memory decimal order (services memory order) request (holding going)).1
      (key service_kind "acme-ns" "redis")
    ≡ some (Redis.service_object going "acme-ns")
unfolding reconcile_optional_services issuer_name ingress_object glauth_route allow_all_policy
    ensure_ingress ensure_ingresses ensure_network_policy_allow_all ensure_network_policies
    plan_text services service_certs create_ca ensure_ca get_ca create_cert ensure_cert_secret
    ensure_service_certs generate_ca or_undecoded only_rsa parse_ca sign_cert_multi_san
    generate_rsa_self_signed_cert message is_not_found crash lift total attempt ◌>>=◌ for_each
    core_enabled optional_enabled stateful_enabled when_services char_at filled or_empty override
    generate_random_password random_or_empty given_or_read get_or_create_password or_wrapped
    unless_given database_url ninegate_values create_admin_credentials ensure_admin_credentials
    ensure_service_secret ensure_root_secrets secret_value admin_password create_ninegate_secret
    ensure_ninegate_secret ensure_namespace Glauth.provision reconcile_phase reconcile_fetched
    reconcile Postgres.reconcile Ninegate.reconcile RustFs.reconcile Dex.reconcile Redis.reconcile
    Glauth.reconcile update_service_status or_failed mark_ready get create get_client_namespace
    update_status now rand_int generate_rsa_key create_certificate contains fresh find
    Postgres.config_map_object Glauth.config_map_object stateful_set_object Postgres.service_object
    Ninegate.service_object RustFs.service_object Dex.service_object Redis.service_object
    Glauth.service_object Postgres.own_size RustFs.own_size Ninegate.pvc_object RustFs.pvc_object
    Ninegate.deployment_object RustFs.deployment_object Dex.deployment_object
    Redis.deployment_object Glauth.deployment_object pure set_cell admit create_at if_missing
    on_missing namespace_object app_labels
redis_held = refl
