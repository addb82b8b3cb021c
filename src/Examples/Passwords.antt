-- ===== src/Examples/Passwords.antt =====
-- The theorem on the root passwords at a concrete input.
use ninekube.Prelude.{String, ◌≡◌, refl, inl, ◌∙◌, none}
use ninekube.Exec.{ok, message, is_not_found, crash, lift, total, attempt, ◌>>=◌, for_each, pure}
use ninekube.Kube.{secret_kind}
use ninekube.World.Memory.{
  memory, get, create, create_at, set_cell, admit, fresh, find, found, now, rand_int,
  generate_rsa_key, create_certificate,
}
use ninekube.World.Memory.Laws.{memory-Lawful, memory-object}
use ninekube.World.Memory.Laws.Healthy.{memory-Healthy}
use ninekube.Api.Services.{optional_enabled}
use ninekube.Ca.{
  generate_ca, or_undecoded, only_rsa, parse_ca, sign_cert_multi_san, encode_key, or_nil, sign,
  wrapping,
}
use ninekube.Catalog.{reconcile_optional_services}
use ninekube.Certs.{
  service_certs, core_certs, optional_certs, create_ca, ensure_ca, get_ca, create_cert,
  ensure_cert_secret, ensure_service_certs,
}
use ninekube.Controller.Password.{
  char_at, filled, or_empty, override, generate_random_password, random_or_empty, given_or_read,
  get_or_create_password, read_or_random, or_random, existing_password,
}
use ninekube.Controller.Secrets.{
  or_wrapped, database_url, ninegate_values, ensure_service_secret, ensure_root_secrets,
  secret_value, admin_password, create_ninegate_secret, ensure_ninegate_secret,
}
use ninekube.Controller.Ensure.{key, if_missing, on_missing}
use ninekube.Controller.Status.{or_failed}
use ninekube.Controller.Reconcile.{provision_secrets}
use ninekube.Outcomes.Shared.Passwords.{SharesPasswords}
use ninekube.Outcomes.Shared.Root.{provision_secrets-SharesPasswords}
use ninekube.Examples.{holding, going, order, decimal}

made : (provision_secrets memory decimal order going "acme-ns" (holding going)).0 ≡ ok tt
unfolding provision_secrets reconcile_optional_services service_certs core_certs optional_certs
    create_ca ensure_ca get_ca create_cert ensure_cert_secret ensure_service_certs generate_ca
    or_undecoded only_rsa parse_ca sign_cert_multi_san encode_key or_nil sign wrapping message
    is_not_found crash lift total attempt ◌>>=◌ for_each optional_enabled char_at filled or_empty
    override generate_random_password random_or_empty given_or_read get_or_create_password
    read_or_random or_random existing_password or_wrapped database_url ninegate_values
    ensure_service_secret ensure_root_secrets secret_value admin_password create_ninegate_secret
    ensure_ninegate_secret or_failed if_missing on_missing get create create_at set_cell admit now
    rand_int generate_rsa_key create_certificate fresh find found pure
made = refl

free :
    (name : String) → memory-Lawful.object (holding going) (key secret_kind "acme-ns" name) ≡ none
unfolding fresh find
free name = memory-object (holding going) (key secret_kind "acme-ns" name) ∙ refl

provision_secrets-SharesPasswords_example :
    SharesPasswords memory-Lawful "acme-ns"
      (provision_secrets memory decimal order going "acme-ns" (holding going)).1
provision_secrets-SharesPasswords_example =
    provision_secrets-SharesPasswords memory-Healthy going "acme-ns" decimal order (holding going)
      (inl (free "postgres-secret")) (inl (free "rustfs-secret")) (free "ninegate-secret") made
