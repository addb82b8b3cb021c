-- ===== src/Examples/Tests.antt =====
-- The theorems on whole calls and on single functions at concrete inputs.
use ninekube.Prelude.{
  ◌<◌, arith, [], ◌∷◌, refl, sym, ap, ◌∙◌, ◌==◌, index, false-ne-true, ◌≡◌, ◌≢◌, ℕ, zero, suc, ◌<>◌,
  inl, inr, some, false, All,
}
use ninekube.Exec.{ok, plain, panic}
use ninekube.Kube.Workload.{EnvVar}
use ninekube.Api.{ClientNamespacePhase}
use ninekube.World.Memory.{Memory, memory, get_client_namespace, contains, fresh, find, rand_int}
use ninekube.World.Memory.Laws.{memory-Lawful, memory-object}
use ninekube.World.Lawful.{UniqueTypes}
use ninekube.World.Grows.{Grows}
use ninekube.Controller.Labels.{ns_name, client_labels}
use ninekube.Controller.Domain.{replace_dots_with_dc}
use ninekube.Controller.Domain.Names.{replace_dots_with_dc_dot}
use ninekube.Controller.Reconcile.{reconcile}
use ninekube.Controller.Secrets.{ninegate_values}
use ninekube.Controller.Status
use ninekube.Catalog.{wordpress, nextcloud}
use ninekube.Services.Postgres.{generate_init_sql}
use ninekube.Services.Postgres.Init.{generate_init_sql_lem}
use ninekube.Services.Ninegate.{environment}
use ninekube.Services.Ninegate.Wiring.{Finds, environment-Finds}
use ninekube.Manager.{services}
use ninekube.World.Memory.Laws.Healthy.{memory-Healthy}
use ninekube.Isolation.{reconcile_all, reconcile_all-keeps}
use ninekube.Controller.Password.{generate_random_password}
use ninekube.Controller.Password.Bounds.{IsPassword, generate_random_password-IsPassword}
use ninekube.Progress.Fit.{Fit}
use ninekube.Api.{ClientNamespace}
use ninekube.Controller.Status.{upsert_service}
use ninekube.Controller.Status.Entries.{
  entry_of, UniqueNames, upsert_service-UniqueNames, upsert_service-updates,
}
use ninekube.Outcomes.Entries.{is_up, reconcile-entries}
use ninekube.Ca.{Ca, generate_ca, parse_ca}
use ninekube.Ca.RoundTrip.{parse_ca-generate_ca}
use ninekube.Growth.Whole.{reconcile-Grows}
use ninekube.Outcomes.Failure.{HasReady, failed_status_lem}
use ninekube.Outcomes.Stuck.{reconcile-stuck, reconcile-no_services}
use ninekube.Outcomes.Ready.{Provisioned, reconcile-Ready}
use ninekube.Outcomes.Deletion.{reconcile-Spares}
use ninekube.Examples.{
  acme, request, holding, order, decimal, going, failed_client, failed_status, bare_client, dying,
  other, other_key, with_other,
}
use ninekube.Examples.Run.{run}

reconcile-Grows_example :
    Grows memory-Lawful
      (ns_name acme)
      (client_labels acme)
      (holding acme)
      (reconcile memory decimal order (services memory order) request (holding acme)).1
unfolding get_client_namespace fresh find
reconcile-Grows_example =
    reconcile-Grows memory-Lawful decimal order request (holding acme) acme refl refl

reconcile-Ready_example :
    Provisioned memory-Lawful going
      (reconcile memory decimal order (services memory order) request (holding going)).1
unfolding get_client_namespace fresh find contains
reconcile-Ready_example =
    reconcile-Ready memory-Lawful decimal order request (holding going) going refl (refl, refl) run

reconcile-Spares_example :
    memory-Lawful.object
      (reconcile memory decimal order (services memory order) request with_other).1
      other_key
    ≡ some other
unfolding get_client_namespace fresh find with_other index
reconcile-Spares_example =
    reconcile-Spares memory-Lawful other_key other dying
      (inl (λ e. false-ne-true (sym (ap (λ t. "" == t) e))), λ e. refl) decimal order request
      with_other refl refl (memory-object with_other other_key ∙ refl)

reconcile-stuck_example : ¬ (
    (reconcile memory decimal order (services memory order) request (holding failed_client)).0
    ≡ ok tt)
unfolding get_client_namespace fresh find contains
reconcile-stuck_example =
    reconcile-stuck memory-Lawful decimal order (services memory order) request
      (holding failed_client) failed_client refl (refl, refl) (inl refl)

reconcile-no_services_example : ¬ (
    (reconcile memory decimal order (services memory order) request (holding bare_client)).0
    ≡ ok tt)
unfolding get_client_namespace fresh find contains
reconcile-no_services_example =
    reconcile-no_services memory-Lawful decimal order (services memory order) request
      (holding bare_client) bare_client refl (refl, refl) refl

failed_status_lem_example :
    UniqueTypes (Status.failed_status 9 "CertFailed" (plain "x") failed_status).conditions
    × HasReady (Status.failed_status 9 "CertFailed" (plain "x") failed_status).conditions
    × ((Status.failed_status 9 "CertFailed" (plain "x") failed_status).phase
        ≡ ClientNamespacePhase.failed)
failed_status_lem_example = failed_status_lem 9 "CertFailed" (plain "x") failed_status (tt, tt)

environment-Finds_example :
    All
      (λ (v : EnvVar). Finds "ninegate-secret" (ninegate_values acme "a" "b" "c" "d" "e") v.source)
      environment
environment-Finds_example = environment-Finds acme "a" "b" "c" "d" "e"

replace_dots_with_dc_dot_example :
    replace_dots_with_dc ("acme" <> ("." <> "example"))
    ≡ replace_dots_with_dc "acme" <> ("," <> replace_dots_with_dc "example")
replace_dots_with_dc_dot_example = replace_dots_with_dc_dot "acme" "example"

generate_init_sql_lem_example :
    generate_init_sql (wordpress ∷ nextcloud ∷ []) acme
    ≡ "CREATE DATABASE ninegate;\nCREATE DATABASE nextcloud;\n"
generate_init_sql_lem_example = generate_init_sql_lem (wordpress ∷ nextcloud ∷ []) acme

acme_is_not_other : request.name ≢ "other"
acme_is_not_other e = false-ne-true (ap (λ t. t == "other") e)

reconcile_all-keeps_example :
    memory-Lawful.object
      (reconcile_all memory decimal order (request ∷ request ∷ []) with_other)
      other_key
    ≡ some other
unfolding get_client_namespace fresh find with_other
reconcile_all-keeps_example =
    reconcile_all-keeps memory-Lawful decimal order "other" other_key other (inr refl)
      (request ∷ request ∷ []) with_other (acme_is_not_other, (acme_is_not_other, tt))
      (memory-object with_other other_key ∙ refl)

rand_int_calm : (m : ℕ) (t : Memory) → 0 < m → (rand_int m t).0 ≢ panic
unfolding rand_int
rand_int_calm zero t pos e = absurd (omega arith)
rand_int_calm (suc m) t pos e = absurd (cc)

generate_random_password-IsPassword_example :
    IsPassword 3 (generate_random_password memory 3 (holding acme)).0
generate_random_password-IsPassword_example =
    generate_random_password-IsPassword memory-Lawful 3 (holding acme) rand_int_calm

parse_ca-generate_ca_example :
    (ca : Ca memory) × ((generate_ca memory "acme-ca" (holding acme)).0 ≡ ok ca)
    × ((t : _) → (parse_ca memory ca.cert_pem ca.key_pem t).0 ≡ ok ca)
parse_ca-generate_ca_example = parse_ca-generate_ca memory-Healthy "acme-ca" (holding acme)

reconcile-entries_example :
    (new : ClientNamespace) × (memory-Lawful.stored
        (reconcile memory decimal order (services memory order) request (holding going)).1
        request
      ≡ some new)
    × (new.status.services
        ≡ is_up "Namespace"
          ∷ is_up "PostgreSQL"
          ∷ is_up "Redis"
          ∷ is_up "RustFS"
          ∷ is_up "Ninegate"
          ∷ is_up "Glauth"
          ∷ [])
unfolding get_client_namespace fresh find contains
reconcile-entries_example =
    reconcile-entries memory-Lawful decimal order request (holding going) going refl (refl, refl)
      refl run

upsert_service-updates_example :
    entry_of "Redis" (upsert_service "Redis" false "down" (is_up "Redis" ∷ is_up "Dex" ∷ []))
    ≡ some (record { name = "Redis"; ready = false; message = "down" })
upsert_service-updates_example =
    upsert_service-updates "Redis" false "down" "Redis" (is_up "Redis" ∷ is_up "Dex" ∷ [])

upsert_service-UniqueNames_example :
    UniqueNames (upsert_service "Dex" false "down" (is_up "Redis" ∷ []))
upsert_service-UniqueNames_example =
    upsert_service-UniqueNames "Dex" false "down" (is_up "Redis" ∷ []) (tt, tt)
