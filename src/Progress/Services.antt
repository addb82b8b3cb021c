-- ===== src/Progress/Services.antt =====
-- The service controllers on a good day.
use ninekube.Prelude.{
  String, ◌==◌, ◌≡◌, refl, sym, ◌∙◌, false-ne-true, Bool, true, false, Option, none, some, List,
  ◌≢◌,
}
use ninekube.Exec.{Exec}
use ninekube.Exec.Succeeds.{Ends, Succeeds-pure, Succeeds-bind, Succeeds-if, Succeeds-for_each}
use ninekube.Api.{ClientNamespace, ServicesSpec, StatefulServiceSpec}
use ninekube.Api.Services.{stateful_enabled, when_services}
use ninekube.Catalog.{OptionalService}
use ninekube.Kube.{
  ingress_route_tcp_kind, Object, key_of, secret_kind, Body, kind_of, namespace, secret, config_map,
  deployment, stateful_set, service, pvc, ingress, ingress_route_tcp, network_policy,
}
use ninekube.World.{World}
use ninekube.World.Lawful.{Lawful}
use ninekube.World.Healthy.{Healthy, IsComplete}
use ninekube.Controller.Ensure.{if_missing}
use ninekube.Services.Common.{when_provisioned}
use ninekube.Services.Postgres
use ninekube.Services.Redis
use ninekube.Services.RustFs
use ninekube.Services.Ninegate
use ninekube.Progress.Room.{IsRoomy, ensure-Ends, create-Ends, if_missing-Ends}
use ninekube.Progress.Fit.{IsHarmless-of_kind}

-- The API server asks for keys of Secrets only.
IsComplete-of_kind : (b : Body) → kind_of b ≢ secret_kind → IsComplete b
IsComplete-of_kind (secret spec) other = absurd (other refl)
IsComplete-of_kind namespace other = tt
IsComplete-of_kind (config_map _) other = tt
IsComplete-of_kind (deployment _) other = tt
IsComplete-of_kind (stateful_set _) other = tt
IsComplete-of_kind (service _) other = tt
IsComplete-of_kind (pvc _) other = tt
IsComplete-of_kind (ingress _) other = tt
IsComplete-of_kind (ingress_route_tcp _) other = tt
IsComplete-of_kind (network_policy _) other = tt

module _ {S : Type 0} {I : S → Type 0} where
  pub when_provisioned-Ends :
      (enabled : Bool) (cn : ClientNamespace) (provision : String → Exec S (Unit {0}))
      → (cn.status.namespace == "") ≡ false
      → (enabled ≡ true → Ends I I (provision cn.status.namespace))
      → Ends I I (when_provisioned enabled cn provision)
  unfolding when_provisioned
  when_provisioned-Ends enabled cn provision named h =
      Succeeds-if enabled _ _
        (λ on.
          Succeeds-if (cn.status.namespace == "") _ _
            (λ empty. absurd (false-ne-true (sym named ∙ empty))) (λ _. h on))
        (λ _. Succeeds-pure tt tt)

  postgres-size_of-Ends :
      (spec : Option StatefulServiceSpec)
      → stateful_enabled spec ≡ true
      → Ends I I (Postgres.size_of {S = S} spec)
  unfolding Postgres.size_of stateful_enabled
  postgres-size_of-Ends none on = absurd (cc)
  postgres-size_of-Ends (some spec) on = Succeeds-pure _ tt

  -- An enabled service has a spec.
  postgres-own_size-Ends :
      (services : Option ServicesSpec)
      → when_services services (λ sv. stateful_enabled sv.postgresql) ≡ true
      → Ends I I (Postgres.own_size {S = S} services)
  unfolding Postgres.own_size when_services
  postgres-own_size-Ends none on = absurd (cc)
  postgres-own_size-Ends (some services) on = postgres-size_of-Ends _ on

  rustfs-size_of-Ends :
      (spec : Option StatefulServiceSpec)
      → stateful_enabled spec ≡ true
      → Ends I I (RustFs.size_of {S = S} spec)
  unfolding RustFs.size_of stateful_enabled
  rustfs-size_of-Ends none on = absurd (cc)
  rustfs-size_of-Ends (some spec) on = Succeeds-pure _ tt

  rustfs-own_size-Ends :
      (services : Option ServicesSpec)
      → when_services services (λ sv. stateful_enabled sv.rustfs) ≡ true
      → Ends I I (RustFs.own_size {S = S} services)
  unfolding RustFs.own_size when_services
  rustfs-own_size-Ends none on = absurd (cc)
  rustfs-own_size-Ends (some services) on = rustfs-size_of-Ends _ on

module _ {W : World} {L : Lawful W} (H : Healthy L) {I : W.State → Type 0} {ns : String}
    (room : IsRoomy L ns I) (cn : ClientNamespace) where
  -- An object of a kind that no step looks for by another name.
  pub ensure_plain-Ends :
      (o : Object)
      → (key_of o).kind ≢ ingress_route_tcp_kind
      → (key_of o).kind ≢ secret_kind
      → Ends I I (if_missing W (key_of o) (W.create o))
  ensure_plain-Ends o route other =
      ensure-Ends H room o (IsHarmless-of_kind ns _ route other) (IsComplete-of_kind o.body other)

  pub redis-provision-Ends : Ends I I (Redis.provision W cn ns)
  unfolding Redis.ensure_deployment Redis.ensure_service Redis.deployment_object
      Redis.service_object
  redis-provision-Ends =
      unfold Redis.provision in
      Succeeds-bind _ _ (ensure_plain-Ends _ (λ e. cc) (λ e. cc))
        (λ _ _. ensure_plain-Ends _ (λ e. cc) (λ e. cc))

  rustfs-ensure_pvc-Ends :
      when_services cn.spec.services (λ sv. stateful_enabled sv.rustfs) ≡ true
      → Ends I I (RustFs.ensure_pvc W cn ns)
  unfolding RustFs.ensure_pvc RustFs.create_pvc RustFs.pvc_object
  rustfs-ensure_pvc-Ends on = if_missing-Ends H room _ _ (
      Succeeds-bind _ _ (rustfs-own_size-Ends cn.spec.services on)
        (λ size _. create-Ends H room _ (IsHarmless-of_kind ns _ (λ e. cc) (λ e. cc)) tt))

  pub rustfs-provision-Ends :
      when_services cn.spec.services (λ sv. stateful_enabled sv.rustfs) ≡ true
      → Ends I I (RustFs.provision W cn ns)
  unfolding RustFs.ensure_deployment RustFs.ensure_service RustFs.deployment_object
      RustFs.service_object
  rustfs-provision-Ends on =
      unfold RustFs.provision in
      Succeeds-bind _ _ (rustfs-ensure_pvc-Ends on) (λ _ _.
        Succeeds-bind _ _ (ensure_plain-Ends _ (λ e. cc) (λ e. cc))
          (λ _ _. ensure_plain-Ends _ (λ e. cc) (λ e. cc)))

  pub ninegate-provision-Ends : Ends I I (Ninegate.provision W cn ns)
  unfolding Ninegate.ensure_pvcs Ninegate.pvc_object Ninegate.ensure_deployment
      Ninegate.ensure_service Ninegate.deployment_object Ninegate.service_object
  ninegate-provision-Ends =
      unfold Ninegate.provision in
      Succeeds-bind _ _ (Succeeds-for_each _ _ (λ name. ensure_plain-Ends _ (λ e. cc) (λ e. cc)))
        (λ _ _.
          Succeeds-bind _ _ (ensure_plain-Ends _ (λ e. cc) (λ e. cc))
            (λ _ _. ensure_plain-Ends _ (λ e. cc) (λ e. cc)))

  module _ (order : List OptionalService) where
    postgres-ensure_stateful_set-Ends :
        when_services cn.spec.services (λ sv. stateful_enabled sv.postgresql) ≡ true
        → Ends I I (Postgres.ensure_stateful_set W order cn ns)
    unfolding Postgres.ensure_stateful_set Postgres.create_stateful_set Postgres.stateful_set_object
    postgres-ensure_stateful_set-Ends on = if_missing-Ends H room _ _ (
        Succeeds-bind _ _ (postgres-own_size-Ends cn.spec.services on)
          (λ size _. create-Ends H room _ (IsHarmless-of_kind ns _ (λ e. cc) (λ e. cc)) tt))

    pub postgres-provision-Ends :
        when_services cn.spec.services (λ sv. stateful_enabled sv.postgresql) ≡ true
        → Ends I I (Postgres.provision W order cn ns)
    unfolding Postgres.ensure_config_map Postgres.config_map_object Postgres.ensure_service
        Postgres.service_object
    postgres-provision-Ends on =
        unfold Postgres.provision in
        Succeeds-bind _ _ (ensure_plain-Ends _ (λ e. cc) (λ e. cc)) (λ _ _.
          Succeeds-bind _ _ (postgres-ensure_stateful_set-Ends on)
            (λ _ _. ensure_plain-Ends _ (λ e. cc) (λ e. cc)))
