-- ===== src/Catalog.antt =====
-- operator/internal/controller/catalog.go, and what the controllers read of it:
-- `reconcileOptionalServices` and the optional services' tests.
use ninekube.Prelude.{String, Bool, Option, none, some, List, ◌==◌, if◌then◌else◌}
use ninekube.Exec.{Exec, pure, for_each}
use ninekube.Api.{ClientNamespace, ServicesSpec}
use ninekube.Api.Services.{optional_enabled, when_services}

pub record DexClientConfig : Type 0 where
  pub id : String
  pub name : String
  pub secret : String
  pub redirect_uri_prefix : String

pub record ServiceDescriptor : Type 0 where
  pub database_name : String
  pub rustfs_bucket : String
  pub dex_client : Option DexClientConfig

nextcloud_descriptor : ServiceDescriptor
nextcloud_descriptor = record {
  database_name = "nextcloud";
  rustfs_bucket = "nextcloud-data";
  dex_client = some (record {
    id = "nextcloud";
    name = "Nextcloud";
    secret = "auto";
    redirect_uri_prefix = "/index.php/login/via oidc_login/";
  });
}

wordpress_descriptor : ServiceDescriptor
wordpress_descriptor = record {
  database_name = "wordpress";
  rustfs_bucket = "wordpress-data";
  dex_client = some (record {
    id = "wordpress";
    name = "WordPress";
    secret = "auto";
    redirect_uri_prefix = "/wp-admin/";
  });
}

dolibarr_descriptor : ServiceDescriptor
dolibarr_descriptor = record {
  database_name = "dolibarr";
  rustfs_bucket = "dolibarr-data";
  dex_client =
      some
        (record { id = "dolibarr"; name = "Dolibarr"; secret = "auto"; redirect_uri_prefix = "/" });
}

-- ServiceCatalog[name]
unfoldable pub service_catalog : String → Option ServiceDescriptor
unfolding nextcloud_descriptor wordpress_descriptor dolibarr_descriptor
service_catalog name =
    if name == "nextcloud"
    then some nextcloud_descriptor
    else if name == "wordpress"
    then some wordpress_descriptor
    else if name == "dolibarr"
    then some dolibarr_descriptor
    else none

-- The entries of the map `optionalServices`, under the names of the catalog.
pub data OptionalService : Type 0 where
  nextcloud wordpress dolibarr : OptionalService

unfoldable pub service_key : OptionalService → String
service_key nextcloud = "nextcloud"
service_key wordpress = "wordpress"
service_key dolibarr = "dolibarr"

unfoldable pub service_spec_enabled : OptionalService → ServicesSpec → Bool
unfolding optional_enabled
service_spec_enabled nextcloud services = optional_enabled services.nextcloud
service_spec_enabled wordpress services = optional_enabled services.wordpress
service_spec_enabled dolibarr services = optional_enabled services.dolibarr

-- optionalServices[name]
unfoldable pub enabled : ClientNamespace → OptionalService → Bool
unfolding when_services service_spec_enabled
enabled cn service = when_services cn.spec.services (service_spec_enabled service)

-- reconcileOptionalServices only writes log lines, which are not modelled: whatever the map's
-- order, each enabled service is looked up, and nothing is called.
unfoldable pub reconcile_optional_services :
    {S : Type 0} → List OptionalService → ClientNamespace → Exec S (Unit {0})
reconcile_optional_services order cn = for_each order (λ _. pure tt)
