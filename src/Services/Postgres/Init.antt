-- ===== src/Services/Postgres/Init.antt =====
-- The script that `generateInitSQL` of operator/internal/controller/postgresql_controller.go builds
-- in a loop.
use text.Mathlib.TextLemmas.{append-nil, nil-append, append_assoc}
use ninekube.Prelude.{
  String, ◌<>◌, ◌≡◌, refl, sym, ◌∙◌, ap, Bool, true, false, Option, none, some, List, [], ◌∷◌,
  if◌then◌else◌,
}
use ninekube.Api.{ClientNamespace, ServicesSpec, OptionalServiceSpec}
use ninekube.Api.Services.{optional_enabled, when_services}
use ninekube.Catalog.{
  OptionalService, nextcloud, wordpress, dolibarr, enabled, service_spec_enabled, service_catalog,
  service_key,
}
use ninekube.Services.Postgres.{
  database_statement, optional_statement, optional_sql, generate_init_sql,
}

-- What the spec of an optional service says.
abbrev is_on : Option OptionalServiceSpec → Bool
is_on none = false
is_on (some spec) = spec.enabled

abbrev asks_in : ServicesSpec → OptionalService → Bool
asks_in services nextcloud = is_on services.nextcloud
asks_in services wordpress = is_on services.wordpress
asks_in services dolibarr = is_on services.dolibarr

-- Whether the spec asks for the service.
abbrev asks : Option ServicesSpec → OptionalService → Bool
asks none s = false
asks (some services) s = asks_in services s

abbrev database : OptionalService → String
database nextcloud = "nextcloud"
database wordpress = "wordpress"
database dolibarr = "dolibarr"

-- The databases of the services that the spec asks for, in the order of the run.
abbrev pub databases : Option ServicesSpec → List OptionalService → List String
databases services [] = []
databases services (s ∷ order) =
    let rest = databases services order in if asks services s then database s ∷ rest else rest

-- The text that creates each of the databases, and does nothing else.
abbrev pub creating : List String → String
creating [] = ""
creating (name ∷ names) = "CREATE DATABASE " <> (name <> (";\n" <> creating names))

optional_enabled-is_on : (o : Option OptionalServiceSpec) → optional_enabled o ≡ is_on o
unfolding optional_enabled
optional_enabled-is_on none = refl
optional_enabled-is_on (some spec) = refl

enabled_in :
    (services : ServicesSpec) (s : OptionalService)
    → service_spec_enabled s services ≡ asks_in services s
unfolding service_spec_enabled
enabled_in services nextcloud = optional_enabled-is_on services.nextcloud
enabled_in services wordpress = optional_enabled-is_on services.wordpress
enabled_in services dolibarr = optional_enabled-is_on services.dolibarr

when_asks :
    (o : Option ServicesSpec) (s : OptionalService)
    → when_services o (service_spec_enabled s) ≡ asks o s
unfolding when_services
when_asks none s = refl
when_asks (some services) s = enabled_in services s

enabled-asks : (cn : ClientNamespace) (s : OptionalService) → enabled cn s ≡ asks cn.spec.services s
unfolding enabled
enabled-asks cn s = when_asks cn.spec.services s

-- The catalog knows the database of each of the services.
catalog_statement :
    (s : OptionalService)
    → database_statement (service_catalog (service_key s))
      ≡ "CREATE DATABASE " <> database s <> ";\n"
unfolding database_statement service_catalog service_key
catalog_statement nextcloud = refl
catalog_statement wordpress = refl
catalog_statement dolibarr = refl

creating_one :
    (name rest : String)
    → ("CREATE DATABASE " <> name <> ";\n") <> rest
      ≡ "CREATE DATABASE " <> (name <> (";\n" <> rest))
creating_one name rest =
    append_assoc "CREATE DATABASE " _ rest
    ∙ ap (λ x. "CREATE DATABASE " <> x) (append_assoc name ";\n" rest)

-- What one round adds, in front of what follows it.
round_lem :
    (s : OptionalService) (b : Bool) (names : List String)
    → (if b then database_statement (service_catalog (service_key s)) else "") <> creating names
      ≡ creating (if b then database s ∷ names else names)
round_lem s true names =
    ap (λ x. x <> creating names) (catalog_statement s) ∙ creating_one (database s) (creating names)
round_lem s false names = nil-append (creating names)

optional_sql_lem :
    (sql : String) (cn : ClientNamespace) (order : List OptionalService)
    → optional_sql sql cn order ≡ sql <> creating (databases cn.spec.services order)
unfolding optional_sql optional_statement
optional_sql_lem sql cn [] = sym (append-nil sql)
optional_sql_lem sql cn (s ∷ order) =
    optional_sql_lem (sql <> optional_statement cn s) cn order
    ∙ (append_assoc sql (optional_statement cn s) _
        ∙ ap (λ x. sql <> x)
            (ap
                (λ b.
                  (if b then database_statement (service_catalog (service_key s)) else "")
                  <> creating (databases cn.spec.services order))
                (enabled-asks cn s)
              ∙ round_lem s (asks cn.spec.services s) (databases cn.spec.services order)))

-- In whichever order the run takes the optional services, the script creates the database
-- `ninegate`, and then in that order the database of each optional service that the spec enables,
-- which has the name of the service, and does nothing else.
pub generate_init_sql_lem :
    (order : List OptionalService) (cn : ClientNamespace)
    → generate_init_sql order cn ≡ creating ("ninegate" ∷ databases cn.spec.services order)
unfolding generate_init_sql
generate_init_sql_lem order cn =
    optional_sql_lem _ cn order
    ∙ creating_one "ninegate" (creating (databases cn.spec.services order))
