-- ===== src/Examples.antt =====
-- Concrete clients and clusters, at which the theorems are applied.
pub mod Tests
pub mod Run
pub mod Stages
pub mod Copies
pub mod Deletions
pub mod Starts
pub mod Passwords
pub mod Hosts
use ninekube.Prelude.{ℕ, String, Bool, true, false, Option, none, some, List, [], ◌∷◌}
use ninekube.Api.{
  ClientNamespace, ClientNamespaceStatus, ClientNamespacePhase, unset, starter, CertConfig,
  secret_ref, CoreServiceSpec, StatefulServiceSpec, OptionalServiceSpec, ServicesSpec,
  NamespacedName, condition_false,
}
use ninekube.Kube.{Object, Key, namespace, namespace_kind, secret, secret_kind, tls}
use ninekube.Catalog.{OptionalService, nextcloud, wordpress, dolibarr}
use ninekube.World.Memory.{Memory, fresh}

abbrev pub order : List OptionalService
order = wordpress ∷ nextcloud ∷ dolibarr ∷ []

abbrev pub decimal : ℕ → String
decimal n = "n"

abbrev pub on : Option CoreServiceSpec
on = some (record { enabled = true })

abbrev pub stateful_on : Option StatefulServiceSpec
stateful_on = some (record { enabled = true; storage_size = none })

abbrev pub optional_on : Option OptionalServiceSpec
optional_on = some (record { enabled = true; s3_primary_storage = true })

abbrev pub all_services : ServicesSpec
all_services = record {
  postgresql = stateful_on;
  redis = on;
  rustfs = stateful_on;
  ninegate = on;
  glauth = on;
  dex = on;
  nextcloud = optional_on;
  wordpress = none;
  dolibarr = none;
}

abbrev pub new_status : ClientNamespaceStatus
new_status = record {
  phase = unset;
  namespace = "";
  endpoint = "";
  admin_secret_name = "";
  cert_secret_name = "";
  services = [];
  conditions = [];
}

abbrev pub client_with : Option ServicesSpec → ClientNamespaceStatus → ClientNamespace
client_with services status = record {
  name = "acme";
  namespace = "default";
  resource_version = 1;
  deleted = false;
  finalizers = [];
  spec = record {
    domain = "acme.example";
    plan = starter;
    cert = none;
    admin = record { email = "root@acme.example"; password_secret_ref = none; username = "admin" };
    storage = none;
    services = services;
  };
  status = status;
}

abbrev pub acme : ClientNamespace
acme = client_with (some all_services) new_status

abbrev pub request : NamespacedName
request = record { name = "acme"; namespace = "default" }

-- A cluster that holds one resource and no objects.
abbrev pub holding : ClientNamespace → Memory
holding cn = record fresh { clients = λ n. some cn }

abbrev pub finalizers : List String
finalizers = "provisioning.ninekube.io/finalizer" ∷ []

-- The client `acme`, once it has the finalizer.
abbrev pub going : ClientNamespace
going = record (client_with (some all_services) new_status) { finalizers = finalizers }

abbrev pub failed_status : ClientNamespaceStatus
failed_status = record new_status {
  phase = ClientNamespacePhase.failed;
  conditions =
      record {
        type = "Ready";
        status = condition_false;
        last_transition_time = 7;
        reason = "CAFailed";
        message = "no entropy";
      }
      ∷ [];
}

-- What `setFailed` leaves: the phase Failed, with its condition.
abbrev pub failed_client : ClientNamespace
failed_client = record (client_with (some all_services) failed_status) { finalizers = finalizers }

-- A resource whose spec has no `services`.
abbrev pub bare_client : ClientNamespace
bare_client = record (client_with none new_status) { finalizers = finalizers }

-- The client `acme` while it is being deleted, beside another client's Namespace.
abbrev pub dying : ClientNamespace
dying = record going { deleted = true }

abbrev pub other_key : Key
other_key = record { kind = namespace_kind; namespace = ""; name = "other-ns" }

abbrev pub other : Object
other = record {
  meta = record {
    name = "other-ns";
    namespace = "";
    labels = ("ninekube.io/client", "other") ∷ [];
    annotations = [];
  };
  body = namespace;
}

unfoldable pub with_other : Memory
unfolding fresh
with_other = record (holding dying) { entries = (other_key, other) ∷ [] }

-- A client whose certificate is in a Secret of its own.
abbrev pub own_cert : CertConfig
own_cert = record { type = secret_ref; secret_name = "wildcard"; issuer_ref = "" }

abbrev pub cert_client : ClientNamespace
cert_client = record going { spec = record (going.spec) { cert = some own_cert } }

abbrev pub wildcard_key : Key
wildcard_key = record { kind = secret_kind; namespace = "acme-ns"; name = "wildcard" }

abbrev pub wildcard : Object
wildcard = record {
  meta = record { name = "wildcard"; namespace = "acme-ns"; labels = []; annotations = [] };
  body =
      secret (record {
        type = tls;
        binary = ("tls.crt", "c") ∷ ("tls.key", "k") ∷ [];
        string_data = [];
      });
}

unfoldable pub with_wildcard : Memory
unfolding fresh
with_wildcard = record (holding cert_client) { entries = (wildcard_key, wildcard) ∷ [] }

-- A Secret of the client `acme`, in its namespace.
abbrev pub leftover : Object
leftover = record wildcard {
  meta = record {
    name = "wildcard";
    namespace = "acme-ns";
    labels =
        ("app.kubernetes.io/part-of", "ninekube")
        ∷ ("app.kubernetes.io/managed-by", "ninekube-operator")
        ∷ ("ninekube.io/client", "acme")
        ∷ [];
    annotations = [];
  };
}

unfoldable pub with_leftover : Memory
unfolding fresh
with_leftover = record (holding dying) { entries = (wildcard_key, leftover) ∷ [] }

-- A cluster in which the client `acme` is being deleted from now on.
abbrev pub now_dying : Memory → Memory
now_dying s = record s { clients = λ n. some dying }
