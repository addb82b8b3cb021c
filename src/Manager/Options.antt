-- ===== src/Manager/Options.antt =====
-- `main` of operator/cmd/main.go: what it makes of its flags, and the steps in which it starts the
-- manager. The manager, and the servers that read the options, are controller-runtime's.
use ninekube.Prelude.{String, ◌==◌, Bool, true, false, List, [], ◌∷◌, if◌then◌else◌}
use ninekube.Exec.{Exec, Attempt, got, failed, wrapped, pure, raise, attempt, ◌>>=◌, ◌>>◌}

pub record Flags : Type 0 where
  pub metrics_bind_address : String
  pub health_probe_bind_address : String
  pub leader_elect : Bool
  pub metrics_secure : Bool
  pub webhook_cert_path : String
  pub webhook_cert_name : String
  pub webhook_cert_key : String
  pub metrics_cert_path : String
  pub metrics_cert_name : String
  pub metrics_cert_key : String
  pub enable_http2 : Bool

-- The flags of a call without arguments.
abbrev pub default_flags : Flags
default_flags = record {
  metrics_bind_address = "0";
  health_probe_bind_address = ":8081";
  leader_elect = false;
  metrics_secure = true;
  webhook_cert_path = "";
  webhook_cert_name = "tls.crt";
  webhook_cert_key = "tls.key";
  metrics_cert_path = "";
  metrics_cert_name = "tls.crt";
  metrics_cert_key = "tls.key";
  enable_http2 = false;
}

-- `tls.Config`, with the field that the operator sets.
pub record TlsConfig : Type 0 where
  pub next_protos : List String

-- `CertDir`, `CertName` and `KeyName` of a server's options.
pub record CertFiles : Type 0 where
  pub cert_dir : String
  pub cert_name : String
  pub key_name : String

pub record WebhookOptions : Type 0 where
  pub tls_opts : List (TlsConfig → TlsConfig)
  pub cert_files : CertFiles

pub record MetricsOptions : Type 0 where
  pub bind_address : String
  pub secure_serving : Bool
  pub tls_opts : List (TlsConfig → TlsConfig)
  -- `FilterProvider` is set
  pub filtered : Bool
  pub cert_files : CertFiles

pub record ManagerOptions : Type 0 where
  pub metrics : MetricsOptions
  pub webhook : WebhookOptions
  pub health_probe_bind_address : String
  pub leader_election : Bool
  pub leader_election_id : String

unfoldable pub disable_http2 : TlsConfig → TlsConfig
disable_http2 c = record c { next_protos = "http/1.1" ∷ [] }

unfoldable pub tls_opts_of : Flags → List (TlsConfig → TlsConfig)
unfolding disable_http2
tls_opts_of flags = if flags.enable_http2 then [] else disable_http2 ∷ []

-- if len(path) > 0, the three names; else the zero values
unfoldable pub cert_files_of : String → String → String → CertFiles
cert_files_of path name key_name =
    if path == ""
    then record { cert_dir = ""; cert_name = ""; key_name = "" }
    else record { cert_dir = path; cert_name = name; key_name = key_name }

unfoldable pub webhook_options : Flags → WebhookOptions
unfolding tls_opts_of cert_files_of
webhook_options flags = record {
  tls_opts = tls_opts_of flags;
  cert_files = cert_files_of flags.webhook_cert_path flags.webhook_cert_name flags.webhook_cert_key;
}

unfoldable pub metrics_options : Flags → MetricsOptions
unfolding tls_opts_of cert_files_of
metrics_options flags = record {
  bind_address = flags.metrics_bind_address;
  secure_serving = flags.metrics_secure;
  tls_opts = tls_opts_of flags;
  filtered = flags.metrics_secure;
  cert_files = cert_files_of flags.metrics_cert_path flags.metrics_cert_name flags.metrics_cert_key;
}

unfoldable pub manager_options : Flags → ManagerOptions
unfolding metrics_options webhook_options
manager_options flags = record {
  metrics = metrics_options flags;
  webhook = webhook_options flags;
  health_probe_bind_address = flags.health_probe_bind_address;
  leader_election = flags.leader_elect;
  leader_election_id = "2ace8d80.ninekube.io";
}

-- What the calls of the manager do to the world.
pub record Runtime (S : Type 0) : Type 0 where
  pub new_manager : ManagerOptions → Exec S (Unit {0})
  pub setup_with_manager : Exec S (Unit {0})
  pub add_healthz_check : Exec S (Unit {0})
  pub add_readyz_check : Exec S (Unit {0})
  pub start : Exec S (Unit {0})

module _ {S : Type 0} where
  -- if err := step; err != nil { setupLog.Error(err, message); os.Exit(1) }
  unfoldable pub exit_if_failed : String → Attempt (Unit {0}) → Exec S (Unit {0})
  exit_if_failed text (got u) = pure tt
  exit_if_failed text (failed e) = raise (wrapped text e)

  unfoldable pub or_exit : String → Exec S (Unit {0}) → Exec S (Unit {0})
  unfolding exit_if_failed
  or_exit text step = do outcome ← attempt step; exit_if_failed text outcome

  -- `main`, from the parsed flags on. An error stands for the exit with the code 1.
  unfoldable pub main : Runtime S → Flags → Exec S (Unit {0})
  unfolding or_exit manager_options
  main r flags = do
    or_exit "Failed to start manager" (r.new_manager (manager_options flags))
    or_exit "Failed to create controller" r.setup_with_manager
    or_exit "Failed to set up health check" r.add_healthz_check
    or_exit "Failed to set up ready check" r.add_readyz_check
    or_exit "Failed to run manager" r.start
