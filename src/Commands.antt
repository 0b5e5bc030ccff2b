-- ===== src/Commands.antt =====
-- cmd: the defaults of the flags, the ports that the mesh command gives to the controller, and the order
-- of work of the commands prepare and cleanup. Loggers and clients are built by libraries.
pub mod Ranges
pub mod Prepared
mod Tests
use maesh.Common.{
  ℕ, ◌-◌, ◌+◌, ◌%◌, ◌^◌, Bool, true, false, String, List, [], ◌∷◌, Option, none, some, ◌==◌, ◌||◌,
  string_eq, if◌then◌else◌, Result, ok, err,
}
use maesh.Common.Int32.{add32}
use maesh.Kube.Versions.{
  SchemeGroups, ApiGroup, Checked, supported, no_groups, unsupported, check_smi_version,
}
use maesh.Controller.Worker.{Config}
use maesh.Dns.{Provider, unknown_dns, core_dns, kube_dns}
use maesh.Dns.Exec.{DnsError, Exec, pure, ◌>>=◌, ◌>>◌}
use maesh.Dns.Client.{
  KubeApi, Libraries, check_dns_provider, configure_core_dns, configure_kube_dns, namespace_system,
}
use maesh.Cleanup.{ServiceApi, clean_shadow_services, restore_dns_config}

-- TraefikMeshConfiguration; int32 flags are bit patterns.
pub record MeshConfiguration : Type 0 where
  pub config_file : String
  pub kube_config : String
  pub master_url : String
  pub log_level : String
  pub log_format : String
  pub debug : Bool
  pub acl : Bool
  pub smi : Bool
  pub default_mode : String
  pub namespace : String
  pub watch_namespaces : List String
  pub ignore_namespaces : List String
  pub api_port : ℕ
  pub api_host : String
  pub limit_http_port : ℕ
  pub limit_tcp_port : ℕ
  pub limit_udp_port : ℕ

-- NewTraefikMeshConfiguration, given the environment's KUBECONFIG.
unfoldable pub new_traefik_mesh_configuration : String → MeshConfiguration
new_traefik_mesh_configuration kube_config = record {
  config_file = "";
  kube_config = kube_config;
  master_url = "";
  log_level = "error";
  log_format = "common";
  debug = false;
  acl = false;
  smi = false;
  default_mode = "http";
  namespace = "maesh";
  watch_namespaces = [];
  ignore_namespaces = [];
  api_port = 9000;
  api_host = "";
  limit_http_port = 10;
  limit_tcp_port = 25;
  limit_udp_port = 25;
}

abbrev pub min_http_port : ℕ
min_http_port = 5000

abbrev pub min_tcp_port : ℕ
min_tcp_port = 10000

abbrev pub min_udp_port : ℕ
min_udp_port = 15000

-- getMaxPort: `min + limit - 1` on int32.
unfoldable pub get_max_port : ℕ → ℕ → ℕ
get_max_port min limit = add32 (add32 min limit) (2 ^ 32 - 1)

-- The controller's configuration in traefikMeshCommand.
unfoldable pub controller_config : MeshConfiguration → Config
unfolding get_max_port
controller_config config = record {
  acl_enabled = config.acl || config.smi;
  default_mode = config.default_mode;
  namespace = config.namespace;
  watch_namespaces = config.watch_namespaces;
  ignore_namespaces = config.ignore_namespaces;
  min_http_port = min_http_port;
  max_http_port = get_max_port min_http_port config.limit_http_port;
  min_tcp_port = min_tcp_port;
  max_tcp_port = get_max_port min_tcp_port config.limit_tcp_port;
  min_udp_port = min_udp_port;
  max_udp_port = get_max_port min_udp_port config.limit_udp_port;
}

-- The formatters that parseLogFormat chooses from.
pub data LogFormat : Type 0 where
  json_format text_format : LogFormat

-- parseLogFormat
unfoldable pub parse_log_format : String → Option LogFormat
parse_log_format format =
    if format == "json"
    then some json_format
    else if format == "common"
    then some text_format
    else none

-- NewLogger: `parse_level` is logrus' ParseLevel; `none` is an error.
unfoldable pub new_logger :
    {Level : Type 0} → (String → Option Level) → String → String → Bool → Option (Level × LogFormat)
unfolding parse_log_format
new_logger parse_level format level debug = elim (parse_level (if debug then "debug" else level)) [
  | none ↦ none
  | some log_level ↦ elim (parse_log_format format) [
    | none ↦ none
    | some log_format ↦ some (log_level, log_format)
  ]
]

-- PrepareConfiguration
pub record PrepareConfiguration : Type 0 where
  pub config_file : String
  pub kube_config : String
  pub master_url : String
  pub log_level : String
  pub log_format : String
  pub debug : Bool
  pub namespace : String
  pub cluster_domain : String
  pub smi : Bool
  pub acl : Bool

-- NewPrepareConfiguration
unfoldable pub new_prepare_configuration : String → PrepareConfiguration
new_prepare_configuration kube_config = record {
  config_file = "";
  kube_config = kube_config;
  master_url = "";
  log_level = "error";
  log_format = "common";
  debug = false;
  namespace = "maesh";
  cluster_domain = "cluster.local";
  smi = false;
  acl = false;
}

pub data CommandError : Type 0 where
  bad_logger no_client bad_smi_version : CommandError
  dns_error : DnsError → CommandError

-- What a command builds before its work: the logger and the clients, each of which may fail.
pub record Started : Type 0 where
  pub logger : Bool
  pub clients : Bool

abbrev pub wrapped : {S A : Type 0} → Result DnsError A × S → Result CommandError A × S
wrapped (ok a, s) = (ok a, s)
wrapped (err e, s) = (err (dns_error e), s)

module _ (api : KubeApi) (lib : Libraries api.State) where
  -- The `switch` of prepareCommand, with the UUIDs of the restarts.
  unfoldable pub configure_provider :
      String → String → PrepareConfiguration → Provider → Exec api.State Unit
  configure_provider uuid uuid' config unknown_dns = pure tt
  configure_provider uuid uuid' config core_dns =
      configure_core_dns api lib uuid namespace_system config.cluster_domain config.namespace
  configure_provider uuid uuid' config kube_dns =
      configure_kube_dns api lib uuid uuid' config.cluster_domain config.namespace

  -- prepareCommand
  unfoldable pub prepare_command :
      String
      → String
      → Started
      → SchemeGroups
      → Option (List ApiGroup)
      → PrepareConfiguration
      → api.State
      → Result {0, 0} CommandError Unit × api.State
  unfolding configure_provider
  prepare_command uuid uuid' started scheme groups config s =
      if started.logger
      then if started.clients
        then elim (check_smi_version scheme groups (config.acl || config.smi)) [
          | no_groups ↦ (err bad_smi_version, s)
          | unsupported _ ↦ (err bad_smi_version, s)
          | supported ↦ wrapped (
              (do
                provider ← check_dns_provider api lib
                configure_provider uuid uuid' config provider)
                s)
        ]
        else (err no_client, s)
      else (err bad_logger, s)

  -- cleanupCommand
  unfoldable pub cleanup_command :
      String
      → Started
      → ServiceApi api.State
      → String
      → api.State
      → Result {0, 0} CommandError Unit × api.State
  cleanup_command uuid started services namespace s =
      if started.logger
      then if started.clients
        then wrapped
            ((do clean_shadow_services api services namespace; restore_dns_config api lib uuid) s)
        else (err no_client, s)
      else (err bad_logger, s)
