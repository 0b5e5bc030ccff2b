-- ===== src/Commands/Tests.antt =====
-- Runs of the commands.
use maesh.Common.{
  ℕ, true, false, String, List, [], ◌∷◌, none, some, ◌≡◌, ◌↔◌, refl, arith, ◌==◌, string_eq,
  if◌then◌else◌,
}
use maesh.Kube.{found, missing}
use maesh.Kube.Versions.{
  SchemeGroups, ApiGroup, check_smi_version, supported, IsAccepted, check_smi_version_iff,
}
use maesh.Api.{Api}
use maesh.Provider.Dynamic.{new_default_dynamic_config}
use maesh.Topology.{new_topology}
use maesh.Controller.Shadow.State.{IsReady}
use maesh.Controller.Worker.{new_mesh_controller}
use maesh.Controller.Worker.Entrypoints.{SameRange}
use maesh.Dns.Client.{KubeApi, Libraries, Deployment, ConfigMap}
use maesh.Commands.{
  MeshConfiguration, new_traefik_mesh_configuration, controller_config, get_max_port,
  new_prepare_configuration, prepare_command,
}
use maesh.Commands.Ranges.{IsLimited, IsSeparate, controller_config-IsReady}

abbrev defaults : MeshConfiguration
defaults = new_traefik_mesh_configuration ""

defaults-IsLimited : IsLimited defaults
unfolding new_traefik_mesh_configuration
defaults-IsLimited = record {
  http_some = omega arith;
  http_few = omega arith;
  tcp_some = omega arith;
  tcp_few = omega arith;
  udp_some = omega arith;
  udp_few = omega arith;
}

abbrev store : Api
store = record {
  readiness = record { value = false };
  configuration = record { value = new_default_dynamic_config };
  topology = record { value = new_topology };
  namespace = "maesh";
}

controller_config-IsReady_example :
    IsSeparate defaults (controller_config defaults)
    × IsReady (new_mesh_controller {Queue = ℕ} (controller_config defaults) 0 store).manager
    × SameRange
        (controller_config defaults)
        (new_mesh_controller {Queue = ℕ} (controller_config defaults) 0 store).manager
controller_config-IsReady_example =
    controller_config-IsReady {Queue = ℕ} defaults 0 store defaults-IsLimited

-- The greatest ports under the default limits.
max_ports : (get_max_port 5000 10 ≡ 5009) × (get_max_port 10000 25 ≡ 10024)
unfolding get_max_port
max_ports = (refl, refl)

abbrev scheme : SchemeGroups
scheme = record {
  split = record { group = "split.smi-spec.io"; version = "v1alpha3" };
  specs = record { group = "specs.smi-spec.io"; version = "v1alpha3" };
  access = record { group = "access.smi-spec.io"; version = "v1alpha2" };
}

abbrev groups : List ApiGroup
groups =
    record { name = "split.smi-spec.io"; preferred = "v1alpha3" }
    ∷ record { name = "specs.smi-spec.io"; preferred = "v1alpha3" }
    ∷ []

check_smi_version_iff_example :
    (check_smi_version scheme (some groups) false ≡ supported)
    ↔ IsAccepted scheme (some groups) false
check_smi_version_iff_example = check_smi_version_iff scheme (some groups) false

abbrev deployment : Deployment
deployment = record {
  name = "coredns";
  namespace = "kube-system";
  containers = record { name = "coredns"; image = "coredns:1.7.0" } ∷ [];
  volumes = some (record { name = "coredns"; optional = none }) ∷ [];
  template_annotations = [];
}

abbrev api : KubeApi
api = record {
  State = ConfigMap;
  get_deployment = λ namespace name s. if name == "coredns" then found deployment else missing;
  update_deployment = λ d s. some s;
  get_config_map = λ namespace name s. if name == "coredns" then found s else missing;
  create_config_map = λ cm s. some (cm, cm);
  update_config_map = λ cm s. some cm;
  cluster_ip = λ namespace name s. found "10.0.0.10";
}

abbrev libraries : Libraries ConfigMap
libraries = record {
  Version = String;
  new_version = λ tag. some tag;
  is_supported = λ version. true;
  is_below_1_7 = λ version. false;
  unmarshal = λ text. some [];
  marshal = λ domains. "{}";
  retry = λ n operation. operation;
}

abbrev corefile : ConfigMap
corefile = record { name = "coredns"; namespace = "kube-system"; entries = ("Corefile", "") ∷ [] }

abbrev prepared : ConfigMap
prepared =
    (prepare_command api libraries "a" "b" (record { logger = true; clients = true }) scheme
      (some groups) (new_prepare_configuration "") corefile).1
