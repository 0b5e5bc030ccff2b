-- ===== src/Api/Tests.antt =====
-- Runs of the API.
use maesh.Common.{
  Bool, if◌then◌else◌, true, false, String, List, [], ◌∷◌, ◌≡◌, ◌↔◌, Option, none, some,
}
use maesh.Kube.{found, missing, failed}
use maesh.Provider.Dynamic.{Configuration, new_default_dynamic_config}
use maesh.Topology.{Topology, new_topology}
use maesh.Api.{
  Api, MeshPod, Payload, of_configuration, of_topology, of_readiness, of_nodes, PodInfo, fetched,
  error, respond, get_mesh_nodes, get_mesh_node_configuration, get_readiness,
  get_current_configuration, get_current_topology, get,
}
use maesh.Api.Nodes.{
  DescribesAll, NodeBody, get_mesh_nodes-Describes, get_readiness-after_settings, Setting,
  ready_set, config_set, topology_set, as_ready, as_config, as_topology, LastSet, after_settings,
  get_mesh_node_configuration_iff,
}

abbrev encode : Payload → Option String
encode (of_readiness ready) = some "true"
encode _ = some "{}"

abbrev pods : List MeshPod
pods =
    record { name = "a"; pod_ip = "10.1.0.1"; container_ready = true ∷ false ∷ [] }
    ∷ record { name = "b"; pod_ip = "10.1.0.2"; container_ready = true ∷ [] }
    ∷ []

get_mesh_nodes-Describes_example :
    (get_mesh_nodes encode none ≡ error 500)
    × ((infos : List PodInfo) × DescribesAll pods infos
        × (get_mesh_nodes encode (some pods) ≡ respond (encode (of_nodes infos))))
get_mesh_nodes-Describes_example = get_mesh_nodes-Describes encode pods

abbrev api : Api
api = record {
  readiness = record { value = false };
  configuration = record { value = new_default_dynamic_config };
  topology = record { value = new_topology };
  namespace = "maesh";
}

-- The start of the controller, and one item of work.
abbrev settings : List Setting
settings = ready_set true ∷ topology_set new_topology ∷ config_set new_default_dynamic_config ∷ []

get_readiness-after_settings_example :
    (ready : Bool) × (cfg : Configuration) × (topo : Topology) × LastSet as_ready
      (get api.readiness)
      settings
      ready
    × LastSet as_config (get api.configuration) settings cfg
    × LastSet as_topology (get api.topology) settings topo
    × (get_readiness encode (after_settings settings api)
        ≡ (if ready then respond (encode (of_readiness true)) else error 500))
    × (get_current_configuration encode (after_settings settings api)
        ≡ respond (encode (of_configuration cfg)))
    × (get_current_topology encode (after_settings settings api)
        ≡ respond (encode (of_topology topo)))
get_readiness-after_settings_example = get_readiness-after_settings encode settings api

abbrev pod : MeshPod
pod = record { name = "b"; pod_ip = "10.1.0.2"; container_ready = true ∷ [] }

get_mesh_node_configuration_iff_example :
    ((get_mesh_node_configuration (λ url. fetched url) (found pod)
        ≡ record { status = 200; body = "http://10.1.0.2:8080/api/rawdata" })
      ↔ NodeBody (λ url. fetched url) (found pod) "http://10.1.0.2:8080/api/rawdata")
    × (((get_mesh_node_configuration (λ url. fetched url) (found pod)).status ≡ 404)
        ↔ (found pod ≡ missing))
    × (((get_mesh_node_configuration (λ url. fetched url) (found pod)).status ≡ 500)
        ↔ (found pod ≡ failed))
get_mesh_node_configuration_iff_example =
    get_mesh_node_configuration_iff (λ url. fetched url) (found pod)
      "http://10.1.0.2:8080/api/rawdata"
