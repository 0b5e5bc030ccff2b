-- ===== src/Controller/Shadow.antt =====
-- pkg/controller/service.go: the shadow services, and the mesh ports that they hold.
pub mod State
pub mod Ports
pub mod Release
pub mod Names
use maesh.Common.{
  ℕ, suc, ◌+◌, ◌%◌, ◌^◌, Bool, true, false, not, String, List, [], ◌∷◌, ◌++◌, Option, none, some,
  ◌==◌, ◌&&◌, ◌||◌, if◌then◌else◌, Result, ok, err, nat_eq, string_eq,
}
use maesh.Common.Text.{concat}
use maesh.Common.Int32.{add32, le32}
use maesh.Kube.{
  Service, ServicePort, IntOrString, from_int, target_beq, protocol_tcp, protocol_udp, Lookup,
  found, missing, failed,
}
use maesh.Annotations.{get_traffic_type, service_type_http, service_type_tcp, service_type_udp}
use maesh.Controller.PortMapping.{PortMapping, Allocation, allocated, no_port, out_of_fuel}
use maesh.Controller.PortMapping

-- ShadowServiceManager, with the state tables that it shares with the provider.
pub record Manager : Type 0 where
  pub namespace : String
  pub default_traffic_type : String
  pub min_http_port : ℕ
  pub max_http_port : ℕ
  pub tcp : PortMapping
  pub udp : PortMapping

-- getShadowServiceName
unfoldable pub get_shadow_service_name : String → String → String → String
get_shadow_service_name mesh namespace name =
    concat (mesh ∷ "-" ∷ name ∷ "-6d61657368-" ∷ namespace ∷ [])

-- isPortSuitable
unfoldable pub is_port_suitable : String → ServicePort → Bool
is_port_suitable traffic_type sp =
    if traffic_type == service_type_udp
    then sp.protocol == protocol_udp
    else if traffic_type == service_type_tcp || traffic_type == service_type_http
    then sp.protocol == protocol_tcp
    else false

-- containsPort
unfoldable pub contains_port : List ServicePort → ServicePort → Bool
contains_port [] port = false
contains_port (one ∷ ports) port =
    (one.port == port.port && one.protocol == port.protocol) || contains_port ports port

-- needsCleanup
unfoldable pub needs_cleanup : List ServicePort → ServicePort → Bool
needs_cleanup [] port = true
needs_cleanup (one ∷ ports) port =
    if one.port == port.port
      && one.protocol == port.protocol
      && target_beq one.target_port port.target_port
    then false
    else needs_cleanup ports port

-- Remove on a state table: an error is logged, and the table stays.
abbrev pub or_same : PortMapping → Option (ℕ × PortMapping) → PortMapping
or_same p none = p
or_same p (some (_, p')) = p'

-- removeServicePortMapping
unfoldable pub remove_service_port_mapping : String → String → ServicePort → Manager → Manager
remove_service_port_mapping namespace name sp s =
    if le32 sp.target_port.int_val s.max_http_port
    then s
    else if sp.protocol == protocol_tcp
    then record s { tcp = or_same s.tcp (PortMapping.remove s.tcp namespace name sp.port) }
    else if sp.protocol == protocol_udp
    then record s { udp = or_same s.udp (PortMapping.remove s.udp namespace name sp.port) }
    else s

-- The loop of cleanupPortMappings, over the ports of the old shadow service.
unfoldable pub cleanup_port_mappings :
    String → String → List ServicePort → List ServicePort → Manager → Manager
cleanup_port_mappings namespace name [] new_ports s = s
cleanup_port_mappings namespace name (old ∷ olds) new_ports s =
    cleanup_port_mappings namespace name olds new_ports
      (if needs_cleanup new_ports old then remove_service_port_mapping namespace name old s else s)

-- The loop of removeUnusedPortMappings, over the ports of the current shadow service.
unfoldable pub remove_unused : Service → List ServicePort → Manager → Manager
remove_unused svc [] s = s
remove_unused svc (sp ∷ sps) s = remove_unused svc sps (
    if contains_port svc.ports sp
    then s
    else remove_service_port_mapping svc.namespace svc.name sp s)

-- removeUnusedPortMappings; `none` is a shadow service that does not exist.
unfoldable pub remove_unused_port_mappings : Option Service → Service → Manager → Manager
unfolding remove_unused
remove_unused_port_mappings none svc s = s
remove_unused_port_mappings (some shadow) svc s = remove_unused svc shadow.ports s

-- getMappedPort. `Add` does not run out of its rounds (PortMapping.Add).
unfoldable pub get_mapped_port : PortMapping → String → String → ℕ → Option (ℕ × PortMapping)
get_mapped_port table name namespace port = elim (PortMapping.find table namespace name port) [
  | some mapped ↦ some (mapped, table)
  | none ↦ (elim (PortMapping.add table namespace name port) [
    | allocated mapped table' ↦ some (mapped, table')
    | no_port ↦ none
    | out_of_fuel ↦ none
  ])
]

-- getHTTPPort: `int32(portID)` keeps the low 32 bits.
unfoldable pub get_http_port : Manager → ℕ → Option ℕ
get_http_port s port_id =
    if le32 (add32 s.min_http_port (port_id % 2 ^ 32)) s.max_http_port
    then some (add32 s.min_http_port (port_id % 2 ^ 32))
    else none

abbrev pub with_tcp : Manager → Option (ℕ × PortMapping) → Option (ℕ × Manager)
with_tcp s none = none
with_tcp s (some (port, table)) = some (port, record s { tcp = table })

abbrev pub with_udp : Manager → Option (ℕ × PortMapping) → Option (ℕ × Manager)
with_udp s none = none
with_udp s (some (port, table)) = some (port, record s { udp = table })

abbrev pub with_http : Manager → Option ℕ → Option (ℕ × Manager)
with_http s none = none
with_http s (some port) = some (port, s)

-- getTargetPort
unfoldable pub get_target_port : Manager → String → ℕ → String → String → ℕ → Option (ℕ × Manager)
get_target_port s traffic_type port_id name namespace port =
    if traffic_type == service_type_http
    then with_http s (get_http_port s port_id)
    else if traffic_type == service_type_tcp
    then with_tcp s (get_mapped_port s.tcp name namespace port)
    else if traffic_type == service_type_udp
    then with_udp s (get_mapped_port s.udp name namespace port)
    else none

abbrev pub shadow_port : ServicePort → ℕ → ServicePort
shadow_port sp target = record sp { target_port = from_int target }

-- The loop of getShadowServicePorts from index `i`; `out` holds the ports so far.
unfoldable pub shadow_ports :
    String
    → Service
    → ℕ
    → List ServicePort
    → List ServicePort
    → Manager
    → List ServicePort × Manager
shadow_ports traffic_type svc i [] out s = (out, s)
shadow_ports traffic_type svc i (sp ∷ sps) out s =
    let skipped = shadow_ports traffic_type svc (suc i) sps out s in
    if is_port_suitable traffic_type sp
    then (elim (get_target_port s traffic_type i svc.name svc.namespace sp.port) [
      | none ↦ skipped
      | some (target, s') ↦
          shadow_ports traffic_type svc (suc i) sps (out ++ shadow_port sp target ∷ []) s'
    ])
    else skipped

-- getShadowServicePorts; `none` is an unsupported traffic type.
unfoldable pub get_shadow_service_ports : Service → Manager → Option (List ServicePort) × Manager
get_shadow_service_ports svc s = elim (get_traffic_type s.default_traffic_type svc.annotations) [
  | err _ ↦ (none, s)
  | ok traffic_type ↦
      let (ports, s') = shadow_ports traffic_type svc 0 svc.ports [] s in (some ports, s')
]

-- What the manager asks of the Kubernetes API, or the error with which it stops before.
pub data Action : Type 0 where
  create update : Service → Action
  delete : String → Action
  nothing : Action
  get_failed ports_failed : Action

abbrev pub hostname_first : List String
hostname_first =
    "kubernetes.io/hostname" ∷ "topology.kubernetes.io/zone" ∷ "topology.kubernetes.io/region" ∷ "*"
    ∷ []

-- The service that CreateOrUpdate builds; `supported` says that the server's version was read and is
-- at least 1.17.
abbrev pub new_shadow_service : Manager → Bool → Service → List ServicePort → Service
new_shadow_service s supported svc ports = record {
  name = get_shadow_service_name s.namespace svc.namespace svc.name;
  namespace = s.namespace;
  labels = ("app", "maesh") ∷ ("type", "shadow") ∷ [];
  annotations = [];
  type = "";
  selector = ("component", "maesh-mesh") ∷ [];
  ports = ports;
  cluster_ip = "";
  topology_keys = if supported then hostname_first else [];
}

-- CreateOrUpdate behind the lister's answer.
finish_create_or_update :
    Option Service → Bool → Service → Option (List ServicePort) × Manager → Action × Manager
finish_create_or_update shadow supported svc (none, s) = (ports_failed, s)
finish_create_or_update none supported svc (some ports, s) =
    (create (new_shadow_service s supported svc ports), s)
finish_create_or_update (some old) supported svc (some ports, s) =
    let new = new_shadow_service s supported svc ports in
    (
      update (record old { ports = ports; topology_keys = new.topology_keys }),
      cleanup_port_mappings svc.namespace svc.name old.ports ports s,
    )

-- CreateOrUpdate
unfoldable pub create_or_update : Lookup Service → Bool → Service → Manager → Action × Manager
unfolding finish_create_or_update
create_or_update failed supported svc s = (get_failed, s)
create_or_update missing supported svc s =
    finish_create_or_update none supported svc
      (get_shadow_service_ports svc (remove_unused_port_mappings none svc s))
create_or_update (found shadow) supported svc s =
    finish_create_or_update (some shadow) supported svc
      (get_shadow_service_ports svc (remove_unused_port_mappings (some shadow) svc s))

-- The loop of Delete.
unfoldable pub remove_all : String → String → List ServicePort → Manager → Manager
remove_all namespace name [] s = s
remove_all namespace name (sp ∷ sps) s =
    remove_all namespace name sps (remove_service_port_mapping namespace name sp s)

-- Delete, given the lister's answer for the shadow service.
unfoldable pub delete_shadow : Lookup Service → String → String → Manager → Action × Manager
unfolding remove_all
delete_shadow missing namespace name s = (nothing, s)
delete_shadow failed namespace name s = (get_failed, s)
delete_shadow (found shadow) namespace name s = (
  delete (get_shadow_service_name s.namespace namespace name),
  remove_all namespace name shadow.ports s,
)
