-- ===== src/Topology/Types.antt =====
-- pkg/topology/topology.go: the nodes of the graph. Errors are values of `BuildError`, one constructor
-- for each message, in place of the formatted texts.
use maesh.Common.{
  ℕ, Bool, true, String, List, [], ◌∷◌, ◌++◌, Option, none, some, ◌≡◌, ◌↔◌, ◌==◌, ◌&&◌, Comparable,
  arith, eq_iff, string_eq, nat_eq, if◌then◌else◌,
}
use maesh.Kube.{ServicePort, ContainerPort, int_type, string_type, IntOrStringType}
use maesh.Kube.Smi.{HttpRouteGroup, TcpRoute, HttpMatch}

pub record Key : Type 0 where
  pub name : String
  pub namespace : String

abbrev pub key : String → String → Key
key name namespace = record { name = name; namespace = namespace }

abbrev pub key_beq : Key → Key → Bool
key_beq a b = a.name == b.name && a.namespace == b.namespace

pub key_beq_iff : (a b : Key) → (key_beq a b ≡ true) ↔ (a ≡ b)
key_beq_iff a b = ground (arith, eq_iff a.name b.name, eq_iff a.namespace b.namespace)

instance abbrev pub key_eq : Comparable Key
key_eq = record { same = key_beq; same_iff = key_beq_iff }

pub record ServiceTrafficTargetKey : Type 0 where
  pub service : Key
  pub traffic_target : Key

abbrev pub target_key_beq : ServiceTrafficTargetKey → ServiceTrafficTargetKey → Bool
target_key_beq a b = key_beq a.service b.service && key_beq a.traffic_target b.traffic_target

pub target_key_beq_iff : (a b : ServiceTrafficTargetKey) → (target_key_beq a b ≡ true) ↔ (a ≡ b)
target_key_beq_iff a b =
    ground (arith, key_beq_iff a.service b.service, key_beq_iff a.traffic_target b.traffic_target)

instance abbrev pub target_key_eq : Comparable ServiceTrafficTargetKey
target_key_eq = record { same = target_key_beq; same_iff = target_key_beq_iff }

pub data BuildError : Type 0 where
  no_service no_root_service no_backend_service no_traffic_split no_traffic_target :
      Key → BuildError
  no_target : ServiceTrafficTargetKey → BuildError
  no_http_route_group no_tcp_route : Key → BuildError
  no_match : String → Key → BuildError
  unknown_spec : String → BuildError
  port_not_exposed : ℕ → BuildError
  destination_port_not_exposed : ℕ → Key → BuildError
  circular_reference : Key → Key → BuildError
  load_failed : BuildError
  -- Those that the provider adds.
  unknown_traffic_type : String → BuildError
  too_many_http_entrypoints : BuildError
  port_not_found : BuildError
  bad_annotations : BuildError

-- TrafficSpec
pub record TrafficSpec : Type 0 where
  pub http_route_group : Option HttpRouteGroup
  pub tcp_route : Option TcpRoute
  pub http_matches : List HttpMatch

-- Service
pub record Service : Type 0 where
  pub name : String
  pub namespace : String
  pub selector : List (String × String)
  pub annotations : List (String × String)
  pub ports : List ServicePort
  pub cluster_ip : String
  pub pods : List Key
  pub traffic_targets : List ServiceTrafficTargetKey
  pub traffic_splits : List Key
  pub backend_of : List Key
  pub errors : List BuildError

-- ServiceTrafficTargetSource
pub record Source : Type 0 where
  pub service_account : String
  pub namespace : String
  pub pods : List Key

-- ServiceTrafficTargetDestination
pub record Destination : Type 0 where
  pub service_account : String
  pub namespace : String
  pub ports : List ServicePort
  pub pods : List Key

-- ServiceTrafficTarget
pub record ServiceTrafficTarget : Type 0 where
  pub service : Key
  pub name : String
  pub namespace : String
  pub sources : List Source
  pub destination : Destination
  pub rules : List TrafficSpec
  pub errors : List BuildError

-- Pod
pub record Pod : Type 0 where
  pub name : String
  pub namespace : String
  pub service_account : String
  pub owner_references : List String
  pub container_ports : List ContainerPort
  pub ip : String
  pub source_of : List ServiceTrafficTargetKey
  pub destination_of : List ServiceTrafficTargetKey

-- TrafficSplitBackend
pub record Backend : Type 0 where
  pub weight : ℕ
  pub service : Key

-- TrafficSplit
pub record TrafficSplit : Type 0 where
  pub name : String
  pub namespace : String
  pub service : Key
  pub backends : List Backend
  pub rules : List TrafficSpec
  pub incoming : List Key
  pub errors : List BuildError

-- Topology. Each node is reached through its map alone, so a write through a pointer is a write to
-- the entry of its key.
pub record Topology : Type 0 where
  pub services : List (Key × Service)
  pub pods : List (Key × Pod)
  pub service_traffic_targets : List (ServiceTrafficTargetKey × ServiceTrafficTarget)
  pub traffic_splits : List (Key × TrafficSplit)

-- NewTopology
unfoldable pub new_topology : Topology
new_topology = record {
  services = [];
  pods = [];
  service_traffic_targets = [];
  traffic_splits = [];
}

-- The AddError methods of the three kinds of node.
abbrev pub add_service_error : BuildError → Service → Service
add_service_error e s = record s { errors = s.errors ++ e ∷ [] }

abbrev pub add_target_error : BuildError → ServiceTrafficTarget → ServiceTrafficTarget
add_target_error e tt' = record tt' { errors = tt'.errors ++ e ∷ [] }

abbrev pub add_split_error : BuildError → TrafficSplit → TrafficSplit
add_split_error e ts = record ts { errors = ts.errors ++ e ∷ [] }

-- The loop of ResolveServicePort over the ports of the containers.
unfoldable pub resolve_named : ServicePort → List ContainerPort → Option ℕ
resolve_named svc_port [] = none
resolve_named svc_port (c ∷ cs) =
    if svc_port.target_port.str_val == c.name && svc_port.protocol == c.protocol
    then some c.container_port
    else resolve_named svc_port cs

abbrev resolve_type : IntOrStringType → ServicePort → List ContainerPort → Option ℕ
resolve_type int_type svc_port cs = some svc_port.target_port.int_val
resolve_type string_type svc_port cs = resolve_named svc_port cs

-- ResolveServicePort
unfoldable pub resolve_service_port : ServicePort → List ContainerPort → Option ℕ
unfolding resolve_named
resolve_service_port svc_port cs = resolve_type svc_port.target_port.type svc_port cs
