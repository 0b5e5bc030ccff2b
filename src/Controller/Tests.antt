-- ===== src/Controller/Tests.antt =====
-- Runs of the state tables and of the shadow service manager on a small mesh.
use maesh.Common.{
  ℕ, String, List, [], ◌∷◌, ◌++◌, ◌≡◌, ◌≢◌, ◌↔◌, inl, refl, some, none, ok, All, Unique, arith,
  lookup, insert, nat_eq, true, false,
}
use maesh.Common.Text.{concat, has_infix, cut, cut_last, strip_prefix}
use maesh.Kube.{Service, ServicePort, found, from_int, protocol_tcp}
use maesh.Annotations.{get_traffic_type}
use maesh.Controller.PortMapping.{PortMapping, MappedPort, allocated, no_port, find, add, new}
use maesh.Controller.PortMapping.Add.{Allocates, add-Allocates}
use maesh.Controller.PortMapping.Find.{IsValid, mapped_port, find-eq-some_iff}
use maesh.Controller.PortMapping.Load.{
  load_state, load_service, load_ports, match_here, separator, parse_service_namespace_and_name,
}
use maesh.Controller.PortMapping.Restore.{load_state-Listed, Listed}
use maesh.Controller.Shadow.{
  Manager, get_mapped_port, get_target_port, is_port_suitable, shadow_ports,
  get_shadow_service_name, get_shadow_service_ports, create_or_update, delete_shadow,
}
use maesh.Controller.Worker.{Config}
use maesh.Controller.Worker.Entrypoints.{HasEntrypoint, get_shadow_service_ports-HasEntrypoint}
use maesh.Controller.Shadow.Names.{parse-get_shadow_service_name}
use maesh.Controller.Shadow.Ports.{get_shadow_service_ports-IsRouted, IsRouted}
use maesh.Controller.Shadow.Release.{delete_shadow-IsReleased, IsReleased}
use maesh.Controller.Shadow.State.{
  IsSound, IsReady, IsMapped, get_mapped_port-IsMapped, create_or_update-IsReady,
}

-- A range of two ports, the first of which the service "web" holds.
abbrev ports : PortMapping
ports = record {
  namespace = "maesh";
  min_port = 10000;
  max_port = 10001;
  table = (10000, mapped_port "apps" "web" 80) ∷ [];
}

ports-IsValid : IsValid ports
unfolding lookup
ports-IsValid = record {
  unique = ground arith;
  single = λ q r v e e'. ground arith;
  ranged = λ q v e. ground arith;
}

ports-IsSound : IsSound ports
ports-IsSound = record {
  valid = ports-IsValid;
  bounded = record { low = omega arith; high = omega arith };
}

-- The second service gets the second port; then the range is full.
abbrev full : PortMapping
full = record ports { table = ports.table ++ (10001, mapped_port "apps" "db" 5432) ∷ [] }

add_tests :
    (add ports "apps" "db" 5432 ≡ allocated 10001 full)
    × (add full "apps" "mail" 25 ≡ no_port)
    × (find full "apps" "db" 5432 ≡ some 10001)
unfolding add find insert lookup
add_tests = (refl, refl, refl)

add-Allocates_example :
    Allocates ports (mapped_port "apps" "db" 5432) 10000 (add ports "apps" "db" 5432)
add-Allocates_example = add-Allocates ports "apps" "db" 5432 (omega arith) (omega arith)

find-eq-some_iff_example :
    (find ports "apps" "web" 80 ≡ some 10000)
    ↔ (lookup 10000 ports.table ≡ some (mapped_port "apps" "web" 80))
find-eq-some_iff_example = find-eq-some_iff "apps" "web" 80 ports 10000 ports-IsValid

mapped : get_mapped_port ports "db" "apps" 5432 ≡ some (10001, full)
unfolding get_mapped_port find add insert lookup
mapped = refl

get_mapped_port-IsMapped_example : IsMapped ports "apps" "db" 5432 10001 full
get_mapped_port-IsMapped_example =
    get_mapped_port-IsMapped ports "db" "apps" 5432 ports-IsSound mapped

abbrev manager : Manager
manager = record {
  namespace = "maesh";
  default_traffic_type = "tcp";
  min_http_port = 5000;
  max_http_port = 5010;
  tcp = ports;
  udp = ports;
}

manager-IsReady : IsReady manager
manager-IsReady = record { tcp_sound = ports-IsSound; udp_sound = ports-IsSound }

abbrev tcp_port : ℕ → ℕ → ServicePort
tcp_port port target = record {
  name = "p";
  protocol = protocol_tcp;
  port = port;
  target_port = from_int target;
}

abbrev with_ports : String → String → List ServicePort → Service
with_ports namespace name sps = record {
  name = name;
  namespace = namespace;
  labels = [];
  annotations = [];
  type = "ClusterIP";
  selector = [];
  ports = sps;
  cluster_ip = "10.0.0.1";
  topology_keys = [];
}

-- The service "web" now also has the port 81; its shadow service has the port 80.
abbrev web : Service
web = with_ports "apps" "web" (tcp_port 80 8080 ∷ tcp_port 81 8081 ∷ [])

abbrev shadow_web : Service
shadow_web = with_ports "maesh" "maesh-web-6d61657368-apps" (tcp_port 80 10000 ∷ [])

create_or_update-IsReady_example :
    IsReady (create_or_update (found shadow_web) true web manager).1
    × IsReady (delete_shadow (found shadow_web) "apps" "web" manager).1
create_or_update-IsReady_example =
    create_or_update-IsReady (found shadow_web) true web manager manager-IsReady

-- The new port gets the second mesh port.
abbrev manager' : Manager
manager' = record manager {
  tcp = record ports { table = ports.table ++ (10001, mapped_port "apps" "web" 81) ∷ [] };
}

abbrev routed : List ServicePort
routed = tcp_port 80 10000 ∷ tcp_port 81 10001 ∷ []

routed_eq : get_shadow_service_ports web manager ≡ (some routed, manager')
unfolding get_shadow_service_ports get_traffic_type lookup find add insert shadow_ports
    is_port_suitable get_target_port get_mapped_port
routed_eq = refl

web_type : get_traffic_type manager.default_traffic_type web.annotations ≡ ok "tcp"
unfolding get_traffic_type lookup
web_type = refl

get_shadow_service_ports-IsRouted_example : All (IsRouted "tcp" web manager') routed
get_shadow_service_ports-IsRouted_example =
    get_shadow_service_ports-IsRouted web manager "tcp" manager-IsReady web_type routed_eq

delete_shadow-IsReleased_example :
    IsReleased "apps" "web"
      (tcp_port 80 10000)
      (delete_shadow (found shadow_web) "apps" "web" manager).1
delete_shadow-IsReleased_example =
    delete_shadow-IsReleased shadow_web "apps" "web" manager (tcp_port 80 10000) manager-IsReady
      (inl refl) refl (inl refl)

apps-plain : has_infix (concat ("6d61657368-" ∷ "apps" ∷ [])) separator ≡ false
unfolding has_infix cut strip_prefix
apps-plain = refl

parse-get_shadow_service_name_example :
    parse_service_namespace_and_name "maesh" (get_shadow_service_name "maesh" "apps" "web")
    ≡ some ("apps", "web")
parse-get_shadow_service_name_example =
    parse-get_shadow_service_name "maesh" "apps" "web" apps-plain

loaded : load_state (new "maesh" 10000 10001) (some (shadow_web ∷ [])) ≡ some ports
unfolding load_state new parse_service_namespace_and_name insert lookup load_service match_here
    strip_prefix cut_last load_ports
loaded = refl

load_state-Listed_example :
    Unique ports.table
    × ((q : ℕ) (v : MappedPort)
        → lookup q ports.table ≡ some v
        → Listed (new "maesh" 10000 10001) (shadow_web ∷ []) q v)
    × ((q : ℕ) (v : MappedPort)
        → Listed (new "maesh" 10000 10001) (shadow_web ∷ []) q v
        → lookup q ports.table ≢ none)
load_state-Listed_example = load_state-Listed "maesh" 10000 10001 (shadow_web ∷ []) loaded

abbrev config : Config
config = record {
  acl_enabled = false;
  default_mode = "tcp";
  namespace = "maesh";
  watch_namespaces = [];
  ignore_namespaces = [];
  min_http_port = 5000;
  max_http_port = 5010;
  min_tcp_port = 10000;
  max_tcp_port = 10001;
  min_udp_port = 10000;
  max_udp_port = 10001;
}

get_shadow_service_ports-HasEntrypoint_example :
    All (HasEntrypoint config manager' web "tcp") routed
get_shadow_service_ports-HasEntrypoint_example =
    get_shadow_service_ports-HasEntrypoint config web manager "tcp" manager-IsReady
      (record { min_same = refl; max_same = refl }) web_type routed_eq
