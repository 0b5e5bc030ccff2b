-- ===== src/Provider/Tests.antt =====
-- Runs of the provider on a traffic target with two ports, whose service backs a traffic split.
use maesh.Common.{
  ℕ, ◌+◌, ◌<◌, [], ◌∷◌, none, some, inl, inr, sym, subst, refl, ◌≡◌, lookup, ok, true, arith,
  string_eq,
}
use maesh.Common.Text.{count_infix, strip_prefix}
use maesh.Kube.{ServicePort, from_int, protocol_tcp}
use maesh.Topology.{
  key, target_key_eq, Service, ServiceTrafficTarget, ServiceTrafficTargetKey, new_topology,
}
use maesh.Annotations.{service_type_http}
use maesh.Provider.Build.{build_acl_config, build_config}
use maesh.Provider.Build.Keys.{SameKeys}
use maesh.Provider.Build.Total.{IsLinked, build_config-SameKeys}
use maesh.Provider.Build.Opened.{Closed}
use maesh.Provider.Build.Closed.{Held, build_acl_config-Closed}
use maesh.Provider.Dynamic.{new_default_dynamic_config}
use maesh.Provider.Rule.{get_rule_priority}
use maesh.Provider.Rule.Priority.{get_rule_priority_lt}
use maesh.Provider.Servers.{Provider, priority_service, priority_traffic_split}
use maesh.Provider.Services.{Run, build_block_all_routers}
use maesh.Provider.Services.Blocked.{Blocks, BlocksOnly, build_block_all_routers-Blocks}

abbrev provider : Provider
provider = record {
  min_http_port = 5000;
  max_http_port = 5009;
  acl = true;
  default_traffic_type = "http";
  find_tcp = λ _ _ _. none;
  find_udp = λ _ _ _. none;
  build_service_middleware = λ _. ok [];
}

abbrev port_of : ℕ → ServicePort
port_of port = record {
  name = "p";
  protocol = protocol_tcp;
  port = port;
  target_port = from_int port;
}

abbrev back : Service
back = record {
  name = "back";
  namespace = "apps";
  selector = [];
  annotations = [];
  ports = port_of 80 ∷ port_of 81 ∷ [];
  cluster_ip = "10.0.0.1";
  pods = [];
  traffic_targets = [];
  traffic_splits = [];
  backend_of = key "split" "apps" ∷ [];
  errors = [];
}

abbrev allow : ServiceTrafficTarget
allow = record {
  service = key "back" "apps";
  name = "allow";
  namespace = "apps";
  sources = [];
  destination = record {
    service_account = "callee";
    namespace = "apps";
    ports = port_of 80 ∷ port_of 81 ∷ [];
    pods = [];
  };
  rules = [];
  errors = [];
}

abbrev allow_key : ServiceTrafficTargetKey
allow_key = record { service = key "back" "apps"; traffic_target = key "allow" "apps" }

abbrev start : Run
start = record { topology = new_topology; config = new_default_dynamic_config }

few : count_infix "Host(`a`) || Host(`b`)" "&&" + count_infix "Host(`a`) || Host(`b`)" "||" < 1000
unfolding count_infix strip_prefix
few = omega arith

get_rule_priority_lt_example :
    get_rule_priority "Host(`a`) || Host(`b`)" priority_service
    < get_rule_priority "Host(`a`)" priority_traffic_split
get_rule_priority_lt_example =
    get_rule_priority_lt "Host(`a`) || Host(`b`)" "Host(`a`)" priority_service
      priority_traffic_split (omega arith) few

build_block_all_routers-Blocks_example :
    Blocks provider back 0 back.ports (build_block_all_routers provider back start).config
    × BlocksOnly provider back start.config (build_block_all_routers provider back start).config
build_block_all_routers-Blocks_example = build_block_all_routers-Blocks provider back start

-- The service as the builder leaves it: the traffic target stands under it.
abbrev closed_back : Service
closed_back = record back { traffic_targets = allow_key ∷ [] }

abbrev closed_start : Run
closed_start = record {
  topology = record new_topology {
    services = (key "back" "apps", closed_back) ∷ [];
    service_traffic_targets = (allow_key, allow) ∷ [];
  };
  config = new_default_dynamic_config;
}

closed_back-Held : Held closed_back closed_start.topology
unfolding lookup
closed_back-Held k at_k = (
  allow,
  elim at_k [
    | inl e ↦
        subst (λ l. lookup l closed_start.topology.service_traffic_targets ≡ some allow) (sym e)
          refl
    | inr none_left ↦ absurd none_left
  ],
)

build_acl_config-Closed_example :
    (r : Run) × (build_acl_config provider closed_back "http" service_type_http [] closed_start
      ≡ some r)
    × Closed provider closed_back closed_start.topology closed_start.config r.config
build_acl_config-Closed_example =
    build_acl_config-Closed provider closed_back "http" [] closed_start closed_back-Held

closed_start-IsLinked : IsLinked closed_start.topology
unfolding lookup
closed_start-IsLinked = (((refl, tt), tt), tt)

build_config-SameKeys_example :
    (r : Run) × (build_config provider closed_start.topology ≡ some r)
    × SameKeys closed_start.topology r.topology
build_config-SameKeys_example =
    build_config-SameKeys provider closed_start.topology closed_start-IsLinked
