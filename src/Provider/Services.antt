-- ===== src/Provider/Services.antt =====
-- pkg/provider/provider.go: the routers of a service itself, in both modes. `Run` is the state of
-- BuildConfig: the topology, whose nodes collect errors, and the configuration so far.
pub mod Blocked
use maesh.Common.{
  ℕ, suc, String, List, [], ◌∷◌, Option, none, some, ◌==◌, if◌then◌else◌, modify, string_eq,
}
use maesh.Kube.{ServicePort}
use maesh.Annotations.{service_type_http, service_type_tcp, service_type_udp}
use maesh.Topology.{
  Key, key, key_eq, Service, Topology, BuildError, too_many_http_entrypoints, port_not_found,
  unknown_traffic_type, add_service_error,
}
use maesh.Provider.Dynamic.{
  Configuration, Router, add_http_service, add_http_router, add_tcp_service, add_tcp_router,
  add_udp_service, add_udp_router, block_all_middleware_key, block_all_service_key,
}
use maesh.Provider.Keys.{get_service_router_key_from_service}
use maesh.Provider.Rule.{build_http_rule_from_service, tcp_router_rule}
use maesh.Provider.Servers.{
  Provider, build_http_entrypoint, build_tcp_entrypoint, build_udp_entrypoint,
  build_http_service_from_service, build_tcp_service_from_service, build_udp_service_from_service,
  build_http_router, build_tcp_router, build_udp_router, priority_service,
}

pub record Run : Type 0 where
  pub topology : Topology
  pub config : Configuration

abbrev pub svc_key_of : Service → Key
svc_key_of svc = key svc.name svc.namespace

-- `svc.AddError(err)`
abbrev pub service_error : Key → BuildError → Run → Run
service_error k e r = record r {
  topology = record r.topology { services = modify k (add_service_error e) r.topology.services };
}

-- The loop of buildServicesAndRoutersForHTTPService from index `i`.
unfoldable pub http_service_ports :
    Provider → Service → String → List String → ℕ → List ServicePort → Run → Run
http_service_ports p svc scheme middlewares i [] r = r
http_service_ports p svc scheme middlewares i (sp ∷ sps) r =
    http_service_ports p svc scheme middlewares (suc i) sps (elim (build_http_entrypoint p i) [
      | none ↦ service_error (svc_key_of svc) too_many_http_entrypoints r
      | some entrypoint ↦
          let k = get_service_router_key_from_service svc sp.port in
          record r {
            config =
                add_http_router k
                  (build_http_router (build_http_rule_from_service svc) entrypoint middlewares k
                    priority_service)
                  (add_http_service k (build_http_service_from_service r.topology svc scheme sp)
                    r.config);
          }
    ])

-- The loop of buildServicesAndRoutersForTCPService.
unfoldable pub tcp_service_ports : Provider → Service → List ServicePort → Run → Run
tcp_service_ports p svc [] r = r
tcp_service_ports p svc (sp ∷ sps) r =
    tcp_service_ports p svc sps (elim (build_tcp_entrypoint p svc sp.port) [
      | none ↦ service_error (svc_key_of svc) port_not_found r
      | some entrypoint ↦
          let k = get_service_router_key_from_service svc sp.port in
          record r {
            config =
                add_tcp_router k (build_tcp_router tcp_router_rule entrypoint k)
                  (add_tcp_service k (build_tcp_service_from_service r.topology svc sp) r.config);
          }
    ])

-- The loop of buildServicesAndRoutersForUDPService.
unfoldable pub udp_service_ports : Provider → Service → List ServicePort → Run → Run
udp_service_ports p svc [] r = r
udp_service_ports p svc (sp ∷ sps) r =
    udp_service_ports p svc sps (elim (build_udp_entrypoint p svc sp.port) [
      | none ↦ service_error (svc_key_of svc) port_not_found r
      | some entrypoint ↦
          let k = get_service_router_key_from_service svc sp.port in
          record r {
            config =
                add_udp_router k (build_udp_router entrypoint k)
                  (add_udp_service k (build_udp_service_from_service r.topology svc sp) r.config);
          }
    ])

-- buildServicesAndRoutersForService; the error is an unknown traffic type.
unfoldable pub build_services_and_routers_for_service :
    Provider → Service → String → String → List String → Run → Option BuildError × Run
unfolding http_service_ports tcp_service_ports udp_service_ports
build_services_and_routers_for_service p svc scheme traffic_type middlewares r =
    if traffic_type == service_type_http
    then (none, http_service_ports p svc scheme middlewares 0 svc.ports r)
    else if traffic_type == service_type_tcp
    then (none, tcp_service_ports p svc svc.ports r)
    else if traffic_type == service_type_udp
    then (none, udp_service_ports p svc svc.ports r)
    else (some (unknown_traffic_type traffic_type), r)

abbrev pub block_all_router : Service → String → Router
block_all_router svc entrypoint = record {
  entry_points = entrypoint ∷ [];
  middlewares = block_all_middleware_key ∷ [];
  service = block_all_service_key;
  rule = build_http_rule_from_service svc;
  priority = priority_service;
}

-- The loop of buildBlockAllRouters from index `i`.
unfoldable pub block_all_ports : Provider → Service → ℕ → List ServicePort → Run → Run
block_all_ports p svc i [] r = r
block_all_ports p svc i (sp ∷ sps) r =
    block_all_ports p svc (suc i) sps (elim (build_http_entrypoint p i) [
      | none ↦ service_error (svc_key_of svc) too_many_http_entrypoints r
      | some entrypoint ↦ record r {
        config =
            add_http_router (get_service_router_key_from_service svc sp.port)
              (block_all_router svc entrypoint) r.config;
      }
    ])

-- buildBlockAllRouters
unfoldable pub build_block_all_routers : Provider → Service → Run → Run
unfolding block_all_ports
build_block_all_routers p svc r = block_all_ports p svc 0 svc.ports r
