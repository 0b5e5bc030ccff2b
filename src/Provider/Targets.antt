-- ===== src/Provider/Targets.antt =====
-- pkg/provider/provider.go: the routers of a traffic target.
pub mod Whitelist
pub mod Guarded
pub mod Same
use maesh.Common.{
  ℕ, suc, Bool, true, false, String, List, [], ◌∷◌, Option, none, some, ◌==◌, if◌then◌else◌, modify,
  lookup, string_eq,
}
use maesh.Kube.{ServicePort}
use maesh.Annotations.{service_type_http, service_type_tcp}
use maesh.Topology.{
  key_eq, target_key_eq, ServiceTrafficTargetKey, Service, ServiceTrafficTarget, Topology,
  BuildError, too_many_http_entrypoints, port_not_found, unknown_traffic_type, no_service,
  no_target, add_target_error,
}
use maesh.Provider.Dynamic.{
  Configuration, add_http_service, add_http_router, add_middleware, add_tcp_service, add_tcp_router,
}
use maesh.Provider.Keys.{
  get_service_router_key_from_service, get_service_key_from_traffic_target,
  get_router_key_from_traffic_target_direct, get_router_key_from_traffic_target_indirect,
  get_whitelist_middleware_key_from_traffic_target_direct,
  get_whitelist_middleware_key_from_traffic_target_indirect,
}
use maesh.Provider.Rule.{
  build_http_rule_from_traffic_target, build_http_rule_from_traffic_target_indirect,
  tcp_router_rule,
}
use maesh.Provider.Servers.{
  Provider, build_http_entrypoint, build_tcp_entrypoint, build_http_service_from_traffic_target,
  build_tcp_service_from_traffic_target, build_whitelist_middleware_from_traffic_target_direct,
  build_whitelist_middleware_from_traffic_target_indirect, build_http_router, build_tcp_router,
  has_tcp_route, add_to_slice_copy, priority_traffic_target_direct,
  priority_traffic_target_indirect,
}
use maesh.Provider.Services.{Run}

-- `tt.AddError(err)`
abbrev pub target_error : ServiceTrafficTargetKey → BuildError → Run → Run
target_error k e r = record r {
  topology = record r.topology {
    service_traffic_targets = modify k (add_target_error e) r.topology.service_traffic_targets;
  };
}

abbrev pub is_backend : Service → Bool
is_backend svc = elim svc.backend_of [ [] ↦ false | _ ∷ _ ↦ true ]

-- The service and the direct router of a port.
unfoldable pub add_direct :
    Topology
    → ServiceTrafficTarget
    → String
    → List String
    → String
    → String
    → ServicePort
    → Configuration
    → Configuration
add_direct t tt' scheme middlewares rule entrypoint sp c =
    let svc_key = get_service_key_from_traffic_target tt' sp.port in
    add_http_router (get_router_key_from_traffic_target_direct tt' sp.port)
      (build_http_router rule entrypoint
        (add_to_slice_copy middlewares
          (get_whitelist_middleware_key_from_traffic_target_direct tt'))
        svc_key priority_traffic_target_direct)
      (add_http_service svc_key (build_http_service_from_traffic_target t tt' scheme sp) c)

-- The whitelist and the indirect router of a port.
unfoldable pub add_indirect :
    Topology
    → ServiceTrafficTarget
    → Service
    → List String
    → String
    → ServicePort
    → Configuration
    → Configuration
add_indirect t tt' svc middlewares entrypoint sp c =
    let whitelist_key = get_whitelist_middleware_key_from_traffic_target_indirect tt' in
    add_http_router (get_router_key_from_traffic_target_indirect tt' sp.port)
      (build_http_router (build_http_rule_from_traffic_target_indirect tt' svc) entrypoint
        (add_to_slice_copy middlewares whitelist_key)
        (get_service_key_from_traffic_target tt' sp.port) priority_traffic_target_indirect)
      (add_middleware whitelist_key (build_whitelist_middleware_from_traffic_target_indirect t tt')
        c)

-- The rule that the next port's direct router gets: the loop assigns the indirect rule to the variable
-- that holds the direct one.
abbrev pub next_rule : ServiceTrafficTarget → Service → String → String
next_rule tt' svc rule =
    if is_backend svc then build_http_rule_from_traffic_target_indirect tt' svc else rule

-- The loop of buildHTTPServicesAndRoutersForTrafficTarget from index `i`, with the variable `rule`.
unfoldable pub http_target_ports :
    Provider
    → ServiceTrafficTarget
    → Service
    → ServiceTrafficTargetKey
    → String
    → List String
    → String
    → ℕ
    → List ServicePort
    → Run
    → Run
http_target_ports p tt' svc k scheme middlewares rule i [] r = r
http_target_ports p tt' svc k scheme middlewares rule i (sp ∷ sps) r =
    elim (build_http_entrypoint p i) [
      | none ↦
          http_target_ports p tt' svc k scheme middlewares rule (suc i) sps
            (target_error k too_many_http_entrypoints r)
      | some entrypoint ↦
          let direct = add_direct r.topology tt' scheme middlewares rule entrypoint sp r.config in
          http_target_ports p tt' svc k scheme middlewares (next_rule tt' svc rule) (suc i) sps
            (record r {
              config =
                  if is_backend svc
                  then add_indirect r.topology tt' svc middlewares entrypoint sp direct
                  else direct;
            })
    ]

-- buildHTTPServicesAndRoutersForTrafficTarget
unfoldable pub build_http_services_and_routers_for_traffic_target :
    Provider
    → ServiceTrafficTarget
    → Service
    → ServiceTrafficTargetKey
    → String
    → List String
    → Run
    → Run
unfolding http_target_ports
build_http_services_and_routers_for_traffic_target p tt' svc k scheme middlewares r =
    http_target_ports p tt' svc k scheme middlewares (build_http_rule_from_traffic_target tt' svc) 0
      tt'.destination.ports
      (record r {
        config =
            add_middleware (get_whitelist_middleware_key_from_traffic_target_direct tt')
              (build_whitelist_middleware_from_traffic_target_direct r.topology tt') r.config;
      })

-- The loop of buildTCPServicesAndRoutersForTrafficTarget.
unfoldable pub tcp_target_ports :
    Provider
    → ServiceTrafficTarget
    → Service
    → ServiceTrafficTargetKey
    → List ServicePort
    → Run
    → Run
tcp_target_ports p tt' svc k [] r = r
tcp_target_ports p tt' svc k (sp ∷ sps) r =
    tcp_target_ports p tt' svc k sps (elim (build_tcp_entrypoint p svc sp.port) [
      | none ↦ target_error k port_not_found r
      | some entrypoint ↦
          let rk = get_service_router_key_from_service svc sp.port in
          record r {
            config = add_tcp_router rk (build_tcp_router tcp_router_rule entrypoint rk) (
                add_tcp_service rk (build_tcp_service_from_traffic_target r.topology tt' sp)
                  r.config);
          }
    ])

-- buildTCPServicesAndRoutersForTrafficTarget
unfoldable pub build_tcp_services_and_routers_for_traffic_target :
    Provider → ServiceTrafficTarget → Service → ServiceTrafficTargetKey → Run → Run
unfolding tcp_target_ports
build_tcp_services_and_routers_for_traffic_target p tt' svc k r =
    if has_tcp_route tt'.rules then tcp_target_ports p tt' svc k tt'.destination.ports r else r

-- The `switch` on the traffic type.
unfoldable pub target_by_type :
    Provider
    → ServiceTrafficTarget
    → Service
    → ServiceTrafficTargetKey
    → String
    → String
    → List String
    → Run
    → Option BuildError × Run
unfolding build_http_services_and_routers_for_traffic_target
    build_tcp_services_and_routers_for_traffic_target
target_by_type p tt' svc k scheme traffic_type middlewares r =
    if traffic_type == service_type_http
    then (none, build_http_services_and_routers_for_traffic_target p tt' svc k scheme middlewares r)
    else if traffic_type == service_type_tcp
    then (none, build_tcp_services_and_routers_for_traffic_target p tt' svc k r)
    else (some (unknown_traffic_type traffic_type), r)

-- buildServicesAndRoutersForTrafficTarget
unfoldable pub build_services_and_routers_for_traffic_target :
    Provider
    → ServiceTrafficTargetKey
    → String
    → String
    → List String
    → Run
    → Option BuildError × Run
unfolding target_by_type
build_services_and_routers_for_traffic_target p k scheme traffic_type middlewares r =
    elim (lookup k r.topology.service_traffic_targets) [
      | none ↦ (some (no_target k), r)
      | some tt' ↦ (elim (lookup tt'.service r.topology.services) [
        | none ↦ (some (no_service tt'.service), r)
        | some svc ↦ target_by_type p tt' svc k scheme traffic_type middlewares r
      ])
    ]
