-- ===== src/Provider/Splits.antt =====
-- pkg/provider/provider.go: the routers of a traffic split.
use maesh.Common.{
  ℕ, suc, String, List, [], ◌∷◌, ◌++◌, Option, none, some, ◌==◌, ◌&&◌, if◌then◌else◌, modify,
  lookup, string_eq, Result, ok, err,
}
use maesh.Kube.{ServicePort}
use maesh.Annotations.{service_type_http, service_type_tcp, service_type_udp}
use maesh.Topology.{
  Key, key_eq, Service, TrafficSplit, Backend, Topology, BuildError, too_many_http_entrypoints,
  port_not_found, unknown_traffic_type, no_service, no_traffic_split, add_split_error,
}
use maesh.Provider.Dynamic.{
  Configuration, Weighted, weighted, weighted_ports, add_http_service, add_http_router,
  add_middleware, add_tcp_service, add_tcp_router, add_udp_service, add_udp_router,
}
use maesh.Provider.Keys.{
  get_service_router_key_from_service, get_service_key_from_traffic_split,
  get_router_key_from_traffic_split_direct, get_router_key_from_traffic_split_indirect,
  get_whitelist_middleware_key_from_traffic_split_direct,
  get_whitelist_middleware_key_from_traffic_split_indirect,
  get_service_key_from_traffic_split_backend,
}
use maesh.Provider.Rule.{
  build_http_rule_from_traffic_split, build_http_rule_from_traffic_split_indirect, tcp_router_rule,
}
use maesh.Provider.Servers.{
  Provider, build_http_entrypoint, build_tcp_entrypoint, build_udp_entrypoint,
  build_http_split_traffic_backend_service, build_port_split_traffic_backend_service,
  build_whitelist_middleware_from_traffic_split_direct,
  build_whitelist_middleware_from_traffic_split_indirect, build_http_router, build_tcp_router,
  build_udp_router, add_to_slice_copy, priority_traffic_split, priority_traffic_target_indirect,
}
use maesh.Provider.Services.{Run}
use maesh.Provider.Targets.{is_backend}

-- `ts.AddError(err)`
abbrev pub split_error : Key → BuildError → Run → Run
split_error k e r = record r {
  topology = record r.topology {
    traffic_splits = modify k (add_split_error e) r.topology.traffic_splits;
  };
}

abbrev pub weight_of : String → Backend → Weighted
weight_of k backend = record { name = k; weight = backend.weight }

-- buildServicesForTrafficSplitBackends: a missing service ends the loop with an error, and what was
-- written to the configuration before stays.
unfoldable pub http_backends :
    TrafficSplit
    → ℕ
    → String
    → Topology
    → List Backend
    → List Weighted
    → Configuration
    → Result BuildError (List Weighted) × Configuration
http_backends ts port scheme t [] out c = (ok out, c)
http_backends ts port scheme t (b ∷ bs) out c =
    let k = get_service_key_from_traffic_split_backend ts port b in
    let rest =
      http_backends ts port scheme t bs (out ++ weight_of k b ∷ [])
        (add_http_service k (build_http_split_traffic_backend_service b scheme port) c) in
    elim (lookup b.service t.services) [ none ↦ (err (no_service b.service), c) | some _ ↦ rest ]

-- The service and the direct router of a port.
unfoldable pub add_split_direct :
    TrafficSplit
    → List Weighted
    → String
    → String
    → List String
    → ServicePort
    → Configuration
    → Configuration
add_split_direct ts backends rule entrypoint middlewares sp c =
    let svc_key = get_service_key_from_traffic_split ts sp.port in
    add_http_router (get_router_key_from_traffic_split_direct ts sp.port)
      (build_http_router rule entrypoint middlewares svc_key priority_traffic_split)
      (add_http_service svc_key (weighted backends) c)

-- The whitelist and the indirect router of a port.
unfoldable pub add_split_indirect :
    Topology
    → TrafficSplit
    → Service
    → List String
    → String
    → ServicePort
    → Configuration
    → Configuration
add_split_indirect t ts svc middlewares entrypoint sp c =
    let whitelist_key = get_whitelist_middleware_key_from_traffic_split_indirect ts in
    add_http_router (get_router_key_from_traffic_split_indirect ts sp.port)
      (build_http_router (build_http_rule_from_traffic_split_indirect ts svc) entrypoint
        (add_to_slice_copy middlewares whitelist_key)
        (get_service_key_from_traffic_split ts sp.port) priority_traffic_target_indirect)
      (add_middleware whitelist_key (build_whitelist_middleware_from_traffic_split_indirect t ts) c)

-- The loop of buildHTTPServiceAndRoutersForTrafficSplit from index `i`, with the variable `rule`;
-- `middlewares` are those of the service, and `direct` those of the direct routers.
unfoldable pub http_split_ports :
    Provider
    → TrafficSplit
    → Service
    → Key
    → String
    → List String
    → List String
    → String
    → ℕ
    → List ServicePort
    → Run
    → Run
http_split_ports p ts svc k scheme middlewares direct rule i [] r = r
http_split_ports p ts svc k scheme middlewares direct rule i (sp ∷ sps) r =
    let (backends, c) = http_backends ts sp.port scheme r.topology ts.backends [] r.config in
    let r' = record r { config = c } in
    let indirect = is_backend svc && p.acl in
    elim backends [
      | err e ↦
          http_split_ports p ts svc k scheme middlewares direct rule (suc i) sps
            (split_error k e r')
      | ok ws ↦ (elim (build_http_entrypoint p i) [
        | none ↦
            http_split_ports p ts svc k scheme middlewares direct rule (suc i) sps
              (split_error k too_many_http_entrypoints r')
        | some entrypoint ↦
            let added = add_split_direct ts ws rule entrypoint direct sp c in
            http_split_ports p ts svc k scheme middlewares direct
              (if indirect then build_http_rule_from_traffic_split_indirect ts svc else rule)
              (suc i) sps
              (record r {
                config =
                    if indirect
                    then add_split_indirect r.topology ts svc middlewares entrypoint sp added
                    else added;
              })
      ])
    ]

-- buildHTTPServiceAndRoutersForTrafficSplit
unfoldable pub build_http_service_and_routers_for_traffic_split :
    Provider → TrafficSplit → Service → Key → String → List String → Run → Run
unfolding http_split_ports
build_http_service_and_routers_for_traffic_split p ts svc k scheme middlewares r =
    let whitelist_key = get_whitelist_middleware_key_from_traffic_split_direct ts in
    let whitelist = build_whitelist_middleware_from_traffic_split_direct r.topology ts in
    http_split_ports p ts svc k scheme middlewares
      (if p.acl then add_to_slice_copy middlewares whitelist_key else middlewares)
      (build_http_rule_from_traffic_split ts svc) 0 svc.ports
      (record r {
        config = if p.acl then add_middleware whitelist_key whitelist r.config else r.config;
      })

-- The inner loops of the TCP and UDP builders.
unfoldable pub tcp_backends :
    TrafficSplit
    → ServicePort
    → List Backend
    → List Weighted
    → Configuration
    → List Weighted × Configuration
tcp_backends ts sp [] out c = (out, c)
tcp_backends ts sp (b ∷ bs) out c =
    let k = get_service_key_from_traffic_split_backend ts sp.port b in
    tcp_backends ts sp bs (out ++ weight_of k b ∷ [])
      (add_tcp_service k (build_port_split_traffic_backend_service b sp.target_port.int_val) c)

unfoldable pub udp_backends :
    TrafficSplit
    → ServicePort
    → List Backend
    → List Weighted
    → Configuration
    → List Weighted × Configuration
udp_backends ts sp [] out c = (out, c)
udp_backends ts sp (b ∷ bs) out c =
    let k = get_service_key_from_traffic_split_backend ts sp.port b in
    udp_backends ts sp bs (out ++ weight_of k b ∷ [])
      (add_udp_service k (build_port_split_traffic_backend_service b sp.target_port.int_val) c)

-- One round of the loop of buildTCPServiceAndRoutersForTrafficSplit.
unfoldable pub tcp_split_port :
    TrafficSplit → Service → String → ServicePort → Configuration → Configuration
unfolding tcp_backends
tcp_split_port ts svc entrypoint sp c =
    let k = get_service_router_key_from_service svc sp.port in
    let (ws, c') = tcp_backends ts sp ts.backends [] c in
    add_tcp_router k (build_tcp_router tcp_router_rule entrypoint k)
      (add_tcp_service k (weighted_ports ws) c')

-- buildTCPServiceAndRoutersForTrafficSplit
unfoldable pub tcp_split_ports :
    Provider → TrafficSplit → Service → Key → List ServicePort → Run → Run
unfolding tcp_split_port
tcp_split_ports p ts svc k [] r = r
tcp_split_ports p ts svc k (sp ∷ sps) r =
    tcp_split_ports p ts svc k sps (elim (build_tcp_entrypoint p svc sp.port) [
      | none ↦ split_error k port_not_found r
      | some entrypoint ↦ record r { config = tcp_split_port ts svc entrypoint sp r.config }
    ])

-- One round of the loop of buildUDPServiceAndRoutersForTrafficSplit.
unfoldable pub udp_split_port :
    TrafficSplit → Service → String → ServicePort → Configuration → Configuration
unfolding udp_backends
udp_split_port ts svc entrypoint sp c =
    let k = get_service_router_key_from_service svc sp.port in
    let (ws, c') = udp_backends ts sp ts.backends [] c in
    add_udp_router k (build_udp_router entrypoint k) (add_udp_service k (weighted_ports ws) c')

-- buildUDPServiceAndRoutersForTrafficSplit
unfoldable pub udp_split_ports :
    Provider → TrafficSplit → Service → Key → List ServicePort → Run → Run
unfolding udp_split_port
udp_split_ports p ts svc k [] r = r
udp_split_ports p ts svc k (sp ∷ sps) r =
    udp_split_ports p ts svc k sps (elim (build_udp_entrypoint p svc sp.port) [
      | none ↦ split_error k port_not_found r
      | some entrypoint ↦ record r { config = udp_split_port ts svc entrypoint sp r.config }
    ])

-- The `switch` on the traffic type.
unfoldable pub split_by_type :
    Provider
    → TrafficSplit
    → Service
    → Key
    → String
    → String
    → List String
    → Run
    → Option BuildError × Run
unfolding build_http_service_and_routers_for_traffic_split tcp_split_ports udp_split_ports
split_by_type p ts svc k scheme traffic_type middlewares r =
    if traffic_type == service_type_http
    then (none, build_http_service_and_routers_for_traffic_split p ts svc k scheme middlewares r)
    else if traffic_type == service_type_tcp
    then (none, tcp_split_ports p ts svc k svc.ports r)
    else if traffic_type == service_type_udp
    then (none, udp_split_ports p ts svc k svc.ports r)
    else (some (unknown_traffic_type traffic_type), r)

-- buildServiceAndRoutersForTrafficSplit
unfoldable pub build_service_and_routers_for_traffic_split :
    Provider → Key → String → String → List String → Run → Option BuildError × Run
unfolding split_by_type
build_service_and_routers_for_traffic_split p k scheme traffic_type middlewares r =
    elim (lookup k r.topology.traffic_splits) [
      | none ↦ (some (no_traffic_split k), r)
      | some ts ↦ (elim (lookup ts.service r.topology.services) [
        | none ↦ (some (no_service ts.service), r)
        | some svc ↦ split_by_type p ts svc k scheme traffic_type middlewares r
      ])
    ]
