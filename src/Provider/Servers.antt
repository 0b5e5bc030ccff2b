-- ===== src/Provider/Servers.antt =====
-- pkg/provider/provider.go: servers, whitelists, entrypoints and routers. `Provider` holds what the
-- constructor is given: the configuration, the port finders and the middleware builder.
use maesh.Common.{
  ℕ, ◌%◌, ◌^◌, Bool, true, false, String, List, [], ◌∷◌, ◌++◌, Option, none, some, ◌||◌,
  if◌then◌else◌, Result, lookup,
}
use maesh.Common.Text.{concat, decimal32, has_infix}
use maesh.Common.Int32.{add32, le32}
use maesh.Kube.{ServicePort}
use maesh.Annotations.{Labels, AnnotationError}
use maesh.Annotations.Middleware.{Middleware, Middlewares, ip_white_list}
use maesh.Topology.{
  Key, key_eq, Service, Source, ServiceTrafficTarget, TrafficSplit, TrafficSpec, Backend, Topology,
  resolve_service_port,
}
use maesh.Provider.Dynamic.{Router, PortRouter, HttpService, load_balancer, PortService, addresses}
use maesh.Provider.Rule.{get_rule_priority}

-- Provider, with its Config.
pub record Provider : Type 0 where
  pub min_http_port : ℕ
  pub max_http_port : ℕ
  pub acl : Bool
  pub default_traffic_type : String
  pub find_tcp : String → String → ℕ → Option ℕ
  pub find_udp : String → String → ℕ → Option ℕ
  pub build_service_middleware : Labels → Result AnnotationError Middlewares

abbrev pub priority_service : ℕ
priority_service = 1

abbrev pub priority_traffic_target_direct : ℕ
priority_traffic_target_direct = 2

abbrev pub priority_traffic_target_indirect : ℕ
priority_traffic_target_indirect = 3

abbrev pub priority_traffic_split : ℕ
priority_traffic_split = 4

-- buildHTTPEntrypoint; `none` is "too many HTTP entrypoints".
unfoldable pub build_http_entrypoint : Provider → ℕ → Option String
build_http_entrypoint p port_id =
    let port = add32 p.min_http_port (port_id % 2 ^ 32) in
    if le32 port p.max_http_port then some (concat ("http-" ∷ decimal32 port ∷ [])) else none

abbrev entrypoint : String → Option ℕ → Option String
entrypoint prefix none = none
entrypoint prefix (some port) = some (concat (prefix ∷ decimal32 port ∷ []))

-- buildTCPEntrypoint; `none` is "port not found".
unfoldable pub build_tcp_entrypoint : Provider → Service → ℕ → Option String
build_tcp_entrypoint p svc port = entrypoint "tcp-" (p.find_tcp svc.namespace svc.name port)

-- buildUDPEntrypoint
unfoldable pub build_udp_entrypoint : Provider → Service → ℕ → Option String
build_udp_entrypoint p svc port = entrypoint "udp-" (p.find_udp svc.namespace svc.name port)

-- `net.JoinHostPort`
unfoldable pub join_host_port : String → ℕ → String
join_host_port host port =
    if has_infix host ":"
    then concat ("[" ∷ host ∷ "]:" ∷ decimal32 port ∷ [])
    else concat (host ∷ ":" ∷ decimal32 port ∷ [])

-- The address of a pod for a service port, if the topology has the pod and its containers the port.
unfoldable pub pod_address : Topology → ServicePort → Key → Option String
pod_address t svc_port k = elim (lookup k t.pods) [
  | none ↦ none
  | some pod ↦ (elim (resolve_service_port svc_port pod.container_ports) [
    | none ↦ none
    | some port ↦ some (join_host_port pod.ip port)
  ])
]

-- The loop over the pods that the six builders of services share: a pod without an address is skipped.
unfoldable pub pod_addresses : Topology → ServicePort → List Key → List String
unfolding pod_address
pod_addresses t svc_port [] = []
pod_addresses t svc_port (k ∷ ks) = elim (pod_address t svc_port k) [
  | none ↦ pod_addresses t svc_port ks
  | some address ↦ address ∷ pod_addresses t svc_port ks
]

unfoldable pub urls : String → List String → List String
urls scheme [] = []
urls scheme (a ∷ as') = concat (scheme ∷ "://" ∷ a ∷ []) ∷ urls scheme as'

-- buildHTTPServiceFromService
unfoldable pub build_http_service_from_service :
    Topology → Service → String → ServicePort → HttpService
unfolding pod_addresses urls
build_http_service_from_service t svc scheme svc_port =
    load_balancer (urls scheme (pod_addresses t svc_port svc.pods)) true

-- buildHTTPServiceFromTrafficTarget
unfoldable pub build_http_service_from_traffic_target :
    Topology → ServiceTrafficTarget → String → ServicePort → HttpService
unfolding pod_addresses urls
build_http_service_from_traffic_target t tt' scheme svc_port =
    load_balancer (urls scheme (pod_addresses t svc_port tt'.destination.pods)) true

-- buildTCPServiceFromService
unfoldable pub build_tcp_service_from_service : Topology → Service → ServicePort → PortService
unfolding pod_addresses
build_tcp_service_from_service t svc svc_port = addresses (pod_addresses t svc_port svc.pods)

-- buildTCPServiceFromTrafficTarget
unfoldable pub build_tcp_service_from_traffic_target :
    Topology → ServiceTrafficTarget → ServicePort → PortService
unfolding pod_addresses
build_tcp_service_from_traffic_target t tt' svc_port =
    addresses (pod_addresses t svc_port tt'.destination.pods)

-- buildUDPServiceFromService
unfoldable pub build_udp_service_from_service : Topology → Service → ServicePort → PortService
unfolding pod_addresses
build_udp_service_from_service t svc svc_port = addresses (pod_addresses t svc_port svc.pods)

-- The IPs of the pods that the topology has.
unfoldable pub pod_ips : Topology → List Key → List String
pod_ips t [] = []
pod_ips t (k ∷ ks) = elim (lookup k t.pods) [
  | none ↦ pod_ips t ks
  | some pod ↦ pod.ip ∷ pod_ips t ks
]

unfoldable pub source_ips : Topology → List Source → List String
unfolding pod_ips
source_ips t [] = []
source_ips t (s ∷ sources) = pod_ips t s.pods ++ source_ips t sources

-- buildWhitelistMiddlewareFromTrafficTargetDirect
unfoldable pub build_whitelist_middleware_from_traffic_target_direct :
    Topology → ServiceTrafficTarget → Middleware
unfolding source_ips
build_whitelist_middleware_from_traffic_target_direct t tt' =
    ip_white_list (source_ips t tt'.sources) none

-- buildWhitelistMiddlewareFromTrafficTargetIndirect
unfoldable pub build_whitelist_middleware_from_traffic_target_indirect :
    Topology → ServiceTrafficTarget → Middleware
unfolding source_ips
build_whitelist_middleware_from_traffic_target_indirect t tt' =
    ip_white_list (source_ips t tt'.sources) (some 1)

-- buildWhitelistMiddlewareFromTrafficSplitDirect
unfoldable pub build_whitelist_middleware_from_traffic_split_direct :
    Topology → TrafficSplit → Middleware
unfolding pod_ips
build_whitelist_middleware_from_traffic_split_direct t ts =
    ip_white_list (pod_ips t ts.incoming) none

-- buildWhitelistMiddlewareFromTrafficSplitIndirect
unfoldable pub build_whitelist_middleware_from_traffic_split_indirect :
    Topology → TrafficSplit → Middleware
unfolding pod_ips
build_whitelist_middleware_from_traffic_split_indirect t ts =
    ip_white_list (pod_ips t ts.incoming) (some 1)

-- buildHTTPSplitTrafficBackendService
unfoldable pub build_http_split_traffic_backend_service : Backend → String → ℕ → HttpService
build_http_split_traffic_backend_service backend scheme port =
    load_balancer
      (concat (
          scheme
          ∷ "://"
          ∷ backend.service.name
          ∷ "."
          ∷ backend.service.namespace
          ∷ ".traefik.mesh:"
          ∷ decimal32 port
          ∷ [])
        ∷ [])
      false

-- buildTCPSplitTrafficBackendService and buildUDPSplitTrafficBackendService
unfoldable pub build_port_split_traffic_backend_service : Backend → ℕ → PortService
build_port_split_traffic_backend_service backend port = addresses (
    concat (
      backend.service.name
      ∷ "."
      ∷ backend.service.namespace
      ∷ ".traefik.mesh:"
      ∷ decimal32 port
      ∷ [])
    ∷ [])

-- buildHTTPRouter
unfoldable pub build_http_router : String → String → List String → String → ℕ → Router
build_http_router rule entrypoint middlewares svc_key priority = record {
  entry_points = entrypoint ∷ [];
  middlewares = middlewares;
  service = svc_key;
  rule = rule;
  priority = get_rule_priority rule priority;
}

-- buildTCPRouter
unfoldable pub build_tcp_router : String → String → String → PortRouter
build_tcp_router rule entrypoint svc_key = record {
  entry_points = entrypoint ∷ [];
  service = svc_key;
  rule = rule;
}

-- buildUDPRouter
unfoldable pub build_udp_router : String → String → PortRouter
build_udp_router entrypoint svc_key = record {
  entry_points = entrypoint ∷ [];
  service = svc_key;
  rule = "";
}

abbrev is_tcp : TrafficSpec → Bool
is_tcp spec = elim spec.tcp_route [ none ↦ false | some _ ↦ true ]

-- The loop of hasTrafficTargetRuleTCPRoute.
unfoldable pub has_tcp_route : List TrafficSpec → Bool
has_tcp_route [] = false
has_tcp_route (spec ∷ specs) = is_tcp spec || has_tcp_route specs

-- addToSliceCopy
unfoldable pub add_to_slice_copy : List String → String → List String
add_to_slice_copy items item = items ++ item ∷ []
