-- ===== src/Provider/Keys.antt =====
-- pkg/provider/key.go: the names of routers, services and middlewares.
use maesh.Common.{ℕ, String, [], ◌∷◌}
use maesh.Common.Text.{concat, decimal32}
use maesh.Topology.{Service, ServiceTrafficTarget, TrafficSplit, Backend}

unfoldable pub get_middleware_key : Service → String → String
get_middleware_key svc name = concat (svc.namespace ∷ "-" ∷ svc.name ∷ "-" ∷ name ∷ [])

unfoldable pub get_service_router_key_from_service : Service → ℕ → String
get_service_router_key_from_service svc port =
    concat (svc.namespace ∷ "-" ∷ svc.name ∷ "-" ∷ decimal32 port ∷ [])

-- "<namespace>-<service>-<name>" of the service and the traffic target, or the traffic split.
abbrev target_prefix : ServiceTrafficTarget → String
target_prefix tt' = concat (tt'.service.namespace ∷ "-" ∷ tt'.service.name ∷ "-" ∷ tt'.name ∷ [])

abbrev split_prefix : TrafficSplit → String
split_prefix ts = concat (ts.service.namespace ∷ "-" ∷ ts.service.name ∷ "-" ∷ ts.name ∷ [])

unfoldable pub get_whitelist_middleware_key_from_traffic_target_direct :
    ServiceTrafficTarget → String
get_whitelist_middleware_key_from_traffic_target_direct tt' =
    concat (target_prefix tt' ∷ "-whitelist-traffic-target-direct" ∷ [])

unfoldable pub get_whitelist_middleware_key_from_traffic_target_indirect :
    ServiceTrafficTarget → String
get_whitelist_middleware_key_from_traffic_target_indirect tt' =
    concat (target_prefix tt' ∷ "-whitelist-traffic-target-indirect" ∷ [])

unfoldable pub get_whitelist_middleware_key_from_traffic_split_direct : TrafficSplit → String
get_whitelist_middleware_key_from_traffic_split_direct ts =
    concat (split_prefix ts ∷ "-whitelist-traffic-split-direct" ∷ [])

unfoldable pub get_whitelist_middleware_key_from_traffic_split_indirect : TrafficSplit → String
get_whitelist_middleware_key_from_traffic_split_indirect ts =
    concat (split_prefix ts ∷ "-whitelist-traffic-split-indirect" ∷ [])

unfoldable pub get_service_key_from_traffic_target : ServiceTrafficTarget → ℕ → String
get_service_key_from_traffic_target tt' port =
    concat (target_prefix tt' ∷ "-" ∷ decimal32 port ∷ "-traffic-target" ∷ [])

unfoldable pub get_router_key_from_traffic_target_direct : ServiceTrafficTarget → ℕ → String
get_router_key_from_traffic_target_direct tt' port =
    concat (target_prefix tt' ∷ "-" ∷ decimal32 port ∷ "-traffic-target-direct" ∷ [])

unfoldable pub get_router_key_from_traffic_target_indirect : ServiceTrafficTarget → ℕ → String
get_router_key_from_traffic_target_indirect tt' port =
    concat (target_prefix tt' ∷ "-" ∷ decimal32 port ∷ "-traffic-target-indirect" ∷ [])

unfoldable pub get_service_key_from_traffic_split : TrafficSplit → ℕ → String
get_service_key_from_traffic_split ts port =
    concat (split_prefix ts ∷ "-" ∷ decimal32 port ∷ "-traffic-split" ∷ [])

unfoldable pub get_router_key_from_traffic_split_direct : TrafficSplit → ℕ → String
get_router_key_from_traffic_split_direct ts port =
    concat (split_prefix ts ∷ "-" ∷ decimal32 port ∷ "-traffic-split-direct" ∷ [])

unfoldable pub get_router_key_from_traffic_split_indirect : TrafficSplit → ℕ → String
get_router_key_from_traffic_split_indirect ts port =
    concat (split_prefix ts ∷ "-" ∷ decimal32 port ∷ "-traffic-split-indirect" ∷ [])

unfoldable pub get_service_key_from_traffic_split_backend : TrafficSplit → ℕ → Backend → String
get_service_key_from_traffic_split_backend ts port backend = concat (
    split_prefix ts
    ∷ "-"
    ∷ decimal32 port
    ∷ "-"
    ∷ backend.service.name
    ∷ "-traffic-split-backend"
    ∷ [])
