-- ===== src/Provider/Dynamic.antt =====
-- The dynamic configuration of Traefik (traefik/pkg/config/dynamic), with the fields that the program
-- sets, and the edits of pkg/provider/provider.go on it.
use maesh.Common.{
  ℕ, Bool, true, false, String, List, [], ◌∷◌, Option, none, some, insert, string_eq,
}
use maesh.Annotations.Middleware.{Middleware, ip_white_list}

-- dynamic.Router
pub record Router : Type 0 where
  pub entry_points : List String
  pub middlewares : List String
  pub service : String
  pub rule : String
  pub priority : ℕ

-- dynamic.WRRService and its TCP and UDP versions.
pub record Weighted : Type 0 where
  pub name : String
  pub weight : ℕ

-- dynamic.Service: the URLs of a load balancer and its PassHostHeader, or a weighted round robin.
pub data HttpService : Type 0 where
  load_balancer : List String → Bool → HttpService
  weighted : List Weighted → HttpService

-- dynamic.TCPRouter, and dynamic.UDPRouter with an empty rule.
pub record PortRouter : Type 0 where
  pub entry_points : List String
  pub service : String
  pub rule : String

-- dynamic.TCPService and dynamic.UDPService: addresses, or a weighted round robin.
pub data PortService : Type 0 where
  addresses : List String → PortService
  weighted_ports : List Weighted → PortService

-- dynamic.TCPConfiguration and dynamic.UDPConfiguration.
pub record PortConfiguration : Type 0 where
  pub routers : List (String × PortRouter)
  pub services : List (String × PortService)

-- dynamic.Configuration; the maps of the HTTP part always exist.
pub record Configuration : Type 0 where
  pub routers : List (String × Router)
  pub services : List (String × HttpService)
  pub middlewares : List (String × Middleware)
  pub tcp : Option PortConfiguration
  pub udp : Option PortConfiguration

abbrev pub block_all_middleware_key : String
block_all_middleware_key = "block-all-middleware"

abbrev pub block_all_service_key : String
block_all_service_key = "block-all-service"

-- NewDefaultDynamicConfig
abbrev pub readiness_router : Router
readiness_router = record {
  entry_points = "readiness" ∷ [];
  middlewares = [];
  service = "readiness";
  rule = "Path(`/ping`)";
  priority = 0;
}

abbrev pub block_all_middleware : Middleware
block_all_middleware = ip_white_list ("255.255.255.255" ∷ []) none

unfoldable pub new_default_dynamic_config : Configuration
new_default_dynamic_config = record {
  routers = ("readiness", readiness_router) ∷ [];
  services =
      ("readiness", load_balancer ("http://127.0.0.1:8080" ∷ []) true)
      ∷ (block_all_service_key, load_balancer [] false)
      ∷ [];
  middlewares = (block_all_middleware_key, block_all_middleware) ∷ [];
  tcp = none;
  udp = none;
}

unfoldable pub add_http_service : String → HttpService → Configuration → Configuration
add_http_service k s c = record c { services = insert k s c.services }

unfoldable pub add_http_router : String → Router → Configuration → Configuration
add_http_router k r c = record c { routers = insert k r c.routers }

unfoldable pub add_middleware : String → Middleware → Configuration → Configuration
add_middleware k m c = record c { middlewares = insert k m c.middlewares }

abbrev or_empty : Option PortConfiguration → PortConfiguration
or_empty none = record { routers = []; services = [] }
or_empty (some c) = c

with_service : String → PortService → PortConfiguration → PortConfiguration
with_service k s c = record c { services = insert k s c.services }

with_router : String → PortRouter → PortConfiguration → PortConfiguration
with_router k r c = record c { routers = insert k r c.routers }

-- addTCPService
unfoldable pub add_tcp_service : String → PortService → Configuration → Configuration
unfolding with_service
add_tcp_service k s c = record c { tcp = some (with_service k s (or_empty c.tcp)) }

-- addTCPRouter
unfoldable pub add_tcp_router : String → PortRouter → Configuration → Configuration
unfolding with_router
add_tcp_router k r c = record c { tcp = some (with_router k r (or_empty c.tcp)) }

-- addUDPService
unfoldable pub add_udp_service : String → PortService → Configuration → Configuration
unfolding with_service
add_udp_service k s c = record c { udp = some (with_service k s (or_empty c.udp)) }

-- addUDPRouter
unfoldable pub add_udp_router : String → PortRouter → Configuration → Configuration
unfolding with_router
add_udp_router k r c = record c { udp = some (with_router k r (or_empty c.udp)) }
