-- ===== src/Kube/Smi.antt =====
-- The types of the Service Mesh Interface that the program reads (smi-sdk-go): TrafficTarget,
-- TrafficSplit, HTTPRouteGroup and TCPRoute, with the fields that the sources name.
use maesh.Common.{ℕ, String, List, Option}

-- specs.HTTPMatch; `headers` is a map.
pub record HttpMatch : Type 0 where
  pub name : String
  pub methods : List String
  pub path_regex : String
  pub headers : List (String × String)

-- specs.HTTPRouteGroup
pub record HttpRouteGroup : Type 0 where
  pub name : String
  pub namespace : String
  pub labels : List (String × String)
  pub matches : List HttpMatch

-- specs.TCPRoute
pub record TcpRoute : Type 0 where
  pub name : String
  pub namespace : String
  pub labels : List (String × String)

-- access.TrafficTargetRule
pub record TrafficTargetRule : Type 0 where
  pub kind : String
  pub name : String
  pub matches : List String

-- access.IdentityBindingSubject; only a destination has a port.
pub record Subject : Type 0 where
  pub name : String
  pub namespace : String
  pub port : Option ℕ

-- access.TrafficTarget
pub record TrafficTarget : Type 0 where
  pub name : String
  pub namespace : String
  pub labels : List (String × String)
  pub destination : Subject
  pub sources : List Subject
  pub rules : List TrafficTargetRule

-- split.TrafficSplitBackend
pub record SplitBackend : Type 0 where
  pub service : String
  pub weight : ℕ

-- The reference of a traffic split to a route.
pub record SplitMatch : Type 0 where
  pub kind : String
  pub name : String

-- split.TrafficSplit
pub record TrafficSplit : Type 0 where
  pub name : String
  pub namespace : String
  pub labels : List (String × String)
  pub service : String
  pub backends : List SplitBackend
  pub matches : List SplitMatch

-- k8s.HTTPRouteGroupObjectKind
abbrev pub http_route_group_kind : String
http_route_group_kind = "HTTPRouteGroup"

-- k8s.TCPRouteObjectKind
abbrev pub tcp_route_kind : String
tcp_route_kind = "TCPRoute"
