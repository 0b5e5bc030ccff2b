-- ===== src/Topology/Specs.antt =====
-- pkg/topology/builder.go: the routes that a traffic target or a traffic split names.
use maesh.Common.{
  String, List, [], ◌∷◌, ◌++◌, Option, none, some, ◌==◌, if◌then◌else◌, Result, ok, err, ◌>>=◌,
  lookup, string_eq,
}
use maesh.Kube.Smi.{
  HttpMatch, HttpRouteGroup, TcpRoute, TrafficTargetRule, SplitMatch, TrafficTarget, TrafficSplit,
  http_route_group_kind, tcp_route_kind,
}
use maesh.Topology.Types.{
  Key, key, key_eq, TrafficSpec, BuildError, no_http_route_group, no_tcp_route, no_match,
  unknown_spec,
}
use maesh.Topology.Resources.{Resources}

-- The inner loop of buildHTTPRouteGroupMatches: the first match of that name.
unfoldable pub find_match : String → List HttpMatch → Option HttpMatch
find_match name [] = none
find_match name (m ∷ ms) = if m.name == name then some m else find_match name ms

-- buildHTTPRouteGroupMatches
unfoldable pub build_http_route_group_matches :
    List String → List HttpMatch → List HttpMatch → Key → Result BuildError (List HttpMatch)
build_http_route_group_matches [] group_matches out k = ok out
build_http_route_group_matches (name ∷ names) group_matches out k =
    elim (find_match name group_matches) [
      | none ↦ err (no_match name k)
      | some m ↦ build_http_route_group_matches names group_matches (out ++ m ∷ []) k
    ]

-- An empty list of names selects every match of the group.
unfoldable pub select_matches :
    List String → HttpRouteGroup → Key → Result BuildError (List HttpMatch)
unfolding build_http_route_group_matches
select_matches [] group k = ok group.matches
select_matches (name ∷ names) group k =
    build_http_route_group_matches (name ∷ names) group.matches [] k

-- buildHTTPRouteGroup
unfoldable pub build_http_route_group :
    List (Key × HttpRouteGroup) → String → String → List String → Result BuildError TrafficSpec
unfolding select_matches
build_http_route_group groups ns name matches = elim (lookup (key name ns) groups) [
  | none ↦ err (no_http_route_group (key name ns))
  | some group ↦ select_matches matches group (key name ns) >>= λ ms.
      ok (record { http_route_group = some group; tcp_route = none; http_matches = ms })
]

-- buildTCPRoute
unfoldable pub build_tcp_route :
    List (Key × TcpRoute) → String → String → Result BuildError TrafficSpec
build_tcp_route routes ns name = elim (lookup (key name ns) routes) [
  | none ↦ err (no_tcp_route (key name ns))
  | some route ↦ ok (record { http_route_group = none; tcp_route = some route; http_matches = [] })
]

-- The `switch` on the kind of a reference.
unfoldable pub build_spec :
    Resources → String → String → String → List String → Result BuildError TrafficSpec
unfolding build_http_route_group build_tcp_route
build_spec res ns kind name matches =
    if kind == http_route_group_kind
    then build_http_route_group res.http_route_groups ns name matches
    else if kind == tcp_route_kind
    then build_tcp_route res.tcp_routes ns name
    else err (unknown_spec kind)

-- The loop of buildTrafficTargetRules.
unfoldable pub build_rules :
    Resources
    → String
    → List TrafficTargetRule
    → List TrafficSpec
    → Result BuildError (List TrafficSpec)
build_rules res ns [] out = ok out
build_rules res ns (s ∷ rules) out = build_spec res ns s.kind s.name s.matches >>= λ spec.
    build_rules res ns rules (out ++ spec ∷ [])

-- buildTrafficTargetRules
unfoldable pub build_traffic_target_rules :
    Resources → TrafficTarget → Result BuildError (List TrafficSpec)
unfolding build_rules
build_traffic_target_rules res tt' = build_rules res tt'.namespace tt'.rules []

-- The loop of buildTrafficSplitSpecs.
unfoldable pub build_specs :
    Resources → String → List SplitMatch → List TrafficSpec → Result BuildError (List TrafficSpec)
build_specs res ns [] out = ok out
build_specs res ns (m ∷ matches) out =
    build_spec res ns m.kind m.name [] >>= λ spec. build_specs res ns matches (out ++ spec ∷ [])

-- buildTrafficSplitSpecs
unfoldable pub build_traffic_split_specs :
    Resources → TrafficSplit → Result BuildError (List TrafficSpec)
unfolding build_specs
build_traffic_split_specs res ts = build_specs res ts.namespace ts.matches []
