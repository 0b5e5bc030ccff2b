-- ===== src/Provider/Rule.antt =====
-- pkg/provider/rule.go: the rules of the routers, and their priorities.
pub mod Priority
use maesh.Common.{
  ℕ, ◌+◌, ◌*◌, Bool, false, String, List, [], ◌∷◌, ◌++◌, Option, none, some, ◌==◌, ◌||◌,
  if◌then◌else◌, string_eq,
}
use maesh.Common.Text.{concat, join, strip_prefix, count_infix}
use maesh.Kube.Smi.{HttpMatch}
use maesh.Topology.{Service, ServiceTrafficTarget, TrafficSplit, TrafficSpec}

abbrev or_self : String → Option String → String
or_self s none = s
or_self s (some rest) = rest

-- appendPathFilter
unfoldable pub append_path_filter : List String → HttpMatch → List String
append_path_filter parts m =
    if m.path_regex == ""
    then parts
    else parts
      ++ concat (
          "PathPrefix(`/{path:" ∷ or_self m.path_regex (strip_prefix "/" m.path_regex) ∷ "}`)" ∷ [])
        ∷ []

-- Whether a method is the wildcard.
unfoldable pub matches_all : List String → Bool
matches_all [] = false
matches_all (m ∷ ms) = m == "*" || matches_all ms

-- appendMethodFilter
unfoldable pub append_method_filter : List String → HttpMatch → List String
unfolding matches_all
append_method_filter parts m = elim m.methods [
  | [] ↦ parts
  | one ∷ more ↦
      if matches_all (one ∷ more)
      then parts
      else parts ++ concat ("Method(`" ∷ join (one ∷ more) "`,`" ∷ "`)" ∷ []) ∷ []
]

header_rules : List (String × String) → List String
header_rules [] = []
header_rules ((name, value) ∷ headers) =
    concat ("HeadersRegexp(`" ∷ name ∷ "`, `" ∷ value ∷ "`)" ∷ []) ∷ header_rules headers

joined : List String → List String → List String
joined parts [] = parts
joined parts (rule ∷ rules) = parts ++ join (rule ∷ rules) " && " ∷ []

-- appendHeaderFilter, over the headers in the order of the run.
unfoldable pub append_header_filter : List String → HttpMatch → List String
unfolding header_rules joined
append_header_filter parts m = joined parts (header_rules m.headers)

-- The condition of one match; a match without filters gives none.
match_condition : List String → List String
match_condition [] = []
match_condition (part ∷ []) = part ∷ []
match_condition (part ∷ next ∷ parts) =
    concat ("(" ∷ join (part ∷ next ∷ parts) " && " ∷ ")" ∷ []) ∷ []

match_rules : List HttpMatch → List String
unfolding match_condition append_path_filter append_method_filter append_header_filter
match_rules [] = []
match_rules (m ∷ ms) =
    match_condition (append_header_filter (append_method_filter (append_path_filter [] m) m) m)
    ++ match_rules ms

spec_rules : List TrafficSpec → List String
unfolding match_rules
spec_rules [] = []
spec_rules (spec ∷ specs) = match_rules spec.http_matches ++ spec_rules specs

-- buildHTTPRuleFromTrafficSpecs
unfoldable pub build_http_rule_from_traffic_specs : List TrafficSpec → String
unfolding spec_rules
build_http_rule_from_traffic_specs specs = join (spec_rules specs) " || "

-- buildHTTPRuleFromService
unfoldable pub build_http_rule_from_service : Service → String
build_http_rule_from_service svc = concat (
    "Host(`" ∷ svc.name ∷ "." ∷ svc.namespace ∷ ".traefik.mesh`) || Host(`" ∷ svc.cluster_ip ∷ "`)"
    ∷ [])

restricted : String → String → String
restricted svc_rule rule =
    if rule == "" then svc_rule else concat ("(" ∷ svc_rule ∷ ") && (" ∷ rule ∷ ")" ∷ [])

abbrev pub indirect_rule : String
indirect_rule = "HeadersRegexp(`X-Forwarded-For`, `.+`)"

restricted_indirect : String → String → String
restricted_indirect svc_rule rule =
    if rule == ""
    then concat ("(" ∷ svc_rule ∷ ") && " ∷ indirect_rule ∷ [])
    else concat ("(" ∷ svc_rule ∷ ") && (" ∷ rule ∷ ") && " ∷ indirect_rule ∷ [])

-- buildHTTPRuleFromTrafficTarget
unfoldable pub build_http_rule_from_traffic_target : ServiceTrafficTarget → Service → String
unfolding restricted
build_http_rule_from_traffic_target tt' svc =
    restricted (build_http_rule_from_service svc) (build_http_rule_from_traffic_specs tt'.rules)

-- buildHTTPRuleFromTrafficSplit
unfoldable pub build_http_rule_from_traffic_split : TrafficSplit → Service → String
unfolding restricted
build_http_rule_from_traffic_split ts svc =
    restricted (build_http_rule_from_service svc) (build_http_rule_from_traffic_specs ts.rules)

-- buildHTTPRuleFromTrafficTargetIndirect
unfoldable pub build_http_rule_from_traffic_target_indirect :
    ServiceTrafficTarget → Service → String
unfolding restricted_indirect
build_http_rule_from_traffic_target_indirect tt' svc =
    restricted_indirect (build_http_rule_from_service svc)
      (build_http_rule_from_traffic_specs tt'.rules)

-- buildHTTPRuleFromTrafficSplitIndirect
unfoldable pub build_http_rule_from_traffic_split_indirect : TrafficSplit → Service → String
unfolding restricted_indirect
build_http_rule_from_traffic_split_indirect ts svc =
    restricted_indirect (build_http_rule_from_service svc)
      (build_http_rule_from_traffic_specs ts.rules)

-- buildTCPRouterRule
abbrev pub tcp_router_rule : String
tcp_router_rule = "HostSNI(`*`)"

-- getRulePriority
unfoldable pub get_rule_priority : String → ℕ → ℕ
get_rule_priority rule priority = priority * 1000 + (count_infix rule "&&" + count_infix rule "||")
