-- ===== src/Provider/Build/SplitKeys.antt =====
-- pkg/provider/provider.go: building the routers of a traffic split takes no traffic target and no
-- traffic split from the topology.
use maesh.Common.{
  ℕ, suc, String, List, [], ◌∷◌, inl, inr, Result-cases, lookup, Bool-cases, Option-cases, ◌==◌,
  ◌&&◌, if◌then◌else◌, string_eq,
}
use maesh.Kube.{ServicePort}
use maesh.Annotations.{service_type_http, service_type_tcp, service_type_udp}
use maesh.Topology.{Key, key_eq, Service, TrafficSplit, too_many_http_entrypoints, port_not_found}
use maesh.Provider.Servers.{
  Provider, build_http_entrypoint, build_tcp_entrypoint, build_udp_entrypoint,
}
use maesh.Provider.Services.{Run}
use maesh.Provider.Targets.{is_backend}
use maesh.Provider.Rule.{build_http_rule_from_traffic_split_indirect}
use maesh.Provider.Splits.{
  split_error, http_backends, http_split_ports, tcp_split_ports, udp_split_ports, split_by_type,
  build_http_service_and_routers_for_traffic_split, build_service_and_routers_for_traffic_split,
}
use maesh.Provider.Build.Keys.{SameKeys, SameKeys-refl, SameKeys-trans, split_error-SameKeys}

module _ (p : Provider) (ts : TrafficSplit) (svc : Service) (k : Key) where
  tcp_split_ports-SameKeys :
      (sps : List ServicePort) (r : Run)
      → SameKeys r.topology (tcp_split_ports p ts svc k sps r).topology
  unfolding tcp_split_ports
  tcp_split_ports-SameKeys [] r = SameKeys-refl r.topology
  tcp_split_ports-SameKeys (sp ∷ sps) r = elim (Option-cases (build_tcp_entrypoint p svc sp.port)) [
    | inl n ↦
        rw (tcp_split_ports, n)
          (SameKeys-trans (split_error-SameKeys k port_not_found r)
            (tcp_split_ports-SameKeys sps (split_error k port_not_found r)))
    | inr (e, f) ↦ rw (tcp_split_ports, f) (tcp_split_ports-SameKeys sps _)
  ]

  udp_split_ports-SameKeys :
      (sps : List ServicePort) (r : Run)
      → SameKeys r.topology (udp_split_ports p ts svc k sps r).topology
  unfolding udp_split_ports
  udp_split_ports-SameKeys [] r = SameKeys-refl r.topology
  udp_split_ports-SameKeys (sp ∷ sps) r = elim (Option-cases (build_udp_entrypoint p svc sp.port)) [
    | inl n ↦
        rw (udp_split_ports, n)
          (SameKeys-trans (split_error-SameKeys k port_not_found r)
            (udp_split_ports-SameKeys sps (split_error k port_not_found r)))
    | inr (e, f) ↦ rw (udp_split_ports, f) (udp_split_ports-SameKeys sps _)
  ]

  module _ (scheme : String) (ms direct : List String) where
    http_split_ports-SameKeys :
        (rule : String) (i : ℕ) (sps : List ServicePort) (r : Run)
        → SameKeys r.topology (http_split_ports p ts svc k scheme ms direct rule i sps r).topology
    unfolding http_split_ports
    http_split_ports-SameKeys rule i [] r = SameKeys-refl r.topology
    http_split_ports-SameKeys rule i (sp ∷ sps) r =
        let built = http_backends ts sp.port scheme r.topology ts.backends [] r.config in
        let r' : Run = record r { config = built.1 } in
        elim (Result-cases built.0) [
          | inr (e, f) ↦
              rw (http_split_ports, f)
                (SameKeys-trans (split_error-SameKeys k e r')
                  (http_split_ports-SameKeys rule (suc i) sps (split_error k e r')))
          | inl (ws, f) ↦ elim (Option-cases (build_http_entrypoint p i)) [
            | inl n ↦
                rw (http_split_ports, f, n)
                  (SameKeys-trans (split_error-SameKeys k too_many_http_entrypoints r') (
                    http_split_ports-SameKeys rule (suc i) sps
                      (split_error k too_many_http_entrypoints r')))
            | inr (e, g) ↦
                rw (http_split_ports, f, g)
                  (http_split_ports-SameKeys
                    (if is_backend svc && p.acl
                      then build_http_rule_from_traffic_split_indirect ts svc
                      else rule)
                    (suc i) sps _)
          ]
        ]

  split_by_type-SameKeys :
      (scheme t : String) (ms : List String) (r : Run)
      → SameKeys r.topology (split_by_type p ts svc k scheme t ms r).1.topology
  unfolding split_by_type build_http_service_and_routers_for_traffic_split
  split_by_type-SameKeys scheme t ms r = elim (Bool-cases (t == service_type_http)) [
    | inl b ↦ rw b (http_split_ports-SameKeys scheme ms _ _ 0 svc.ports _)
    | inr b ↦ elim (Bool-cases (t == service_type_tcp)) [
      | inl c ↦ rw (b, c) (tcp_split_ports-SameKeys svc.ports r)
      | inr c ↦ elim (Bool-cases (t == service_type_udp)) [
        | inl d ↦ rw (b, c, d) (udp_split_ports-SameKeys svc.ports r)
        | inr d ↦ rw (b, c, d) (SameKeys-refl r.topology)
      ]
    ]
  ]

pub build_service_and_routers_for_traffic_split-SameKeys :
    (p : Provider) (k : Key) (scheme t : String) (ms : List String) (r : Run)
    → SameKeys r.topology (build_service_and_routers_for_traffic_split p k scheme t ms r).1.topology
unfolding build_service_and_routers_for_traffic_split
build_service_and_routers_for_traffic_split-SameKeys p k scheme t ms r =
    elim (Option-cases (lookup k r.topology.traffic_splits)) [
      | inl n ↦ rw (build_service_and_routers_for_traffic_split, n) (SameKeys-refl r.topology)
      | inr (ts, f) ↦ elim (Option-cases (lookup ts.service r.topology.services)) [
        | inl n ↦ rw (build_service_and_routers_for_traffic_split, f, n) (SameKeys-refl r.topology)
        | inr (svc, g) ↦
            rw (build_service_and_routers_for_traffic_split, f, g)
              (split_by_type-SameKeys p ts svc k scheme t ms r)
      ]
    ]
