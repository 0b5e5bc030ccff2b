-- ===== src/Provider/Build/Keys.antt =====
-- pkg/provider/provider.go: no step of BuildConfig takes a traffic target or a traffic split from the
-- topology.
use maesh.Common.{
  Comparable, ℕ, suc, Bool, true, false, String, List, [], ◌∷◌, Option, none, some, ◌≡◌, refl, ◌∙◌,
  inl, inr, lookup, lookup-modify, modify, Bool-cases, Option-cases, ◌==◌, string_eq,
}
use maesh.Kube.{ServicePort}
use maesh.Annotations.{service_type_http, service_type_tcp, service_type_udp}
use maesh.Topology.{
  Key, key_eq, target_key_eq, Service, ServiceTrafficTarget, ServiceTrafficTargetKey, Topology,
  BuildError, add_target_error, add_split_error, too_many_http_entrypoints, port_not_found,
}
use maesh.Provider.Servers.{
  Provider, build_http_entrypoint, build_tcp_entrypoint, build_udp_entrypoint, has_tcp_route,
}
use maesh.Provider.Services.{
  Run, service_error, http_service_ports, tcp_service_ports, udp_service_ports, block_all_ports,
  build_services_and_routers_for_service, build_block_all_routers, svc_key_of,
}
use maesh.Provider.Targets.{
  target_error, http_target_ports, tcp_target_ports, target_by_type, next_rule,
  build_http_services_and_routers_for_traffic_target,
  build_tcp_services_and_routers_for_traffic_target, build_services_and_routers_for_traffic_target,
}
use maesh.Provider.Splits.{split_error}

-- Whether a map has the key.
abbrev pub is_there : {V : Type 0} → Option V → Bool
is_there none = false
is_there (some _) = true

abbrev pub present : {K V : Type 0} ⦃e : Comparable K⦄ → K → List (K × V) → Bool
present k m = is_there (lookup k m)

-- The second topology has the traffic targets and the traffic splits of the first one.
pub record SameKeys (t t' : Topology) : Type 0 where
  pub targets_same :
      (k : ServiceTrafficTargetKey)
      → present k t'.service_traffic_targets ≡ present k t.service_traffic_targets
  pub splits_same : (k : Key) → present k t'.traffic_splits ≡ present k t.traffic_splits

pub SameKeys-refl : (t : Topology) → SameKeys t t
SameKeys-refl t = record { targets_same = λ k. refl; splits_same = λ k. refl }

pub SameKeys-trans : {t1 t2 t3 : Topology} → SameKeys t1 t2 → SameKeys t2 t3 → SameKeys t1 t3
SameKeys-trans a b = record {
  targets_same = λ k. b.targets_same k ∙ a.targets_same k;
  splits_same = λ k. b.splits_same k ∙ a.splits_same k;
}

present-modify :
    {K V : Type 0} ⦃e : Comparable K⦄ (k k' : K) (f : V → V) (m : List (K × V))
    → present k' (modify k f m) ≡ present k' m
present-modify k k' f m =
    let law = lookup-modify k k' f m in
    elim (Bool-cases (k == k')) [
      | inr b ↦ rw (law, b) refl
      | inl b ↦ (elim (Option-cases (lookup k' m)) [
        | inl n ↦ rw (law, b, n) refl
        | inr (v, found) ↦ rw (law, b, found) refl
      ])
    ]

pub target_error-SameKeys :
    (k : ServiceTrafficTargetKey) (e : BuildError) (r : Run)
    → SameKeys r.topology (target_error k e r).topology
target_error-SameKeys k e r = record {
  targets_same = λ k'. present-modify k k' (add_target_error e) r.topology.service_traffic_targets;
  splits_same = λ k'. refl;
}

pub split_error-SameKeys :
    (k : Key) (e : BuildError) (r : Run) → SameKeys r.topology (split_error k e r).topology
split_error-SameKeys k e r = record {
  targets_same = λ k'. refl;
  splits_same = λ k'. present-modify k k' (add_split_error e) r.topology.traffic_splits;
}

-- An error of a service changes neither.
pub service_error-SameKeys :
    (k : Key) (e : BuildError) (r : Run) → SameKeys r.topology (service_error k e r).topology
service_error-SameKeys k e r = record { targets_same = λ k'. refl; splits_same = λ k'. refl }

module _ (p : Provider) (svc : Service) where
  http_service_ports-SameKeys :
      (scheme : String) (ms : List String) (i : ℕ) (sps : List ServicePort) (r : Run)
      → SameKeys r.topology (http_service_ports p svc scheme ms i sps r).topology
  unfolding http_service_ports
  http_service_ports-SameKeys scheme ms i [] r = SameKeys-refl r.topology
  http_service_ports-SameKeys scheme ms i (sp ∷ sps) r =
      elim (Option-cases (build_http_entrypoint p i)) [
        | inl n ↦
            rw (http_service_ports, n)
              (SameKeys-trans (service_error-SameKeys (svc_key_of svc) too_many_http_entrypoints r)
                (http_service_ports-SameKeys scheme ms (suc i) sps
                  (service_error (svc_key_of svc) too_many_http_entrypoints r)))
        | inr (e, f) ↦
            rw (http_service_ports, f) (http_service_ports-SameKeys scheme ms (suc i) sps _)
      ]

  tcp_service_ports-SameKeys :
      (sps : List ServicePort) (r : Run)
      → SameKeys r.topology (tcp_service_ports p svc sps r).topology
  unfolding tcp_service_ports
  tcp_service_ports-SameKeys [] r = SameKeys-refl r.topology
  tcp_service_ports-SameKeys (sp ∷ sps) r =
      elim (Option-cases (build_tcp_entrypoint p svc sp.port)) [
        | inl n ↦
            rw (tcp_service_ports, n)
              (SameKeys-trans (service_error-SameKeys (svc_key_of svc) port_not_found r)
                (tcp_service_ports-SameKeys sps (service_error (svc_key_of svc) port_not_found r)))
        | inr (e, f) ↦ rw (tcp_service_ports, f) (tcp_service_ports-SameKeys sps _)
      ]

  udp_service_ports-SameKeys :
      (sps : List ServicePort) (r : Run)
      → SameKeys r.topology (udp_service_ports p svc sps r).topology
  unfolding udp_service_ports
  udp_service_ports-SameKeys [] r = SameKeys-refl r.topology
  udp_service_ports-SameKeys (sp ∷ sps) r =
      elim (Option-cases (build_udp_entrypoint p svc sp.port)) [
        | inl n ↦
            rw (udp_service_ports, n)
              (SameKeys-trans (service_error-SameKeys (svc_key_of svc) port_not_found r)
                (udp_service_ports-SameKeys sps (service_error (svc_key_of svc) port_not_found r)))
        | inr (e, f) ↦ rw (udp_service_ports, f) (udp_service_ports-SameKeys sps _)
      ]

  block_all_ports-SameKeys :
      (i : ℕ) (sps : List ServicePort) (r : Run)
      → SameKeys r.topology (block_all_ports p svc i sps r).topology
  unfolding block_all_ports
  block_all_ports-SameKeys i [] r = SameKeys-refl r.topology
  block_all_ports-SameKeys i (sp ∷ sps) r = elim (Option-cases (build_http_entrypoint p i)) [
    | inl n ↦
        rw (block_all_ports, n)
          (SameKeys-trans (service_error-SameKeys (svc_key_of svc) too_many_http_entrypoints r) (
            block_all_ports-SameKeys (suc i) sps
              (service_error (svc_key_of svc) too_many_http_entrypoints r)))
    | inr (e, f) ↦ rw (block_all_ports, f) (block_all_ports-SameKeys (suc i) sps _)
  ]

  pub build_block_all_routers-SameKeys :
      (r : Run) → SameKeys r.topology (build_block_all_routers p svc r).topology
  unfolding build_block_all_routers
  build_block_all_routers-SameKeys r = block_all_ports-SameKeys 0 svc.ports r

  pub build_services_and_routers_for_service-SameKeys :
      (scheme t : String) (ms : List String) (r : Run)
      → SameKeys r.topology (build_services_and_routers_for_service p svc scheme t ms r).1.topology
  unfolding build_services_and_routers_for_service
  build_services_and_routers_for_service-SameKeys scheme t ms r =
      elim (Bool-cases (t == service_type_http)) [
        | inl b ↦ rw b (http_service_ports-SameKeys scheme ms 0 svc.ports r)
        | inr b ↦ elim (Bool-cases (t == service_type_tcp)) [
          | inl c ↦ rw (b, c) (tcp_service_ports-SameKeys svc.ports r)
          | inr c ↦ elim (Bool-cases (t == service_type_udp)) [
            | inl d ↦ rw (b, c, d) (udp_service_ports-SameKeys svc.ports r)
            | inr d ↦ rw (b, c, d) (SameKeys-refl r.topology)
          ]
        ]
      ]

module _ (p : Provider) (tt' : ServiceTrafficTarget) (svc : Service)
    (k : ServiceTrafficTargetKey) where
  http_target_ports-SameKeys :
      (scheme : String) (ms : List String) (rule : String) (i : ℕ) (sps : List ServicePort)
      (r : Run)
      → SameKeys r.topology (http_target_ports p tt' svc k scheme ms rule i sps r).topology
  unfolding http_target_ports
  http_target_ports-SameKeys scheme ms rule i [] r = SameKeys-refl r.topology
  http_target_ports-SameKeys scheme ms rule i (sp ∷ sps) r =
      elim (Option-cases (build_http_entrypoint p i)) [
        | inl n ↦
            rw (http_target_ports, n)
              (SameKeys-trans (target_error-SameKeys k too_many_http_entrypoints r) (
                http_target_ports-SameKeys scheme ms rule (suc i) sps
                  (target_error k too_many_http_entrypoints r)))
        | inr (e, f) ↦
            rw (http_target_ports, f)
              (http_target_ports-SameKeys scheme ms (next_rule tt' svc rule) (suc i) sps _)
      ]

  tcp_target_ports-SameKeys :
      (sps : List ServicePort) (r : Run)
      → SameKeys r.topology (tcp_target_ports p tt' svc k sps r).topology
  unfolding tcp_target_ports
  tcp_target_ports-SameKeys [] r = SameKeys-refl r.topology
  tcp_target_ports-SameKeys (sp ∷ sps) r =
      elim (Option-cases (build_tcp_entrypoint p svc sp.port)) [
        | inl n ↦
            rw (tcp_target_ports, n)
              (SameKeys-trans (target_error-SameKeys k port_not_found r)
                (tcp_target_ports-SameKeys sps (target_error k port_not_found r)))
        | inr (e, f) ↦ rw (tcp_target_ports, f) (tcp_target_ports-SameKeys sps _)
      ]

  target_by_type-SameKeys :
      (scheme t : String) (ms : List String) (r : Run)
      → SameKeys r.topology (target_by_type p tt' svc k scheme t ms r).1.topology
  unfolding target_by_type build_http_services_and_routers_for_traffic_target
      build_tcp_services_and_routers_for_traffic_target
  target_by_type-SameKeys scheme t ms r = elim (Bool-cases (t == service_type_http)) [
    | inl b ↦ rw b (http_target_ports-SameKeys scheme ms _ 0 tt'.destination.ports _)
    | inr b ↦ elim (Bool-cases (t == service_type_tcp)) [
      | inl c ↦ elim (Bool-cases (has_tcp_route tt'.rules)) [
        | inl d ↦ rw (b, c, d) (tcp_target_ports-SameKeys tt'.destination.ports r)
        | inr d ↦ rw (b, c, d) (SameKeys-refl r.topology)
      ]
      | inr c ↦ rw (b, c) (SameKeys-refl r.topology)
    ]
  ]

pub build_services_and_routers_for_traffic_target-SameKeys :
    (p : Provider) (k : ServiceTrafficTargetKey) (scheme t : String) (ms : List String) (r : Run)
    → SameKeys r.topology
        (build_services_and_routers_for_traffic_target p k scheme t ms r).1.topology
unfolding build_services_and_routers_for_traffic_target
build_services_and_routers_for_traffic_target-SameKeys p k scheme t ms r =
    elim (Option-cases (lookup k r.topology.service_traffic_targets)) [
      | inl n ↦ rw (build_services_and_routers_for_traffic_target, n) (SameKeys-refl r.topology)
      | inr (tt', f) ↦ elim (Option-cases (lookup tt'.service r.topology.services)) [
        | inl n ↦
            rw (build_services_and_routers_for_traffic_target, f, n) (SameKeys-refl r.topology)
        | inr (svc, g) ↦
            rw (build_services_and_routers_for_traffic_target, f, g)
              (target_by_type-SameKeys p tt' svc k scheme t ms r)
      ]
    ]
