-- ===== src/Provider/Targets/Same.antt =====
-- pkg/provider/provider.go: building routers changes no more of a traffic target than its errors.
use mathlib.Core.Option
use maesh.Common.{
  ℕ, suc, String, List, [], ◌∷◌, Option, ◌≡◌, refl, inl, inr, ◌∙◌, lookup, lookup-modify,
  Bool-cases, Option-cases, string_eq, ◌==◌,
}
use maesh.Kube.{ServicePort}
use maesh.Topology.{
  Service, Source, ServiceTrafficTarget, ServiceTrafficTargetKey, Topology, BuildError, key_eq,
  target_key_eq, too_many_http_entrypoints, add_target_error,
}
use maesh.Provider.Servers.{Provider, build_http_entrypoint}
use maesh.Provider.Services.{Run}
use maesh.Provider.Targets.{
  http_target_ports, next_rule, target_error, build_http_services_and_routers_for_traffic_target,
}

-- The sources of the traffic target under a key, if there is one.
abbrev pub sources_at : Topology → ServiceTrafficTargetKey → Option (List Source)
sources_at t k =
    Option.map (λ (x : ServiceTrafficTarget). x.sources) (lookup k t.service_traffic_targets)

-- The second topology has the pods of the first one, and its traffic targets with their sources.
abbrev pub SameTargets : Topology → Topology → Type 0
SameTargets t t' =
    (t'.pods ≡ t.pods) × ((k : ServiceTrafficTargetKey) → sources_at t' k ≡ sources_at t k)

pub SameTargets-refl : (t : Topology) → SameTargets t t
SameTargets-refl t = (refl, λ k. refl)

pub SameTargets-trans :
    (t1 t2 t3 : Topology) → SameTargets t1 t2 → SameTargets t2 t3 → SameTargets t1 t3
SameTargets-trans t1 t2 t3 (p1, s1) (p2, s2) = (p2 ∙ p1, λ k. s2 k ∙ s1 k)

pub target_error-SameTargets :
    (k : ServiceTrafficTargetKey) (e : BuildError) (r : Run)
    → SameTargets r.topology (target_error k e r).topology
target_error-SameTargets k e r = (
  refl,
  λ k'.
      let targets = r.topology.service_traffic_targets in
      let law = lookup-modify k k' (add_target_error e) targets in
      elim (Bool-cases (k == k')) [
        | inr b ↦ rw (law, b) refl
        | inl b ↦ (elim (Option-cases (lookup k' targets)) [
          | inl n ↦ rw (law, b, n) refl
          | inr (tt', found) ↦ rw (law, b, found) refl
        ])
      ],
)

module _ (p : Provider) (tt' : ServiceTrafficTarget) (svc : Service) (k : ServiceTrafficTargetKey)
    (scheme : String) (middlewares : List String) where
  http_target_ports-SameTargets :
      (rule : String) (i : ℕ) (sps : List ServicePort) (r : Run)
      → SameTargets r.topology
          (http_target_ports p tt' svc k scheme middlewares rule i sps r).topology
  unfolding http_target_ports
  http_target_ports-SameTargets rule i [] r = SameTargets-refl r.topology
  http_target_ports-SameTargets rule i (sp ∷ sps) r =
      elim (Option-cases (build_http_entrypoint p i)) [
        | inl n ↦
            let next = target_error k too_many_http_entrypoints r in
            rw (http_target_ports, n)
              (SameTargets-trans r.topology next.topology
                (http_target_ports p tt' svc k scheme middlewares rule (suc i) sps next).topology
                (target_error-SameTargets k too_many_http_entrypoints r)
                (http_target_ports-SameTargets rule (suc i) sps next))
        | inr (e, some_e) ↦
            rw (http_target_ports, some_e)
              (http_target_ports-SameTargets (next_rule tt' svc rule) (suc i) sps _)
      ]

  pub build_http_services_and_routers_for_traffic_target-SameTargets :
      (r : Run)
      → SameTargets r.topology
          (build_http_services_and_routers_for_traffic_target p tt' svc k scheme middlewares
            r).topology
  unfolding build_http_services_and_routers_for_traffic_target
  build_http_services_and_routers_for_traffic_target-SameTargets r =
      http_target_ports-SameTargets _ 0 tt'.destination.ports _
