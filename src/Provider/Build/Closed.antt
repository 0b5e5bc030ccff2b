-- ===== src/Provider/Build/Closed.antt =====
-- buildACLConfigRoutersAndServices, pkg/provider/provider.go: an HTTP service is closed by default.
use maesh.Common.{
  ℕ, suc, String, List, [], ◌∷◌, none, some, ◌≡◌, ◌⊎◌, inl, inr, refl, sym, ap, ◌∙◌, subst, In,
  arith, lookup, Option-cases, string_eq,
}
use maesh.Annotations.{service_type_http}
use maesh.Annotations.Middleware.{Middleware}
use maesh.Kube.{ServicePort}
use maesh.Topology.{
  Service, ServiceTrafficTarget, ServiceTrafficTargetKey, Topology, BuildError, key_eq,
  target_key_eq, no_target, no_service,
}
use maesh.Provider.Dynamic.{Configuration, add_http_router}
use maesh.Provider.Servers.{Provider, build_http_entrypoint}
use maesh.Provider.Services.{Run, block_all_ports, build_block_all_routers}
use maesh.Provider.Services.Blocked.{Denies, build_block_all_routers-Blocks}
use maesh.Provider.Targets.{
  target_error, build_http_services_and_routers_for_traffic_target,
  build_services_and_routers_for_traffic_target, target_by_type,
}
use maesh.Provider.Targets.Guarded.{build_http_services_and_routers_for_traffic_target-Guards}
use maesh.Provider.Build.Opened.{IsOwn, Closed, IsOne-IsOwn, IsGuarded-IsOpened, IsOpened-kept}
use maesh.Provider.Build.{build_targets, build_acl_config, or_target_error}
use maesh.Provider.Targets.Same.{
  SameTargets, SameTargets-trans, target_error-SameTargets,
  build_http_services_and_routers_for_traffic_target-SameTargets,
}

-- The routers that block a service change no pods, traffic targets and middlewares.
block_all_ports-same :
    (p : Provider) (svc : Service) (i : ℕ) (sps : List ServicePort) (r : Run)
    → ((block_all_ports p svc i sps r).topology.service_traffic_targets
        ≡ r.topology.service_traffic_targets)
      × ((block_all_ports p svc i sps r).topology.pods ≡ r.topology.pods)
      × ((block_all_ports p svc i sps r).config.middlewares ≡ r.config.middlewares)
unfolding block_all_ports add_http_router
block_all_ports-same p svc i [] r = (refl, refl, refl)
block_all_ports-same p svc i (sp ∷ sps) r = elim (Option-cases (build_http_entrypoint p i)) [
  | inl n ↦ rw (block_all_ports, n) (block_all_ports-same p svc (suc i) sps _)
  | inr (e, some_e) ↦ rw (block_all_ports, some_e) (block_all_ports-same p svc (suc i) sps _)
]

-- A traffic target of an HTTP service fails, or its service stands in the topology and its HTTP routers are
-- built.
target-cases :
    (p : Provider) (k : ServiceTrafficTargetKey) (scheme : String) (middlewares : List String)
    (r : Run)
    → ((e : BuildError) × (build_services_and_routers_for_traffic_target p k scheme
            service_type_http middlewares r
          ≡ (some e, r)))
      ⊎ ((tt' : ServiceTrafficTarget) × (of : Service) × (lookup k
              r.topology.service_traffic_targets
            ≡ some tt')
          × (build_services_and_routers_for_traffic_target p k scheme service_type_http middlewares
                r
              ≡ (
                none,
                build_http_services_and_routers_for_traffic_target p tt' of k scheme middlewares r,
              )))
unfolding build_services_and_routers_for_traffic_target target_by_type
target-cases p k scheme middlewares r =
    elim (Option-cases (lookup k r.topology.service_traffic_targets)) [
      | inl n ↦ inl (no_target k, rw (build_services_and_routers_for_traffic_target, n) refl)
      | inr (tt', found) ↦ (elim (Option-cases (lookup tt'.service r.topology.services)) [
        | inl n ↦ inl (
          no_service tt'.service,
          rw (build_services_and_routers_for_traffic_target, found, n) refl,
        )
        | inr (of, found') ↦
            inr (
              tt',
              of,
              found,
              rw (build_services_and_routers_for_traffic_target, found, found') refl,
            )
      ])
    ]

module _ (p : Provider) (svc : Service) (t : Topology) (old : Configuration) where
  abbrev IsFine : Run → Type 0
  IsFine r = SameTargets t r.topology × Closed p svc t old r.config

  target_error-IsFine :
      (k : ServiceTrafficTargetKey) (e : BuildError) (r : Run)
      → IsFine r
      → IsFine (target_error k e r)
  target_error-IsFine k e r (s, c) = (
    SameTargets-trans t r.topology (target_error k e r).topology s (target_error-SameTargets k e r),
    c,
  )

  module _ (scheme : String) (middlewares : List String) where
    target-IsFine :
        (k : ServiceTrafficTargetKey) (tt' : ServiceTrafficTarget) (of : Service) (r : Run)
        → In k svc.traffic_targets
        → lookup k r.topology.service_traffic_targets ≡ some tt'
        → IsFine r
        → IsFine
            (build_http_services_and_routers_for_traffic_target p tt' of k scheme middlewares r)
    target-IsFine k tt' of r at_k found (s, (c, f)) =
        let r' =
          build_http_services_and_routers_for_traffic_target p tt' of k scheme middlewares r in
        let same =
          build_http_services_and_routers_for_traffic_target-SameTargets p tt' of k scheme
            middlewares r in
        let (guards, frame) =
          build_http_services_and_routers_for_traffic_target-Guards p tt' of k scheme middlewares
            r in
        let own = λ (m : Middleware). IsOne-IsOwn svc t k tt' r m at_k s found in
        let now : (key : String)
            → (lookup key r'.config.middlewares ≡ lookup key r.config.middlewares)
              ⊎ ((m : Middleware) × (lookup key r'.config.middlewares ≡ some m) × IsOwn svc t m) =
          λ key. elim (frame key) [
            | inl kept ↦ inl kept
            | inr (m, there, one) ↦ inr (m, there, own m one)
          ] in
        (
          SameTargets-trans t r.topology r'.topology s same,
          (
            (λ rk router e. elim (guards rk router e) [
              | inl kept ↦ (elim (c rk router kept) [
                | inl was ↦ inl was
                | inr (inl denies) ↦ inr (inl denies)
                | inr (inr opened) ↦
                    inr (inr (IsOpened-kept svc t r.config r'.config router now opened))
              ])
              | inr guarded ↦
                  inr (inr (IsGuarded-IsOpened svc t k tt' r r'.config router own guarded))
            ]),
            λ key. elim (now key) [
              | inl kept ↦ (elim (f key) [
                | inl was ↦ inl (kept ∙ was)
                | inr (m, there, own_m) ↦ inr (m, kept ∙ there, own_m)
              ])
              | inr other ↦ inr other
            ],
          ),
        )

    -- A traffic target that the topology has makes no panic.
    build_target-IsFine :
        (k : ServiceTrafficTargetKey) (r : Run) (origin : ServiceTrafficTarget)
        → In k svc.traffic_targets
        → lookup k t.service_traffic_targets ≡ some origin
        → IsFine r
        → (r' : Run) × (or_target_error k (
              build_services_and_routers_for_traffic_target p k scheme service_type_http middlewares
                r)
            ≡ some r')
          × IsFine r'
    build_target-IsFine k r origin at_k there (s, c) =
        elim (target-cases p k scheme middlewares r) [
          | inl (e, failed) ↦ (elim (Option-cases (lookup k r.topology.service_traffic_targets)) [
            | inl n ↦ absurd (ground (arith, s.1 k, n, there))
            | inr (tt', found) ↦ (
              target_error k e r,
              rw (failed, or_target_error, found) refl,
              target_error-IsFine k e r (s, c),
            )
          ])
          | inr (tt', of, found, built) ↦
              (_, ap (or_target_error k) built, target-IsFine k tt' of r at_k found (s, c))
        ]

    build_targets-IsFine :
        (ks : List ServiceTrafficTargetKey) (r : Run)
        → ((k : ServiceTrafficTargetKey) → In k ks → In k svc.traffic_targets)
        → ((k : ServiceTrafficTargetKey)
            → In k svc.traffic_targets
            → (origin : ServiceTrafficTarget) × (lookup k t.service_traffic_targets ≡ some origin))
        → IsFine r
        → (r' : Run) × (build_targets p ks scheme service_type_http middlewares r ≡ some r')
          × IsFine r'
    unfolding build_targets
    build_targets-IsFine [] r within held fine = (r, refl, fine)
    build_targets-IsFine (k ∷ ks) r within held fine =
        let at_k = within k (inl refl) in
        let (origin, there) = held k at_k in
        let (r1, step, fine1) = build_target-IsFine k r origin at_k there fine in
        let (r2, rest, fine2) =
          build_targets-IsFine ks r1 (λ k' at_k'. within k' (inr at_k')) held fine1 in
        (r2, rw (build_targets, step) rest, fine2)

build_block_all_routers-IsFine :
    (p : Provider) (svc : Service) (r : Run)
    → IsFine p svc r.topology r.config (build_block_all_routers p svc r)
unfolding build_block_all_routers
build_block_all_routers-IsFine p svc r =
    let (blocks, only) = build_block_all_routers-Blocks p svc r in
    let (targets_same, pods_same, middlewares_same) = block_all_ports-same p svc 0 svc.ports r in
    (
      (pods_same, λ k. rw targets_same refl),
      (
        (λ k router e. elim (only k) [
          | inl same ↦ inl (sym same ∙ e)
          | inr (i, entrypoint, at_i, there, found, denies) ↦
              let is_it : there ≡ router = cc (found, e) in
              inr (inl (entrypoint, subst (Denies p svc entrypoint) is_it denies))
        ]),
        λ k. inl (ap (lookup k) middlewares_same),
      ),
    )

-- The topology has the traffic targets of the service.
abbrev pub Held : Service → Topology → Type 0
Held svc t =
    (k : ServiceTrafficTargetKey)
    → In k svc.traffic_targets
    → (origin : ServiceTrafficTarget) × (lookup k t.service_traffic_targets ≡ some origin)

-- In ACL mode an HTTP service is closed by default. Where the topology has all traffic targets of the
-- service, buildACLConfigRoutersAndServices does not panic, and each router that it leaves is an old one,
-- blocks the service, or passes a middleware of the configuration that it leaves which is a whitelist of
-- exactly the pods of the sources of one of the service's own traffic targets, as the topology holds
-- it. It changes no other middleware than to such a whitelist.
pub build_acl_config-Closed :
    (p : Provider) (svc : Service) (scheme : String) (middlewares : List String) (r : Run)
    → Held svc r.topology
    → (r' : Run) × (build_acl_config p svc scheme service_type_http middlewares r ≡ some r')
      × Closed p svc r.topology r.config r'.config
unfolding build_acl_config
build_acl_config-Closed p svc scheme middlewares r held =
    let (r', built, (_, closed)) =
      build_targets-IsFine p svc r.topology r.config scheme middlewares svc.traffic_targets
        (build_block_all_routers p svc r) (λ k at_k. at_k) held
        (build_block_all_routers-IsFine p svc r) in
    (r', built, closed)
