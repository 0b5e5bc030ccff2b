-- ===== src/Provider/Targets/Guarded.antt =====
-- buildHTTPServicesAndRoutersForTrafficTarget, pkg/provider/provider.go: its routers pass a whitelist.
use maesh.Common.{
  ℕ, suc, false, String, List, [], ◌∷◌, ◌++◌, none, some, ◌≡◌, ◌⊎◌, inl, inr, refl, sym, ◌∙◌, subst,
  In, In-append, insert, lookup, lookup-insert, lookup-insert_self, Bool-cases, Option-cases,
  string_eq, eq_iff, if◌then◌else◌, ◌==◌,
}
use maesh.Kube.{ServicePort}
use maesh.Annotations.Middleware.{Middleware}
use maesh.Topology.{
  Key, Pod, Service, ServiceTrafficTarget, ServiceTrafficTargetKey, Topology,
  too_many_http_entrypoints,
}
use maesh.Provider.Dynamic.{
  Configuration, Router, add_http_router, add_http_service, add_middleware,
}
use maesh.Provider.Keys.{
  get_whitelist_middleware_key_from_traffic_target_direct,
  get_whitelist_middleware_key_from_traffic_target_indirect,
}
use maesh.Provider.Rule.{build_http_rule_from_traffic_target}
use maesh.Provider.Servers.{
  Provider, build_http_router, add_to_slice_copy, build_http_entrypoint,
  build_whitelist_middleware_from_traffic_target_direct,
  build_whitelist_middleware_from_traffic_target_indirect,
}
use maesh.Provider.Services.{Run}
use maesh.Provider.Targets.{
  add_direct, add_indirect, is_backend, http_target_ports, next_rule, target_error,
  build_http_services_and_routers_for_traffic_target,
}
use maesh.Provider.Targets.Whitelist.{
  IsWhitelist, direct-IsWhitelist, indirect-IsWhitelist, direct-ne-indirect,
}

-- The router passes the middleware of this name, which the configuration holds.
abbrev pub Passes : Configuration → Router → String → Middleware → Type 0
Passes c r key m = In key r.middlewares × (lookup key c.middlewares ≡ some m)

lookup-add_middleware :
    (k : String) (m : Middleware) (c : Configuration)
    → lookup k (add_middleware k m c).middlewares ≡ some m
unfolding add_middleware
lookup-add_middleware k m c = lookup-insert_self k m c.middlewares

module _ (pods : List (Key × Pod)) (tt' : ServiceTrafficTarget) where
  -- One of the two whitelists of the traffic target.
  abbrev pub IsOne : Middleware → Type 0
  IsOne m = IsWhitelist pods tt'.sources none m ⊎ IsWhitelist pods tt'.sources (some 1) m

  -- The router passes one of the two whitelists of the traffic target under its own name.
  abbrev pub IsGuarded : Configuration → Router → Type 0
  IsGuarded c r =
      ((m : Middleware) × Passes c r (get_whitelist_middleware_key_from_traffic_target_direct tt') m
        × IsWhitelist pods tt'.sources none m)
      ⊎ ((m : Middleware) × Passes c r
            (get_whitelist_middleware_key_from_traffic_target_indirect tt') m
          × IsWhitelist pods tt'.sources (some 1) m)

  -- Every router is an old one or passes a whitelist, and every middleware is an old one or a whitelist.
  abbrev pub Guards : Configuration → Configuration → Type 0
  Guards old c =
      ((k : String) (r : Router)
        → lookup k c.routers ≡ some r
        → (lookup k old.routers ≡ some r) ⊎ IsGuarded c r)
      × ((k : String)
          → (lookup k c.middlewares ≡ lookup k old.middlewares)
            ⊎ ((m : Middleware) × (lookup k c.middlewares ≡ some m) × IsOne m))

  -- The direct whitelist is there, under its name.
  abbrev Ready : Configuration → Type 0
  Ready c =
      (m : Middleware) × (lookup (get_whitelist_middleware_key_from_traffic_target_direct tt')
          c.middlewares
        ≡ some m)
      × IsWhitelist pods tt'.sources none m

  last-In : (middlewares : List String) (key : String) → In key (middlewares ++ key ∷ [])
  last-In middlewares key = (In-append key middlewares (key ∷ [])).1 (inr (inl refl))

  module _ (old : Configuration) where
    abbrev IsFine : Configuration → Type 0
    IsFine c = Guards old c × Ready c

    add_http_router-IsFine :
        (k : String) (r : Router) (c : Configuration)
        → IsGuarded c r
        → IsFine c
        → IsFine (add_http_router k r c)
    unfolding add_http_router
    add_http_router-IsFine k r c guarded ((g, f), there) =
        let law = λ (k' : String). lookup-insert k k' r c.routers in
        (
          (
            (λ k' r' e. elim (Bool-cases (k == k')) [
              | inl b ↦
                  let now = rw b at (law k') in
                  let same : r ≡ r' = cc (now, e) in inr (subst (IsGuarded c) same guarded)
              | inr b ↦ let now = rw b at (law k') in g k' r' (sym now ∙ e)
            ]),
            f,
          ),
          there,
        )

    add_direct-IsFine :
        (t : Topology) (scheme : String) (middlewares : List String) (rule entrypoint : String)
        (sp : ServicePort) (c : Configuration)
        → IsFine c
        → IsFine (add_direct t tt' scheme middlewares rule entrypoint sp c)
    unfolding add_direct add_http_service build_http_router add_to_slice_copy
    add_direct-IsFine t scheme middlewares rule entrypoint sp c (g, (m, found, white)) =
        add_http_router-IsFine _ _ _ (inl (m, (last-In middlewares _, found), white))
          (g, (m, found, white))

    -- The indirect whitelist takes no other whitelist's place but an older one of its own.
    add_middleware-IsFine :
        (m : Middleware) (c : Configuration)
        → IsWhitelist pods tt'.sources (some 1) m
        → IsFine c
        → IsFine
            (add_middleware (get_whitelist_middleware_key_from_traffic_target_indirect tt') m c)
    unfolding add_middleware
    add_middleware-IsFine m c white ((g, f), (d, found, direct)) =
        let key = get_whitelist_middleware_key_from_traffic_target_indirect tt' in
        let direct_key = get_whitelist_middleware_key_from_traffic_target_direct tt' in
        let law = λ (k : String). lookup-insert key k m c.middlewares in
        let apart : (key == direct_key) ≡ false = elim (Bool-cases (key == direct_key)) [
          | inl e ↦ absurd (direct-ne-indirect tt' (sym ((eq_iff key direct_key).0 e)))
          | inr e ↦ e
        ] in
        let kept : lookup direct_key (insert key m c.middlewares)
            ≡ lookup direct_key c.middlewares =
          rw apart at (law direct_key) in
        let now = lookup-insert_self key m c.middlewares in
        (
          (
            (λ k r e. elim (g k r e) [
              | inl was ↦ inl was
              | inr (inl (m', (passes, there), w)) ↦ inr (inl (m', (passes, kept ∙ there), w))
              | inr (inr (m', (passes, there), w)) ↦ inr (inr (m, (passes, now), white))
            ]),
            λ k. elim (Bool-cases (key == k)) [
              | inl b ↦ inr (m, (rw b at (law k)), inr white)
              | inr b ↦ (elim (f k) [
                | inl same ↦ inl ((rw b at (law k)) ∙ same)
                | inr (m', there, one) ↦ inr (m', (rw b at (law k)) ∙ there, one)
              ])
            ],
          ),
          (d, kept ∙ found, direct),
        )

    add_indirect-IsFine :
        (t : Topology) (svc : Service) (middlewares : List String) (entrypoint : String)
        (sp : ServicePort) (c : Configuration)
        → t.pods ≡ pods
        → IsFine c
        → IsFine (add_indirect t tt' svc middlewares entrypoint sp c)
    unfolding add_indirect build_http_router add_to_slice_copy
    add_indirect-IsFine t svc middlewares entrypoint sp c same fine =
        let key = get_whitelist_middleware_key_from_traffic_target_indirect tt' in
        let m = build_whitelist_middleware_from_traffic_target_indirect t tt' in
        let white : IsWhitelist pods tt'.sources (some 1) m =
          subst (λ (ps : List (Key × Pod)). IsWhitelist ps tt'.sources (some 1) m) same
            (indirect-IsWhitelist t tt') in
        add_http_router-IsFine _ _ _
          (inr (m, (last-In middlewares key, lookup-add_middleware key m c), white))
          (add_middleware-IsFine m c white fine)

    module _ (p : Provider) (svc : Service) (k : ServiceTrafficTargetKey) (scheme : String)
        (middlewares : List String) where
      indirect-IsFine :
          (t : Topology) (entrypoint : String) (sp : ServicePort) (c : Configuration)
          → t.pods ≡ pods
          → IsFine c
          → IsFine
              (if is_backend svc then add_indirect t tt' svc middlewares entrypoint sp c else c)
      indirect-IsFine t entrypoint sp c same fine = elim (Bool-cases (is_backend svc)) [
        | inl b ↦ rw b (add_indirect-IsFine t svc middlewares entrypoint sp c same fine)
        | inr b ↦ rw b fine
      ]

      http_target_ports-IsFine :
          (rule : String) (i : ℕ) (sps : List ServicePort) (r : Run)
          → r.topology.pods ≡ pods
          → IsFine r.config
          → IsFine (http_target_ports p tt' svc k scheme middlewares rule i sps r).config
      unfolding http_target_ports
      http_target_ports-IsFine rule i [] r same fine = fine
      http_target_ports-IsFine rule i (sp ∷ sps) r same fine =
          elim (Option-cases (build_http_entrypoint p i)) [
            | inl n ↦
                rw (http_target_ports, n)
                  (http_target_ports-IsFine rule (suc i) sps
                    (target_error k too_many_http_entrypoints r) same fine)
            | inr (e, some_e) ↦
                let direct = add_direct r.topology tt' scheme middlewares rule e sp r.config in
                rw (http_target_ports, some_e)
                  (http_target_ports-IsFine (next_rule tt' svc rule) (suc i) sps _ same (
                    indirect-IsFine r.topology e sp direct same
                      (add_direct-IsFine r.topology scheme middlewares rule e sp r.config fine)))
          ]

pub build_http_services_and_routers_for_traffic_target-Guards :
    (p : Provider) (tt' : ServiceTrafficTarget) (svc : Service) (k : ServiceTrafficTargetKey)
    (scheme : String) (middlewares : List String) (r : Run)
    → Guards r.topology.pods tt' r.config
        (build_http_services_and_routers_for_traffic_target p tt' svc k scheme middlewares r).config
unfolding build_http_services_and_routers_for_traffic_target add_middleware
build_http_services_and_routers_for_traffic_target-Guards p tt' svc k scheme middlewares r =
    let key = get_whitelist_middleware_key_from_traffic_target_direct tt' in
    let m = build_whitelist_middleware_from_traffic_target_direct r.topology tt' in
    let white = direct-IsWhitelist r.topology tt' in
    let law = λ (k' : String). lookup-insert key k' m r.config.middlewares in
    (http_target_ports-IsFine r.topology.pods tt' r.config p svc k scheme middlewares
      (build_http_rule_from_traffic_target tt' svc) 0 tt'.destination.ports
      (record r { config = add_middleware key m r.config }) refl
      (
        (
          (λ rk router e. inl e),
          λ k'. elim (Bool-cases (key == k')) [
            | inl b ↦ inr (m, (rw b at (law k')), inl white)
            | inr b ↦ inl (rw b at (law k'))
          ],
        ),
        (m, lookup-insert_self key m r.config.middlewares, white),
      )).0
