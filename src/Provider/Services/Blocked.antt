-- ===== src/Provider/Services/Blocked.antt =====
-- buildBlockAllRouters, pkg/provider/provider.go: what blocks a service that no traffic target opens.
use maesh.Common.{
  ℕ, suc, String, List, [], ◌∷◌, some, ◌≡◌, ◌⊎◌, inl, inr, refl, ◌∙◌, lookup, lookup-insert,
  lookup-insert_self, Bool-cases, Option-cases, string_eq, ◌==◌,
}
use maesh.Kube.{ServicePort}
use maesh.Topology.{Service}
use maesh.Provider.Dynamic.{
  Configuration, Router, add_http_router, block_all_middleware_key, block_all_service_key,
}
use maesh.Provider.Keys.{get_service_router_key_from_service}
use maesh.Provider.Rule.{build_http_rule_from_service}
use maesh.Provider.Servers.{Provider, build_http_entrypoint}
use maesh.Provider.Services.{Run, block_all_router, block_all_ports, build_block_all_routers}

module _ (p : Provider) (svc : Service) where
  -- A router at an entry point with the service's rule, which passes the block-all middleware alone and
  -- leads to the block-all service.
  abbrev pub Denies : String → Router → Type 0
  Denies e router =
      (router.entry_points ≡ e ∷ [])
      × (router.rule ≡ build_http_rule_from_service svc)
      × (router.middlewares ≡ block_all_middleware_key ∷ [])
      × (router.service ≡ block_all_service_key)

  -- Under the key stands a router that blocks the service, on some entry point of the provider.
  abbrev pub IsBlocked : String → Configuration → Type 0
  IsBlocked k c =
      (i : ℕ) × (e : String) × (build_http_entrypoint p i ≡ some e)
      × (router : Router) × (lookup k c.routers ≡ some router)
      × Denies e router

  -- Each port from index `i` that has an HTTP entry point is blocked.
  abbrev pub Blocks : ℕ → List ServicePort → Configuration → Type 0
  Blocks i [] c = Unit
  Blocks i (sp ∷ sps) c =
      ((e : String)
        → build_http_entrypoint p i ≡ some e
        → IsBlocked (get_service_router_key_from_service svc sp.port) c)
      × Blocks (suc i) sps c

  -- The router under a key is the old one or blocks the service.
  abbrev pub BlocksOnly : Configuration → Configuration → Type 0
  BlocksOnly old c = (k : String) → (lookup k c.routers ≡ lookup k old.routers) ⊎ IsBlocked k c

  BlocksOnly-IsBlocked :
      (k : String) (old c : Configuration) → BlocksOnly old c → IsBlocked k old → IsBlocked k c
  BlocksOnly-IsBlocked k old c only (i, e, at_i, router, found, denies) = elim (only k) [
    | inl same ↦ (i, e, at_i, router, same ∙ found, denies)
    | inr blocked ↦ blocked
  ]

  add_http_router-BlocksOnly :
      (k e : String) (i : ℕ) (old c : Configuration)
      → build_http_entrypoint p i ≡ some e
      → BlocksOnly (add_http_router k (block_all_router svc e) old) c
      → BlocksOnly old c
  unfolding add_http_router
  add_http_router-BlocksOnly k e i old c at_i only k' = elim (only k') [
    | inr blocked ↦ inr blocked
    | inl same ↦ (elim (Bool-cases (k == k')) [
      | inl b ↦
          let law = rw b at (lookup-insert k k' (block_all_router svc e) old.routers) in
          inr (i, e, at_i, block_all_router svc e, same ∙ law, (refl, refl, refl, refl))
      | inr b ↦
          let law = rw b at (lookup-insert k k' (block_all_router svc e) old.routers) in
          inl (same ∙ law)
    ])
  ]

  block_all_ports-BlocksOnly :
      (i : ℕ) (sps : List ServicePort) (r : Run)
      → BlocksOnly r.config (block_all_ports p svc i sps r).config
  unfolding block_all_ports
  block_all_ports-BlocksOnly i [] r = λ k. inl refl
  block_all_ports-BlocksOnly i (sp ∷ sps) r = elim (Option-cases (build_http_entrypoint p i)) [
    | inl n ↦ rw (block_all_ports, n) (block_all_ports-BlocksOnly (suc i) sps _)
    | inr (e, at_i) ↦
        let k = get_service_router_key_from_service svc sp.port in
        let next : Run = record r {
          config = add_http_router k (block_all_router svc e) r.config;
        } in
        rw (block_all_ports, at_i)
          (add_http_router-BlocksOnly k e i r.config (block_all_ports p svc (suc i) sps next).config
            at_i (block_all_ports-BlocksOnly (suc i) sps next))
  ]

  head-IsBlocked :
      (i : ℕ) (e : String) (sp : ServicePort) (sps : List ServicePort) (r : Run)
      → build_http_entrypoint p i ≡ some e
      → IsBlocked
          (get_service_router_key_from_service svc sp.port)
          (block_all_ports p svc i (sp ∷ sps) r).config
  unfolding block_all_ports add_http_router
  head-IsBlocked i e sp sps r at_i =
      let k = get_service_router_key_from_service svc sp.port in
      let router = block_all_router svc e in
      let next : Run = record r { config = add_http_router k router r.config } in
      rw (block_all_ports, at_i)
        (BlocksOnly-IsBlocked k next.config (block_all_ports p svc (suc i) sps next).config
          (block_all_ports-BlocksOnly (suc i) sps next)
          (
            i,
            e,
            at_i,
            router,
            lookup-insert_self k router r.config.routers,
            (refl, refl, refl, refl),
          ))

  block_all_ports-Blocks :
      (i : ℕ) (sps : List ServicePort) (r : Run)
      → Blocks i sps (block_all_ports p svc i sps r).config
  unfolding block_all_ports add_http_router
  block_all_ports-Blocks i [] r = tt
  block_all_ports-Blocks i (sp ∷ sps) r =
      (λ e at_i. head-IsBlocked i e sp sps r at_i, block_all_ports-Blocks (suc i) sps _)

-- After buildBlockAllRouters, every port of the service that has an HTTP entry point has, under the key of
-- its router, a router at an entry point of the provider with the service's rule, which only leads to the
-- block-all middleware and the block-all service; the router under each key is the old one or such a
-- router.
pub build_block_all_routers-Blocks :
    (p : Provider) (svc : Service) (r : Run)
    → Blocks p svc 0 svc.ports (build_block_all_routers p svc r).config
      × BlocksOnly p svc r.config (build_block_all_routers p svc r).config
unfolding build_block_all_routers
build_block_all_routers-Blocks p svc r =
    (block_all_ports-Blocks p svc 0 svc.ports r, block_all_ports-BlocksOnly p svc 0 svc.ports r)
