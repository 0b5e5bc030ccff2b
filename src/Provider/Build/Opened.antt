-- ===== src/Provider/Build/Opened.antt =====
-- pkg/provider/provider.go: the routers that let a caller through to an HTTP service in ACL mode.
use maesh.Common.{
  String, none, some, ◌≡◌, ◌⊎◌, List, inl, inr, ◌∙◌, subst, In, arith, lookup, Option-cases,
  string_eq,
}
use maesh.Annotations.Middleware.{Middleware}
use maesh.Topology.{
  Key, Pod, Service, Source, ServiceTrafficTarget, ServiceTrafficTargetKey, Topology, target_key_eq,
}
use maesh.Provider.Dynamic.{Configuration, Router}
use maesh.Provider.Servers.{Provider}
use maesh.Provider.Services.{Run}
use maesh.Provider.Services.Blocked.{Denies}
use maesh.Provider.Targets.Whitelist.{IsWhitelist}
use maesh.Provider.Targets.Guarded.{Passes, IsOne, IsGuarded}
use maesh.Provider.Targets.Same.{SameTargets}

module _ (svc : Service) (t : Topology) where
  -- A whitelist of one of the service's traffic targets, as the topology holds it.
  abbrev pub IsOwn : Middleware → Type 0
  IsOwn m =
      (k : ServiceTrafficTargetKey) × In k svc.traffic_targets
      × (origin : ServiceTrafficTarget) × (lookup k t.service_traffic_targets ≡ some origin)
      × IsOne t.pods origin m

  -- The router passes a middleware that the configuration holds and that is such a whitelist.
  abbrev pub IsOpened : Configuration → Router → Type 0
  IsOpened c router = (key : String) × (m : Middleware) × Passes c router key m × IsOwn m

  -- A whitelist of a traffic target as it now stands is one of the service's own.
  pub IsOne-IsOwn :
      (k : ServiceTrafficTargetKey) (tt' : ServiceTrafficTarget) (r : Run) (m : Middleware)
      → In k svc.traffic_targets
      → SameTargets t r.topology
      → lookup k r.topology.service_traffic_targets ≡ some tt'
      → IsOne r.topology.pods tt' m
      → IsOwn m
  IsOne-IsOwn k tt' r m at_k (pods_same, sources_same) found one =
      elim (Option-cases (lookup k t.service_traffic_targets)) [
        | inl n ↦ absurd (ground (arith, sources_same k, n, found))
        | inr (origin, o) ↦
            let same : tt'.sources ≡ origin.sources = ground (arith, sources_same k, o, found) in
            let moved =
              subst
                (λ (ps : List (Key × Pod)).
                  IsWhitelist ps tt'.sources none m ⊎ IsWhitelist ps tt'.sources (some 1) m)
                pods_same one in
            (
              k,
              at_k,
              origin,
              o,
              subst
                  (λ (ss : List Source).
                    IsWhitelist t.pods ss none m ⊎ IsWhitelist t.pods ss (some 1) m)
                  same moved,
            )
      ]

  -- A guarded router passes a whitelist of the service's own.
  pub IsGuarded-IsOpened :
      (k : ServiceTrafficTargetKey) (tt' : ServiceTrafficTarget) (r : Run) (c : Configuration)
      (router : Router)
      → ((m : Middleware) → IsOne r.topology.pods tt' m → IsOwn m)
      → IsGuarded r.topology.pods tt' c router
      → IsOpened c router
  IsGuarded-IsOpened k tt' r c router own (inl (m, passes, w)) = (_, m, passes, own m (inl w))
  IsGuarded-IsOpened k tt' r c router own (inr (m, passes, w)) = (_, m, passes, own m (inr w))

  -- A whitelist that a router passes stays one, if no other middleware is put in its place.
  pub IsOpened-kept :
      (c c' : Configuration) (router : Router)
      → ((k : String)
          → (lookup k c'.middlewares ≡ lookup k c.middlewares)
            ⊎ ((m : Middleware) × (lookup k c'.middlewares ≡ some m) × IsOwn m))
      → IsOpened c router
      → IsOpened c' router
  IsOpened-kept c c' router frame (key, m, (passes, there), own) = elim (frame key) [
    | inl same ↦ (key, m, (passes, same ∙ there), own)
    | inr (m', there', own') ↦ (key, m', (passes, there'), own')
  ]

module _ (p : Provider) (svc : Service) (t : Topology) (old : Configuration) where
  -- Each router is an old one, blocks the service or passes such a whitelist; each middleware is an old
  -- one or such a whitelist.
  abbrev pub Closed : Configuration → Type 0
  Closed c =
      ((k : String) (router : Router)
        → lookup k c.routers ≡ some router
        → (lookup k old.routers ≡ some router)
          ⊎ (((e : String) × Denies p svc e router) ⊎ IsOpened svc t c router))
      × ((k : String)
          → (lookup k c.middlewares ≡ lookup k old.middlewares)
            ⊎ ((m : Middleware) × (lookup k c.middlewares ≡ some m) × IsOwn svc t m))
