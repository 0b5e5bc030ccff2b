-- ===== src/Provider/Build/Total.antt =====
-- BuildConfig, pkg/provider/provider.go: no call on a nil pointer, where the services name traffic
-- targets and traffic splits of the topology.
use maesh.Common.{
  Bool, true, false, String, List, [], ◌∷◌, Option, none, some, ◌≡◌, refl, ◌∙◌, inl, inr, ok, err,
  Result, Result-cases, All, lookup, Bool-cases, Option-cases, ◌==◌, if◌then◌else◌, string_eq, ap,
}
use maesh.Annotations.{get_traffic_type, get_scheme, service_type_http}
use maesh.Topology.{
  Key, key_eq, target_key_eq, Service, ServiceTrafficTargetKey, Topology, BuildError,
}
use maesh.Provider.Servers.{Provider}
use maesh.Provider.Services.{Run, build_block_all_routers, build_services_and_routers_for_service}
use maesh.Provider.Targets.{target_error, build_services_and_routers_for_traffic_target}
use maesh.Provider.Splits.{split_error, build_service_and_routers_for_traffic_split}
use maesh.Provider.Build.{
  BuildStep, without_error, or_target_error, or_split_error, or_service_error, build_targets,
  build_acl_config, build_splits, middleware_keys, then_splits, build_routers, with_keys,
  build_config_for_service, build_services, build_config,
}
use maesh.Provider.Build.Keys.{
  present, is_there, SameKeys, SameKeys-refl, SameKeys-trans, target_error-SameKeys,
  split_error-SameKeys, service_error-SameKeys, build_block_all_routers-SameKeys,
  build_services_and_routers_for_service-SameKeys,
  build_services_and_routers_for_traffic_target-SameKeys,
}
use maesh.Provider.Build.SplitKeys.{build_service_and_routers_for_traffic_split-SameKeys}

module _ (t : Topology) where
  -- The topology has the traffic targets and the traffic splits that the service names.
  abbrev pub Names : Service → Type 0
  Names svc =
      All (λ k. present k t.service_traffic_targets ≡ true) svc.traffic_targets
      × All (λ k. present k t.traffic_splits ≡ true) svc.traffic_splits

  -- A run goes on, with the traffic targets and the traffic splits of the topology.
  abbrev Kept : Option Run → Type 0
  Kept o = (r : Run) × (o ≡ some r) × SameKeys t r.topology

  abbrev KeptStep : BuildStep → Type 0
  KeptStep o = (x : Option BuildError × Run) × (o ≡ some x) × SameKeys t x.1.topology

  or_target_error-Kept :
      (k : ServiceTrafficTargetKey) (x : Option BuildError × Run)
      → SameKeys t x.1.topology
      → present k t.service_traffic_targets ≡ true
      → Kept (or_target_error k x)
  or_target_error-Kept k (none, r) s h = (r, refl, s)
  or_target_error-Kept k (some e, r) s h =
      let now = s.targets_same k ∙ h in
      elim (Option-cases (lookup k r.topology.service_traffic_targets)) [
        | inl n ↦ absurd (cc (ap is_there n, now))
        | inr (tt', f) ↦ (
          target_error k e r,
          rw (or_target_error, f) refl,
          SameKeys-trans s (target_error-SameKeys k e r),
        )
      ]

  or_split_error-Kept :
      (k : Key) (x : Option BuildError × Run)
      → SameKeys t x.1.topology
      → present k t.traffic_splits ≡ true
      → Kept (or_split_error k x)
  or_split_error-Kept k (none, r) s h = (r, refl, s)
  or_split_error-Kept k (some e, r) s h =
      let now = s.splits_same k ∙ h in
      elim (Option-cases (lookup k r.topology.traffic_splits)) [
        | inl n ↦ absurd (cc (ap is_there n, now))
        | inr (ts, f) ↦ (
          split_error k e r,
          rw (or_split_error, f) refl,
          SameKeys-trans s (split_error-SameKeys k e r),
        )
      ]

  or_service_error-SameKeys :
      (k : Key) (x : Option BuildError × Run)
      → SameKeys t x.1.topology
      → SameKeys t (or_service_error k x).topology
  or_service_error-SameKeys k (none, r) s = s
  or_service_error-SameKeys k (some e, r) s = SameKeys-trans s (service_error-SameKeys k e r)

  without_error-KeptStep : (o : Option Run) → Kept o → KeptStep (without_error o)
  without_error-KeptStep o (r, e, s) = ((none, r), ap without_error e, s)

  module _ (p : Provider) (scheme traffic_type : String) (ms : List String) where
    build_targets-Kept :
        (ks : List ServiceTrafficTargetKey) (r : Run)
        → SameKeys t r.topology
        → All (λ k. present k t.service_traffic_targets ≡ true) ks
        → Kept (build_targets p ks scheme traffic_type ms r)
    unfolding build_targets
    build_targets-Kept [] r s h = (r, refl, s)
    build_targets-Kept (k ∷ ks) r s (here, rest) =
        let (r1, e1, s1) =
          or_target_error-Kept k
            (build_services_and_routers_for_traffic_target p k scheme traffic_type ms r)
            (SameKeys-trans s
              (build_services_and_routers_for_traffic_target-SameKeys p k scheme traffic_type ms r))
            here in
        let (r2, e2, s2) = build_targets-Kept ks r1 s1 rest in (r2, rw (build_targets, e1) e2, s2)

    build_splits-Kept :
        (ks : List Key) (r : Run)
        → SameKeys t r.topology
        → All (λ k. present k t.traffic_splits ≡ true) ks
        → Kept (build_splits p ks scheme traffic_type ms r)
    unfolding build_splits
    build_splits-Kept [] r s h = (r, refl, s)
    build_splits-Kept (k ∷ ks) r s (here, rest) =
        let (r1, e1, s1) =
          or_split_error-Kept k
            (build_service_and_routers_for_traffic_split p k scheme traffic_type ms r)
            (SameKeys-trans s
              (build_service_and_routers_for_traffic_split-SameKeys p k scheme traffic_type ms r))
            here in
        let (r2, e2, s2) = build_splits-Kept ks r1 s1 rest in (r2, rw (build_splits, e1) e2, s2)

    module _ (svc : Service) where
      blocked-SameKeys :
          (r : Run)
          → SameKeys t r.topology
          → SameKeys t
              (if traffic_type == service_type_http
                then build_block_all_routers p svc r
                else r).topology
      blocked-SameKeys r s = elim (Bool-cases (traffic_type == service_type_http)) [
        | inl b ↦ rw b (SameKeys-trans s (build_block_all_routers-SameKeys p svc r))
        | inr b ↦ rw b s
      ]

      then_splits-KeptStep :
          (o : BuildStep)
          → Names svc
          → KeptStep o
          → KeptStep (then_splits p svc scheme traffic_type ms o)
      unfolding then_splits
      then_splits-KeptStep o names ((some e, r), same, s) = rw same ((some e, r), refl, s)
      then_splits-KeptStep o names ((none, r), same, s) =
          rw same (without_error-KeptStep _ (build_splits-Kept svc.traffic_splits r s names.1))

      -- The routers of the service, with and without ACL.
      own_routers-KeptStep :
          (acl : Bool) (r : Run)
          → Names svc
          → SameKeys t r.topology
          → KeptStep (
              if acl
              then without_error (build_acl_config p svc scheme traffic_type ms r)
              else some (build_services_and_routers_for_service p svc scheme traffic_type ms r))
      unfolding build_acl_config
      own_routers-KeptStep true r names s =
          without_error-KeptStep _
            (build_targets-Kept svc.traffic_targets _ (blocked-SameKeys r s) names.0)
      own_routers-KeptStep false r names s = (
        _,
        refl,
        SameKeys-trans s
            (build_services_and_routers_for_service-SameKeys p svc scheme traffic_type ms r),
      )

      build_routers-KeptStep :
          (r : Run)
          → Names svc
          → SameKeys t r.topology
          → KeptStep (build_routers p svc scheme traffic_type ms r)
      unfolding build_routers
      build_routers-KeptStep r names s =
          then_splits-KeptStep _ names (own_routers-KeptStep p.acl r names s)

  module _ (p : Provider) where
    with_keys-KeptStep :
        (svc : Service) (scheme traffic_type : String) (x : Result BuildError (List String) × Run)
        → Names svc
        → SameKeys t x.1.topology
        → KeptStep (with_keys p svc scheme traffic_type x)
    unfolding with_keys
    with_keys-KeptStep svc scheme traffic_type (err e, r) names s = ((some e, r), refl, s)
    with_keys-KeptStep svc scheme traffic_type (ok ms, r) names s =
        build_routers-KeptStep p scheme traffic_type ms svc r names s

    middleware_keys-SameKeys :
        (svc : Service) (traffic_type : String) (r : Run)
        → SameKeys t r.topology
        → SameKeys t (middleware_keys p svc traffic_type r).1.topology
    unfolding middleware_keys
    middleware_keys-SameKeys svc traffic_type r s =
        elim (Bool-cases (traffic_type == service_type_http)) [
          | inr b ↦ rw b s
          | inl b ↦ elim (Result-cases (p.build_service_middleware svc.annotations)) [
            | inl (ms, e) ↦ rw (b, middleware_keys, e) s
            | inr (x, e) ↦ rw (b, middleware_keys, e) s
          ]
        ]

    build_config_for_service-KeptStep :
        (svc : Service) (r : Run)
        → Names svc
        → SameKeys t r.topology
        → KeptStep (build_config_for_service p svc r)
    unfolding build_config_for_service
    build_config_for_service-KeptStep svc r names s =
        elim (Result-cases (get_traffic_type p.default_traffic_type svc.annotations)) [
          | inr (x, e) ↦ rw (build_config_for_service, e) (_, refl, s)
          | inl (traffic_type, e) ↦ elim (Result-cases (get_scheme svc.annotations)) [
            | inr (x, f) ↦ rw (build_config_for_service, e, f) (_, refl, s)
            | inl (scheme, f) ↦
                rw (build_config_for_service, e, f)
                  (with_keys-KeptStep svc scheme traffic_type _ names
                    (middleware_keys-SameKeys svc traffic_type r s))
          ]
        ]

    build_services-Kept :
        (svcs : List (Key × Service)) (r : Run)
        → All (λ x. Names x.1) svcs
        → SameKeys t r.topology
        → Kept (build_services p svcs r)
    unfolding build_services
    build_services-Kept [] r h s = (r, refl, s)
    build_services-Kept ((k, svc) ∷ svcs) r (here, rest) s =
        let (x, e1, s1) = build_config_for_service-KeptStep svc r here s in
        let (r2, e2, s2) =
          build_services-Kept svcs (or_service_error k x) rest (or_service_error-SameKeys k x s1) in
        (r2, rw (build_services, e1) e2, s2)

-- Every service of the topology names traffic targets and traffic splits that the topology has.
abbrev pub IsLinked : Topology → Type 0
IsLinked t = All (λ x. Names t x.1) t.services

-- BuildConfig never panics on a topology whose services name only traffic targets and traffic splits
-- that it has, whatever the annotations, the ports and the mode: it returns a configuration, with a
-- topology that has the same traffic targets and traffic splits.
pub build_config-SameKeys :
    (p : Provider) (t : Topology)
    → IsLinked t
    → (r : Run) × (build_config p t ≡ some r) × SameKeys t r.topology
unfolding build_config
build_config-SameKeys p t linked = build_services-Kept t p t.services _ linked (SameKeys-refl t)
