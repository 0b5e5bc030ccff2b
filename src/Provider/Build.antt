-- ===== src/Provider/Build.antt =====
-- pkg/provider/provider.go: BuildConfig, over all services of the topology. A run is `none` once it has
-- panicked: AddError on a traffic target or a traffic split that the topology does not have is a call
-- on a nil pointer.
pub mod Keys
mod SplitKeys
pub mod Total
pub mod Opened
pub mod Closed
use maesh.Common.{
  String, List, [], ◌∷◌, ◌++◌, Option, none, some, ◌==◌, if◌then◌else◌, Result, ok, err, string_eq,
  lookup,
}
use maesh.Annotations.{get_traffic_type, get_scheme, service_type_http}
use maesh.Annotations.Middleware.{Middlewares}
use maesh.Topology.{
  key_eq, target_key_eq, Key, ServiceTrafficTargetKey, Service, Topology, BuildError,
  bad_annotations,
}
use maesh.Provider.Dynamic.{Configuration, new_default_dynamic_config, add_middleware}
use maesh.Provider.Keys.{get_middleware_key}
use maesh.Provider.Servers.{Provider}
use maesh.Provider.Services.{
  Run, service_error, build_services_and_routers_for_service, build_block_all_routers,
}
use maesh.Provider.Targets.{build_services_and_routers_for_traffic_target, target_error}
use maesh.Provider.Splits.{build_service_and_routers_for_traffic_split, split_error}

-- The loop of buildMiddlewaresForConfigFromService, over the middlewares in the order of the run.
unfoldable pub add_middlewares :
    Service → Middlewares → List String → Configuration → List String × Configuration
add_middlewares svc [] keys c = (keys, c)
add_middlewares svc ((name, m) ∷ ms) keys c =
    add_middlewares svc ms (keys ++ get_middleware_key svc name ∷ [])
      (add_middleware (get_middleware_key svc name) m c)

-- An error is added to the traffic target; at a missing one this panics.
abbrev pub or_target_error : ServiceTrafficTargetKey → Option BuildError × Run → Option Run
or_target_error k (none, r) = some r
or_target_error k (some e, r) = elim (lookup k r.topology.service_traffic_targets) [
  | none ↦ none
  | some _ ↦ some (target_error k e r)
]

-- The loop of buildACLConfigRoutersAndServices.
unfoldable pub build_targets :
    Provider → List ServiceTrafficTargetKey → String → String → List String → Run → Option Run
build_targets p [] scheme traffic_type middlewares r = some r
build_targets p (k ∷ ks) scheme traffic_type middlewares r =
    elim (or_target_error k
      (build_services_and_routers_for_traffic_target p k scheme traffic_type middlewares r)) [
        | none ↦ none
        | some r' ↦ build_targets p ks scheme traffic_type middlewares r'
      ]

-- buildACLConfigRoutersAndServices
unfoldable pub build_acl_config :
    Provider → Service → String → String → List String → Run → Option Run
unfolding build_targets
build_acl_config p svc scheme traffic_type middlewares r =
    build_targets p svc.traffic_targets scheme traffic_type middlewares
      (if traffic_type == service_type_http then build_block_all_routers p svc r else r)

-- An error is added to the traffic split; at a missing one this panics.
abbrev pub or_split_error : Key → Option BuildError × Run → Option Run
or_split_error k (none, r) = some r
or_split_error k (some e, r) = elim (lookup k r.topology.traffic_splits) [
  | none ↦ none
  | some _ ↦ some (split_error k e r)
]

-- The loop of buildConfigForService over the traffic splits.
unfoldable pub build_splits : Provider → List Key → String → String → List String → Run → Option Run
build_splits p [] scheme traffic_type middlewares r = some r
build_splits p (k ∷ ks) scheme traffic_type middlewares r =
    elim (or_split_error k
      (build_service_and_routers_for_traffic_split p k scheme traffic_type middlewares r)) [
        | none ↦ none
        | some r' ↦ build_splits p ks scheme traffic_type middlewares r'
      ]

-- The keys of the service's middlewares; only an HTTP service has any.
unfoldable pub middleware_keys :
    Provider → Service → String → Run → Result BuildError (List String) × Run
unfolding add_middlewares
middleware_keys p svc traffic_type r =
    if traffic_type == service_type_http
    then (elim (p.build_service_middleware svc.annotations) [
      | err _ ↦ (err bad_annotations, r)
      | ok ms ↦
          let (keys, c) = add_middlewares svc ms [] r.config in (ok keys, record r { config = c })
    ])
    else (ok [], r)

-- What a step of buildConfigForService gives: an error or none, behind the run; or a panic.
abbrev pub BuildStep : Type 0
BuildStep = Option (Option BuildError × Run)

-- A step that adds no error of its own.
abbrev without_error : Option Run → BuildStep
without_error none = none
without_error (some r) = some (none, r)

-- The rest of buildConfigForService once the service has its own routers.
unfoldable pub then_splits :
    Provider → Service → String → String → List String → BuildStep → BuildStep
unfolding build_splits
then_splits p svc scheme traffic_type middlewares none = none
then_splits p svc scheme traffic_type middlewares (some (some e, r)) = some (some e, r)
then_splits p svc scheme traffic_type middlewares (some (none, r)) =
    without_error (build_splits p svc.traffic_splits scheme traffic_type middlewares r)

-- The routers of the service, and behind them those of its traffic splits; without ACL an unknown
-- traffic type is an error.
unfoldable pub build_routers : Provider → Service → String → String → List String → Run → BuildStep
unfolding build_acl_config then_splits
build_routers p svc scheme traffic_type middlewares r =
    then_splits p svc scheme traffic_type middlewares (
      if p.acl
      then without_error (build_acl_config p svc scheme traffic_type middlewares r)
      else some (build_services_and_routers_for_service p svc scheme traffic_type middlewares r))

with_keys : Provider → Service → String → String → Result BuildError (List String) × Run → BuildStep
unfolding build_routers
with_keys p svc scheme traffic_type (err e, r) = some (some e, r)
with_keys p svc scheme traffic_type (ok keys, r) = build_routers p svc scheme traffic_type keys r

-- buildConfigForService
unfoldable pub build_config_for_service : Provider → Service → Run → BuildStep
unfolding with_keys middleware_keys
build_config_for_service p svc r = elim (get_traffic_type p.default_traffic_type svc.annotations) [
  | err _ ↦ some (some bad_annotations, r)
  | ok traffic_type ↦ (elim (get_scheme svc.annotations) [
    | err _ ↦ some (some bad_annotations, r)
    | ok scheme ↦ with_keys p svc scheme traffic_type (middleware_keys p svc traffic_type r)
  ])
]

abbrev or_service_error : Key → Option BuildError × Run → Run
or_service_error k (none, r) = r
or_service_error k (some e, r) = service_error k e r

-- The loop of BuildConfig over the services, each as the topology held it at the start: no step
-- changes more of a service than its errors.
unfoldable pub build_services : Provider → List (Key × Service) → Run → Option Run
unfolding build_config_for_service
build_services p [] r = some r
build_services p ((k, svc) ∷ svcs) r = elim (build_config_for_service p svc r) [
  | none ↦ none
  | some step ↦ build_services p svcs (or_service_error k step)
]

-- BuildConfig
unfoldable pub build_config : Provider → Topology → Option Run
unfolding build_services
build_config p t =
    build_services p t.services (record { topology = t; config = new_default_dynamic_config })
