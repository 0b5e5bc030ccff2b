-- ===== src/Controller/Worker.antt =====
-- pkg/controller/controller.go: the worker that takes a key from the queue, brings the shadow service up
-- to date, and publishes a new configuration. What the world answers during one item is a record.
pub mod Steps
pub mod Outcome
pub mod Retries
pub mod Published
pub mod Watched
pub mod Entrypoints
mod Tests
pub mod Events
pub mod Startup
pub mod Started
use maesh.Common.{
  ℕ, Bool, true, false, not, String, List, [], ◌∷◌, Option, none, some, ◌==◌, string_eq,
  if◌then◌else◌, Result, ok, err, ltb,
}
use maesh.Kube.{Service, Lookup, found, missing, failed}
use maesh.Kube.Filter.{
  ResourceFilter, Resource, new_resource_filter, watch_namespaces, ignore_namespaces,
  ignore_service, ignore_apps, is_ignored,
}
use maesh.Annotations.Middleware.{build_middlewares}
use maesh.Topology.Resources.{Cluster}
use maesh.Topology.Builder.{build}
use maesh.Provider.Servers.{Provider}
use maesh.Provider.Build.{build_config}
use maesh.Api.{Api, set_config, set_topology, set_readiness}
use maesh.Controller.PortMapping
use maesh.Controller.PortMapping.Load.{load_state}
use maesh.Controller.Shadow.{
  Manager, Action, create, update, delete, nothing, get_failed, ports_failed, create_or_update,
  delete_shadow, get_shadow_service_name,
}
use maesh.Controller.Queue.{WorkQueue, ObjectKeys, shut_down, item}
use maesh.Controller.Handler.{config_refresh_key}

abbrev pub max_retries : ℕ
max_retries = 12

-- Config
pub record Config : Type 0 where
  pub acl_enabled : Bool
  pub default_mode : String
  pub namespace : String
  pub watch_namespaces : List String
  pub ignore_namespaces : List String
  pub min_http_port : ℕ
  pub max_http_port : ℕ
  pub min_tcp_port : ℕ
  pub max_tcp_port : ℕ
  pub min_udp_port : ℕ
  pub max_udp_port : ℕ

-- Controller; the manager holds the two state tables, and the API is the shared store.
pub record Controller (Queue : Type 0) : Type 0 where
  pub cfg : Config
  pub queue : Queue
  pub manager : Manager
  pub resource_filter : ResourceFilter
  pub store : Api
  pub stopped : Bool

-- The filter of NewMeshController.
unfoldable pub mesh_filter : Config → ResourceFilter
mesh_filter cfg = new_resource_filter (
    watch_namespaces cfg.watch_namespaces
    ∷ ignore_namespaces cfg.ignore_namespaces
    ∷ ignore_namespaces ("kube-system" ∷ [])
    ∷ ignore_service "default" "kubernetes"
    ∷ ignore_apps ("maesh" ∷ "jaeger" ∷ [])
    ∷ [])

-- NewMeshController, around a fresh work queue.
unfoldable pub new_mesh_controller : {Queue : Type 0} → Config → Queue → Api → Controller Queue
unfolding mesh_filter
new_mesh_controller cfg queue store = record {
  cfg = cfg;
  queue = queue;
  manager = record {
    namespace = cfg.namespace;
    default_traffic_type = cfg.default_mode;
    min_http_port = cfg.min_http_port;
    max_http_port = cfg.max_http_port;
    tcp = PortMapping.new cfg.namespace cfg.min_tcp_port cfg.max_tcp_port;
    udp = PortMapping.new cfg.namespace cfg.min_udp_port cfg.max_udp_port;
  };
  resource_filter = mesh_filter cfg;
  store = store;
  stopped = false;
}

-- The provider that NewMeshController makes: it reads the state tables of the manager.
unfoldable pub provider : Config → Manager → Provider
provider cfg s = record {
  min_http_port = cfg.min_http_port;
  max_http_port = cfg.max_http_port;
  acl = cfg.acl_enabled;
  default_traffic_type = cfg.default_mode;
  find_tcp = PortMapping.find s.tcp;
  find_udp = PortMapping.find s.udp;
  build_service_middleware = build_middlewares;
}

-- isWatchedResource
unfoldable pub is_watched_resource : {Queue : Type 0} → Controller Queue → Resource → Bool
is_watched_resource c obj = not (is_ignored c.resource_filter obj)

-- Shutdown: the stop channel is closed once.
unfoldable pub shutdown : {Queue : Type 0} → Controller Queue → Controller Queue
shutdown c = if c.stopped then c else record c { stopped = true }

-- What the listers and the API answer while one item is worked on.
pub record World : Type 0 where
  pub service : String → String → Lookup Service
  pub topology_keys : Bool
  pub accepts : Action → Bool
  pub cluster : Cluster

pub data SyncError : Type 0 where
  bad_key lister_failed shadow_failed refused : SyncError

-- The call on the API with which CreateOrUpdate and Delete end.
abbrev pub carry_out : World → Action → Option SyncError
carry_out w nothing = none
carry_out w get_failed = some shadow_failed
carry_out w ports_failed = some shadow_failed
carry_out w action = if w.accepts action then none else some refused

abbrev pub carried_out : World → Action × Manager → Option SyncError × Manager
carried_out w (action, s) = (carry_out w action, s)

-- What the lister says of the shadow service of a service.
abbrev pub shadow_of : World → Manager → String → String → Lookup Service
shadow_of w s namespace name =
    w.service s.namespace (get_shadow_service_name s.namespace namespace name)

-- syncShadowService behind SplitMetaNamespaceKey.
unfoldable pub sync_named : World → String → String → Manager → Option SyncError × Manager
sync_named w namespace name s = elim (w.service namespace name) [
  | failed ↦ (some lister_failed, s)
  | missing ↦ carried_out w (delete_shadow (shadow_of w s namespace name) namespace name s)
  | found svc ↦
      carried_out w (create_or_update (shadow_of w s svc.namespace svc.name) w.topology_keys svc s)
]

module _ (wq : WorkQueue) (keys : ObjectKeys) where
  -- syncShadowService
  unfoldable pub sync_shadow_service : World → String → Manager → Option SyncError × Manager
  unfolding sync_named
  sync_shadow_service w key s = elim (keys.split_key key) [
    | none ↦ (some bad_key, s)
    | some (namespace, name) ↦ sync_named w namespace name s
  ]

  -- handleErr
  unfoldable pub handle_err : String → wq.Queue → wq.Queue
  handle_err key q =
      if ltb (wq.num_requeues key q) max_retries then wq.add_rate_limited key q else wq.forget key q

  -- The second half of processNextWorkItem: the configuration is built and stored. `false` is a panic
  -- of BuildConfig.
  unfoldable pub refresh : World → String → Controller wq.Queue → Bool × Controller wq.Queue
  unfolding handle_err
  refresh w key c = elim (build c.resource_filter w.cluster) [
    | err _ ↦ (true, record c { queue = handle_err key c.queue })
    | ok topo ↦ (elim (build_config (provider c.cfg c.manager) topo) [
      | none ↦ (false, c)
      | some conf ↦ (
        true,
        record c {
          store = set_config conf.config (set_topology conf.topology c.store);
          queue = wq.forget key c.queue;
        },
      )
    ])
  ]

  -- The first half, when the key is that of a service.
  unfoldable pub refresh_after :
      World → String → Controller wq.Queue → Option SyncError × Manager → Bool × Controller wq.Queue
  unfolding refresh handle_err
  refresh_after w key c (some _, s) =
      (true, record c { manager = s; queue = handle_err key c.queue })
  refresh_after w key c (none, s) = refresh w key (record c { manager = s })

  unfoldable pub process_key : World → String → Controller wq.Queue → Bool × Controller wq.Queue
  unfolding refresh refresh_after sync_shadow_service
  process_key w key c =
      if key == config_refresh_key
      then refresh w key c
      else refresh_after w key c (sync_shadow_service w key c.manager)

  -- The deferred call, which a panic makes too.
  abbrev pub done_with : String → Bool × Controller wq.Queue → Bool × Controller wq.Queue
  done_with key (more, c) = (more, record c { queue = wq.done key c.queue })

  -- processNextWorkItem; `false` ends the worker: the queue is shut down, or a panic ends the process.
  unfoldable pub process_next_work_item : World → Controller wq.Queue → Bool × Controller wq.Queue
  unfolding process_key
  process_next_work_item w c = elim (wq.get c.queue) [
    | shut_down ↦ (false, c)
    | item key q ↦ done_with key (process_key w key (record c { queue = q }))
  ]

  -- runWorker, over the answers of the world to one item after the other.
  unfoldable pub run_worker : List World → Controller wq.Queue → Controller wq.Queue
  unfolding process_next_work_item
  run_worker [] c = c
  run_worker (w ∷ ws) c =
      let (more, c') = process_next_work_item w c in
      let rest = run_worker ws c' in if more then rest else c'
