-- ===== src/Controller/Worker/Startup.antt =====
-- pkg/controller/controller.go: Run, up to the start of the worker.
use maesh.Common.{Bool, true, false, not, List, [], ◌∷◌, Option, none, some, if◌then◌else◌}
use maesh.Kube.{Service}
use maesh.Api.{set_readiness}
use maesh.Controller.PortMapping.Load.{load_state}
use maesh.Controller.Shadow.{Manager}
use maesh.Controller.Queue.{WorkQueue}
use maesh.Controller.Worker.{Config, Controller}

-- What WaitForCacheSync says of the informers of each factory.
pub record Synced : Type 0 where
  pub kubernetes : List Bool
  pub split : List Bool
  pub specs : List Bool
  pub access : List Bool

-- A loop over the answer of one WaitForCacheSync; `false` is its error.
unfoldable pub all_synced : List Bool → Bool
all_synced [] = true
all_synced (synced ∷ rest) = let others = all_synced rest in if not synced then false else others

-- startBaseInformers
unfoldable pub start_base_informers : Synced → Bool
start_base_informers s =
    if not (all_synced s.kubernetes)
    then false
    else if not (all_synced s.split)
    then false
    else all_synced s.specs

-- startACLInformers
unfoldable pub start_acl_informers : Synced → Bool
start_acl_informers s = all_synced s.access

-- startInformers
unfoldable pub start_informers : Config → Synced → Bool
unfolding start_base_informers start_acl_informers
start_informers cfg s =
    if not (start_base_informers s)
    then false
    else if cfg.acl_enabled
    then start_acl_informers s
    else true

-- loadPortMappersState: the service lister is asked twice. `false` is an error, which leaves a table
-- that was loaded before it.
unfoldable pub load_port_mappers_state :
    Option (List Service) → Option (List Service) → Manager → Bool × Manager
load_port_mappers_state tcp_svcs udp_svcs s = elim (load_state s.tcp tcp_svcs) [
  | none ↦ (false, s)
  | some tcp ↦ elim (load_state s.udp udp_svcs) [
    | none ↦ (false, record s { tcp = tcp })
    | some udp ↦ (true, record s { tcp = tcp; udp = udp })
  ]
]

pub data RunError : Type 0 where
  informers_failed load_failed : RunError

-- Run behind loadPortMappersState: the API says that it is ready.
abbrev pub after_load :
    {Queue : Type 0} → Controller Queue → Bool × Manager → Option RunError × Controller Queue
after_load c (false, s) = (some load_failed, record c { manager = s })
after_load c (true, s) = (none, record c { manager = s; store = set_readiness true c.store })

-- Run, up to the start of the worker: its error, if there is one, and the controller as it then is.
unfoldable pub start_up :
    {Queue : Type 0}
    → Synced
    → Option (List Service)
    → Option (List Service)
    → Controller Queue
    → Option RunError × Controller Queue
unfolding load_port_mappers_state start_informers
start_up synced tcp_svcs udp_svcs c =
    if not (start_informers c.cfg synced)
    then (some informers_failed, c)
    else after_load c (load_port_mappers_state tcp_svcs udp_svcs c.manager)

module _ (wq : WorkQueue) where
  -- A return of Run shuts the queue down, by a deferred call.
  abbrev pub returned :
      Option RunError × Controller wq.Queue → Option RunError × Controller wq.Queue
  returned (none, c) = (none, c)
  returned (some e, c) = (some e, record c { queue = wq.shut c.queue })

  -- Run, up to the start of the worker, or to its return with an error.
  unfoldable pub run :
      Synced
      → Option (List Service)
      → Option (List Service)
      → Controller wq.Queue
      → Option RunError × Controller wq.Queue
  unfolding start_up
  run synced tcp_svcs udp_svcs c = returned (start_up synced tcp_svcs udp_svcs c)
