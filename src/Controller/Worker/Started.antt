-- ===== src/Controller/Worker/Started.antt =====
-- What Run does before it starts the worker.
use maesh.Common.{
  Bool, true, List, [], ◌∷◌, ◌≡◌, ◌↔◌, inl, inr, refl, arith, All, Option, none, some, Option-cases,
  Bool-cases,
}
use maesh.Kube.{Service}
use maesh.Api.{get, set, set_readiness}
use maesh.Controller.PortMapping.{PortMapping}
use maesh.Controller.Queue.{WorkQueue}
use maesh.Controller.PortMapping.Load.{load_state}
use maesh.Controller.Worker.{Config, Controller}
use maesh.Controller.Worker.Startup.{
  Synced, RunError, informers_failed, load_failed, all_synced, start_informers,
  start_base_informers, start_acl_informers, load_port_mappers_state, start_up, run,
}

abbrev pub Every : List Bool → Type 0
Every xs = All (λ b. b ≡ true) xs

-- The caches of all informers that the configuration asks for are filled.
pub record IsSynced (cfg : Config) (s : Synced) : Type 0 where
  pub kubernetes : Every s.kubernetes
  pub split : Every s.split
  pub specs : Every s.specs
  pub access : cfg.acl_enabled ≡ true → Every s.access

all_synced_iff : (xs : List Bool) → (all_synced xs ≡ true) ↔ Every xs
unfolding all_synced
all_synced_iff [] = ground arith
all_synced_iff (x ∷ xs) = ground (arith, all_synced_iff xs)

start_informers_iff : (cfg : Config) (s : Synced) → (start_informers cfg s ≡ true) ↔ IsSynced cfg s
unfolding start_informers start_base_informers start_acl_informers
start_informers_iff cfg s = ground (
  arith,
  all_synced_iff s.kubernetes,
  all_synced_iff s.split,
  all_synced_iff s.specs,
  all_synced_iff s.access,
)

load_state-none : (p : PortMapping) (o : Option (List Service)) → load_state p o ≡ none → o ≡ none
unfolding load_state
load_state-none p none e = refl
load_state-none p (some xs) e = cc

module _ (wq : WorkQueue) (synced : Synced) (c : Controller wq.Queue) where
  -- The ways in which the start ends, each with the controller as it is then.
  pub data Started (tcp udp : Option (List Service))
      : Option RunError × Controller wq.Queue → Type 0 where
    unsynced :
        (IsSynced c.cfg synced → ⊥)
        → Started tcp udp (some informers_failed, record c { queue = wq.shut c.queue })
    no_tcp :
        IsSynced c.cfg synced
        → tcp ≡ none
        → Started tcp udp (some load_failed, record c { queue = wq.shut c.queue })
    no_udp :
        (p : PortMapping)
        → IsSynced c.cfg synced
        → load_state c.manager.tcp tcp ≡ some p
        → udp ≡ none
        → Started tcp udp (
          some load_failed,
          record c { manager = record c.manager { tcp = p }; queue = wq.shut c.queue },
        )
    started :
        (d : Controller wq.Queue)
        → IsSynced c.cfg synced
        → load_state c.manager.tcp tcp ≡ some d.manager.tcp
        → load_state c.manager.udp udp ≡ some d.manager.udp
        → get d.store.readiness ≡ true
        → d.queue ≡ c.queue
        → get d.store.configuration ≡ get c.store.configuration
        → Started tcp udp (none, d)

  -- Run comes to its worker exactly when every informer that the configuration asks for has synced and
  -- both tables could be loaded; then the API says that it is ready, with the configuration and the
  -- queue as they were. Otherwise Run returns the error of the step that failed, with the queue shut
  -- down, and changes nothing else of the controller but the TCP table, where only the UDP table could
  -- not be loaded: the API says of its readiness what it said before.
  pub run-Started : (tcp udp : Option (List Service)) → Started tcp udp (run wq synced tcp udp c)
  unfolding run start_up load_port_mappers_state get set set_readiness
  run-Started tcp udp =
      let informers = start_informers_iff c.cfg synced in
      elim (Bool-cases (start_informers c.cfg synced)) [
        | inr e ↦ rw e (unsynced λ s. cc (e, informers.1 s))
        | inl e ↦ elim (Option-cases (load_state c.manager.tcp tcp)) [
          | inl f ↦
              rw (e, load_port_mappers_state, f) (no_tcp (informers.0 e) (load_state-none _ tcp f))
          | inr (p, f) ↦ elim (Option-cases (load_state c.manager.udp udp)) [
            | inl g ↦
                rw (e, load_port_mappers_state, f, g)
                  (no_udp p (informers.0 e) f (load_state-none _ udp g))
            | inr (q, g) ↦
                rw (e, load_port_mappers_state, f, g) (started _ (informers.0 e) f g refl refl refl)
          ]
        ]
      ]
