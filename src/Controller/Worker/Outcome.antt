-- ===== src/Controller/Worker/Outcome.antt =====
-- What one item of work comes to.
use maesh.Common.{
  Bool, true, false, String, ◌≡◌, refl, ◌==◌, string_eq, if◌then◌else◌, Option, some, none, inl,
  inr, Bool-cases, Option-cases, Result-cases, ok, err, ◌⊎◌,
}
use maesh.Kube.{Lookup, found, missing, failed}
use maesh.Topology.{Topology, BuildError}
use maesh.Topology.Builder.{build}
use maesh.Provider.Services.{Run}
use maesh.Provider.Build.{build_config}
use maesh.Api.{Api, set_config, set_topology}
use maesh.Controller.Shadow.{Manager}
use maesh.Controller.Shadow.State.{IsReady, create_or_update-IsReady, delete_shadow-IsReady}
use maesh.Controller.Queue.{WorkQueue, ObjectKeys, Got, shut_down, item}
use maesh.Controller.Handler.{config_refresh_key}
use maesh.Controller.Worker.{
  Controller, World, SyncError, handle_err, refresh, refresh_after, process_key, provider,
  process_next_work_item, sync_shadow_service, sync_named, done_with, shadow_of,
}

Lookup-cases :
    {A : Type 0} (l : Lookup A) → ((a : A) × (l ≡ found a)) ⊎ ((l ≡ missing) ⊎ (l ≡ failed))
Lookup-cases (found a) = inl (a, refl)
Lookup-cases missing = inr (inl refl)
Lookup-cases failed = inr (inr refl)

pub Got-cases :
    {Q : Type 0} (g : Got Q) → (g ≡ shut_down) ⊎ ((key : String) × (q : Q) × (g ≡ item key q))
Got-cases shut_down = inl refl
Got-cases (item key q) = inr (key, q, refl)

-- The store with the configuration and the topology that a run of the provider leaves.
abbrev pub publish : Run → Api → Api
publish conf store = set_config conf.config (set_topology conf.topology store)

module _ (wq : WorkQueue) (keys : ObjectKeys) where
  -- What stands before the configuration is built: nothing for the refresh key, else the synchronisation.
  abbrev pub prepared : World → String → Manager → Option SyncError × Manager
  prepared w key s =
      if key == config_refresh_key then (none, s) else sync_shadow_service wq keys w key s

  pub data Outcome (w : World) (c : Controller wq.Queue) : Bool × Controller wq.Queue → Type 0 where
    quit : wq.get c.queue ≡ shut_down → Outcome w c (false, c)
    published :
        (key : String) (q : wq.Queue) (s : Manager) (topo : Topology) (conf : Run)
        → wq.get c.queue ≡ item key q
        → prepared w key c.manager ≡ (none, s)
        → build c.resource_filter w.cluster ≡ ok topo
        → build_config (provider c.cfg s) topo ≡ some conf
        → Outcome w c (
          true,
          record c {
            manager = s;
            store = publish conf c.store;
            queue = wq.done key (wq.forget key q);
          },
        )
    panicked :
        (key : String) (q : wq.Queue) (s : Manager) (topo : Topology)
        → wq.get c.queue ≡ item key q
        → prepared w key c.manager ≡ (none, s)
        → build c.resource_filter w.cluster ≡ ok topo
        → build_config (provider c.cfg s) topo ≡ none
        → Outcome w c (false, record c { manager = s; queue = wq.done key q })
    unprepared :
        (key : String) (q : wq.Queue) (s : Manager) (x : SyncError)
        → wq.get c.queue ≡ item key q
        → prepared w key c.manager ≡ (some x, s)
        → Outcome w c
            (true, record c { manager = s; queue = wq.done key (handle_err wq keys key q) })
    unbuilt :
        (key : String) (q : wq.Queue) (s : Manager) (x : BuildError)
        → wq.get c.queue ≡ item key q
        → prepared w key c.manager ≡ (none, s)
        → build c.resource_filter w.cluster ≡ err x
        → Outcome w c
            (true, record c { manager = s; queue = wq.done key (handle_err wq keys key q) })

  process_key_lem :
      (w : World) (key : String) (c : Controller wq.Queue)
      → process_key wq keys w key c ≡ refresh_after wq keys w key c (prepared w key c.manager)
  unfolding process_key refresh_after
  process_key_lem w key c = elim (Bool-cases (key == config_refresh_key)) [
    | inl e ↦ rw e refl
    | inr e ↦ rw e refl
  ]

  refresh-Outcome :
      (w : World) (c : Controller wq.Queue) (key : String) (q : wq.Queue) (s : Manager)
      → wq.get c.queue ≡ item key q
      → prepared w key c.manager ≡ (none, s)
      → Outcome w c
          (done_with wq keys key (refresh wq keys w key (record c { queue = q; manager = s })))
  unfolding refresh
  refresh-Outcome w c key q s g p = elim (Result-cases (build c.resource_filter w.cluster)) [
    | inl (topo, e) ↦ (elim (Option-cases (build_config (provider c.cfg s) topo)) [
      | inl n ↦ rw (e, refresh, n) (panicked key q s topo g p e n)
      | inr (conf, n) ↦ rw (e, refresh, n) (published key q s topo conf g p e n)
    ])
    | inr (x, e) ↦ rw (e, refresh) (unbuilt key q s x g p e)
  ]

  refresh_after-Outcome :
      (w : World) (c : Controller wq.Queue) (key : String) (q : wq.Queue)
      (o : Option SyncError × Manager)
      → wq.get c.queue ≡ item key q
      → prepared w key c.manager ≡ o
      → Outcome w c (done_with wq keys key (refresh_after wq keys w key (record c { queue = q }) o))
  unfolding refresh_after
  refresh_after-Outcome w c key q (some x, s) g p = unprepared key q s x g p
  refresh_after-Outcome w c key q (none, s) g p = refresh-Outcome w c key q s g p

  -- One round of the worker ends it, as the queue is shut down, or takes one key from the queue. The
  -- store changes only if the topology could be built and, for a key other than the refresh key, the
  -- shadow service synchronised before; then it gets what the provider makes of that topology. On every
  -- error it stays, and the key goes to handleErr; if the provider panics, it stays and the worker ends.
  pub process_next_work_item-Outcome :
      (w : World) (c : Controller wq.Queue) → Outcome w c (process_next_work_item wq keys w c)
  unfolding process_next_work_item
  process_next_work_item-Outcome w c = elim (Got-cases (wq.get c.queue)) [
    | inl e ↦ rw (e, process_next_work_item) (quit e)
    | inr (key, q, e) ↦
        rw (e, process_next_work_item, process_key_lem w key (record c { queue = q }))
          (refresh_after-Outcome w c key q _ e refl)
  ]

  sync_named-IsReady :
      (w : World) (namespace name : String) (s : Manager)
      → IsReady s
      → IsReady (sync_named w namespace name s).1
  unfolding sync_named
  sync_named-IsReady w namespace name s r = elim (Lookup-cases (w.service namespace name)) [
    | inl (svc, e) ↦
        rw (e, sync_named)
          (create_or_update-IsReady (shadow_of w s svc.namespace svc.name) w.topology_keys svc s
            r).0
    | inr (inl e) ↦
        rw (e, sync_named) (delete_shadow-IsReady (shadow_of w s namespace name) namespace name s r)
    | inr (inr e) ↦ rw (e, sync_named) r
  ]

  pub prepared-IsReady :
      (w : World) (key : String) (s : Manager) → IsReady s → IsReady (prepared w key s).1
  unfolding sync_shadow_service
  prepared-IsReady w key s r = elim (Bool-cases (key == config_refresh_key)) [
    | inl e ↦ rw e r
    | inr e ↦ elim (Option-cases (keys.split_key key)) [
      | inl n ↦ rw (e, n, sync_shadow_service) r
      | inr ((namespace, name), n) ↦
          rw (e, n, sync_shadow_service) (sync_named-IsReady w namespace name s r)
    ]
  ]
