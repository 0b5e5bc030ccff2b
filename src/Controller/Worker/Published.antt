-- ===== src/Controller/Worker/Published.antt =====
-- What the shared store holds, and the state tables under it.
use maesh.Common.{if◌then◌else◌, ◌∙◌, Bool, true, false, ◌≡◌, refl, sym, subst, ◌⊎◌, inr, ok, some}
use maesh.Topology.{Topology, new_topology}
use maesh.Topology.Builder.{build}
use maesh.Topology.Resources.{Cluster}
use maesh.Provider.Services.{Run}
use maesh.Provider.Build.{build_config}
use maesh.Provider.Dynamic.{new_default_dynamic_config}
use maesh.Api.{Api, get, set_config, set_topology, set}
use maesh.Controller.Shadow.{Manager}
use maesh.Controller.Shadow.State.{IsReady}
use maesh.Controller.Queue.{WorkQueue, ObjectKeys}
use maesh.Controller.Worker.{Config, Controller, World, shutdown, provider}
use maesh.Controller.Worker.Outcome.{
  Outcome, quit, published, panicked, unprepared, unbuilt, process_next_work_item-Outcome, publish,
  prepared-IsReady,
}
use maesh.Controller.Worker.Steps.{
  Step, added, updated, deleted, worked, closed, Reach, start, later,
}
use maesh.Kube.Filter.{ResourceFilter}

-- The configuration and the topology of the store come from one run of the provider, on the topology
-- of some state of the cluster and on sound state tables.
pub record IsBuilt (filter : ResourceFilter) (cfg : Config) (store : Api) : Type 0 where
  pub cluster : Cluster
  pub tables : Manager
  pub topo : Topology
  pub tables_ready : IsReady tables
  pub built : build filter cluster ≡ ok topo
  pub conf : Run
  pub ran : build_config (provider cfg tables) topo ≡ some conf
  pub config_eq : get store.configuration ≡ conf.config
  pub topology_eq : get store.topology ≡ conf.topology

-- The store holds what the API starts with, or such a pair.
abbrev pub IsConsistent : ResourceFilter → Config → Api → Type 0
IsConsistent filter cfg store =
    ((get store.configuration ≡ new_default_dynamic_config) × (get store.topology ≡ new_topology))
    ⊎ IsBuilt filter cfg store

module _ (wq : WorkQueue) (keys : ObjectKeys) where
  -- The parts of the controller that its worker relies on.
  pub record IsSteady (c d : Controller wq.Queue) : Type 0 where
    pub cfg_kept : c.cfg ≡ d.cfg
    pub filter_kept : c.resource_filter ≡ d.resource_filter
    pub readiness_kept : get c.store.readiness ≡ get d.store.readiness
    pub ready : IsReady d.manager
    pub consistent : IsConsistent c.resource_filter c.cfg d.store

  -- A step that leaves all of them alone.
  untouched :
      (c : Controller wq.Queue) (q : wq.Queue) (stopped : Bool)
      → IsReady c.manager
      → IsConsistent c.resource_filter c.cfg c.store
      → IsSteady c (record c { queue = q; stopped = stopped })
  untouched c q stopped h k = record {
    cfg_kept = refl;
    filter_kept = refl;
    readiness_kept = refl;
    ready = h;
    consistent = k;
  }

  publish-IsBuilt :
      (filter : ResourceFilter) (cfg : Config) (s : Manager) (c : Cluster) (topo : Topology)
      (conf : Run) (store : Api)
      → IsReady s
      → build filter c ≡ ok topo
      → build_config (provider cfg s) topo ≡ some conf
      → IsBuilt filter cfg (publish conf store)
  unfolding get set set_config set_topology
  publish-IsBuilt filter cfg s c topo conf store r b n = record {
    cluster = c;
    tables = s;
    topo = topo;
    tables_ready = r;
    built = b;
    conf = conf;
    ran = n;
    config_eq = refl;
    topology_eq = refl;
  }

  Outcome-IsSteady :
      (w : World) (c : Controller wq.Queue) {r : Bool × Controller wq.Queue}
      → Outcome wq keys w c r
      → IsReady c.manager
      → IsConsistent c.resource_filter c.cfg c.store
      → IsSteady c r.1
  unfolding set_config set_topology
  Outcome-IsSteady w c (quit g) h k = untouched c c.queue c.stopped h k
  Outcome-IsSteady w c (published key q s topo conf g p b n) h k =
      let r = subst (λ x. IsReady x.1) p (prepared-IsReady wq keys w key c.manager h) in
      record {
        cfg_kept = refl;
        filter_kept = refl;
        readiness_kept = refl;
        ready = r;
        consistent =
            inr (publish-IsBuilt c.resource_filter c.cfg s w.cluster topo conf c.store r b n);
      }
  Outcome-IsSteady w c (panicked key q s topo g p b n) h k = record {
    cfg_kept = refl;
    filter_kept = refl;
    readiness_kept = refl;
    ready = subst (λ x. IsReady x.1) p (prepared-IsReady wq keys w key c.manager h);
    consistent = k;
  }
  Outcome-IsSteady w c (unprepared key q s x g p) h k = record {
    cfg_kept = refl;
    filter_kept = refl;
    readiness_kept = refl;
    ready = subst (λ x. IsReady x.1) p (prepared-IsReady wq keys w key c.manager h);
    consistent = k;
  }
  Outcome-IsSteady w c (unbuilt key q s x g p b) h k = record {
    cfg_kept = refl;
    filter_kept = refl;
    readiness_kept = refl;
    ready = subst (λ x. IsReady x.1) p (prepared-IsReady wq keys w key c.manager h);
    consistent = k;
  }

  closed-IsSteady :
      (c : Controller wq.Queue) (stopped : Bool)
      → IsReady c.manager
      → IsConsistent c.resource_filter c.cfg c.store
      → IsSteady c (if stopped then c else record c { stopped = true })
  closed-IsSteady c true h k = untouched c c.queue c.stopped h k
  closed-IsSteady c false h k = untouched c c.queue true h k

  Step-IsSteady :
      {c d : Controller wq.Queue}
      → Step wq keys c d
      → IsReady c.manager
      → IsConsistent c.resource_filter c.cfg c.store
      → IsSteady c d
  unfolding shutdown
  Step-IsSteady {c} (added obj) h k = untouched c _ c.stopped h k
  Step-IsSteady {c} (updated old_obj new_obj) h k = untouched c _ c.stopped h k
  Step-IsSteady {c} (deleted obj) h k = untouched c _ c.stopped h k
  Step-IsSteady {c} (worked w) h k =
      Outcome-IsSteady w c (process_next_work_item-Outcome wq keys w c) h k
  Step-IsSteady {c} closed h k = closed-IsSteady c c.stopped h k

  IsSteady-later : {c d e : Controller wq.Queue} → IsSteady c d → Step wq keys d e → IsSteady c e
  IsSteady-later {c} {d} {e} s st =
      let next = Step-IsSteady st s.ready (
        subst (λ f. IsConsistent f d.cfg d.store) s.filter_kept
          (subst (λ g. IsConsistent c.resource_filter g d.store) s.cfg_kept s.consistent)) in
      record {
        cfg_kept = s.cfg_kept ∙ next.cfg_kept;
        filter_kept = s.filter_kept ∙ next.filter_kept;
        readiness_kept = s.readiness_kept ∙ next.readiness_kept;
        ready = next.ready;
        consistent =
            subst (λ f. IsConsistent f c.cfg e.store) (sym s.filter_kept)
              (subst (λ g. IsConsistent d.resource_filter g e.store) (sym s.cfg_kept)
                next.consistent);
      }

  -- From sound state tables and the store that the API starts with, every reachable state has sound
  -- tables, the same configuration, filter and readiness, and a store whose configuration and topology
  -- are still the first ones or both come from one run of the provider on a topology that Build made.
  pub Reach-IsSteady :
      {c d : Controller wq.Queue}
      → IsReady c.manager
      → IsConsistent c.resource_filter c.cfg c.store
      → Reach wq keys c d
      → IsSteady c d
  Reach-IsSteady {c} h k start = untouched c c.queue c.stopped h k
  Reach-IsSteady h k (later r st) = IsSteady-later (Reach-IsSteady h k r) st
