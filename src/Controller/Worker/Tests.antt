-- ===== src/Controller/Worker/Tests.antt =====
-- A work queue and object keys that do what their interfaces say, and runs of the controller on them.
use maesh.Common.{
  ◌∙◌, ℕ, suc, ◌≤◌, ◌<◌, true, false, String, List, [], ◌∷◌, ◌++◌, ◌≡◌, ◌≢◌, ◌↔◌, refl, sym, ap,
  arith, ◌⊎◌, Option, none, some, ◌==◌, string_eq, if◌then◌else◌, lookup, insert, erase,
  lookup-insert, lookup-erase, inl, inr, Bool-cases, Option-cases,
}
use maesh.Common.Text.{cut, has_infix, strip_prefix}
use maesh.Common.Text.Laws.{◌⧺◌, cut-append}
use maesh.Kube.{Service, missing}
use maesh.Kube.Filter
use maesh.Api.{Api, get}
use maesh.Provider.Dynamic.{new_default_dynamic_config}
use maesh.Topology.{new_topology}
use maesh.Controller.PortMapping.{PortMapping}
use maesh.Controller.PortMapping
use maesh.Controller.Shadow.State.{IsSound, IsReady}
use maesh.Controller.Queue.{WorkQueue, ObjectKeys, Got, shut_down, item}
use maesh.Controller.Handler.{service, on_add, on_update, on_delete, enqueue_work, resource_version}
use maesh.Controller.Worker.{
  Config, Controller, World, max_retries, new_mesh_controller, process_next_work_item, sync_named,
  is_watched_resource,
}
use maesh.Controller.Worker.Startup.{Synced, run}
use maesh.Controller.Worker.Steps.{added, worked, Reach, start, later}
use maesh.Controller.Worker.Outcome.{Outcome, process_next_work_item-Outcome}
use maesh.Controller.Worker.Retries.{IsCapped, failures, failures-gives_up, Reach-IsCapped}
use maesh.Controller.Worker.Published.{IsConsistent, IsSteady, Reach-IsSteady}
use maesh.Controller.Worker.Watched.{IsMeshed, is_watched_resource_iff}
use maesh.Controller.Worker.Events.{IsNamed, on_update-process_next_work_item}
use maesh.Controller.Worker.Started.{Started, run-Started}

record Line : Type 0 where
  items : List String
  counts : List (String × ℕ)

abbrev or_zero : Option ℕ → ℕ
or_zero none = 0
or_zero (some n) = n

abbrev line_get : List String → List (String × ℕ) → Got Line
line_get [] counts = shut_down
line_get (k ∷ ks) counts = item k (record { items = ks; counts = counts })

line_get_counts :
    (items : List String) (counts : List (String × ℕ)) (l : String) (q : Line)
    → line_get items counts ≡ item l q
    → q.counts ≡ counts
line_get_counts [] counts l q e = cc e
line_get_counts (k ∷ ks) counts l q e = ground arith

requeued :
    (k l : String) (counts : List (String × ℕ))
    → or_zero (lookup k (insert l (suc (or_zero (lookup l counts))) counts))
      ≡ (if l == k then suc (or_zero (lookup k counts)) else or_zero (lookup k counts))
requeued k l counts =
    ground
      (arith, lookup-insert l k (suc (or_zero (lookup l counts))) counts, string_eq.same_iff l k)

forgotten :
    (k l : String) (counts : List (String × ℕ))
    → or_zero (lookup k (erase l counts)) ≡ (if l == k then 0 else or_zero (lookup k counts))
forgotten k l counts = ground (arith, lookup-erase l k counts)

abbrev line_queue : WorkQueue
line_queue = record {
  Queue = Line;
  get = λ q. line_get q.items q.counts;
  add = λ k q. record q { items = q.items ++ k ∷ [] };
  add_rate_limited = λ k q. record {
    items = q.items ++ k ∷ [];
    counts = insert k (suc (or_zero (lookup k q.counts))) q.counts;
  };
  num_requeues = λ k q. or_zero (lookup k q.counts);
  forget = λ k q. record q { counts = erase k q.counts };
  done = λ k q. q;
  shut = λ q. q;
  get_requeues = λ k l q q' e.
      ap (λ (c : List (String × ℕ)). or_zero (lookup k c))
        (line_get_counts q.items q.counts l q' e);
  add_requeues = λ k l q. refl;
  done_requeues = λ k l q. refl;
  add_rate_limited_requeues = λ k l q. requeued k l q.counts;
  forget_requeues = λ k l q. forgotten k l q.counts;
}

abbrev slashed : String → String → String
slashed namespace name = namespace ⧺ ("/" ⧺ name)

abbrev line_key : String → String → String
line_key namespace name = if namespace == "" then name else slashed namespace name

abbrev line_split : String → Option (String × String)
line_split key = elim (cut "/" key) [
  | none ↦ some ("", key)
  | some (namespace, name) ↦ if has_infix name "/" then none else some (namespace, name)
]

has_infix-none : (s : String) → has_infix s "/" ≡ false → cut "/" s ≡ none
unfolding has_infix
has_infix-none s h = elim (Option-cases (cut "/" s)) [
  | inl e ↦ e
  | inr (parts, e) ↦ absurd (ground arith)
]

unslashed : (name : String) → cut "/" name ≡ none → line_split name ≡ some ("", name)
unslashed name e = rw (e, line_split) refl

split_slashed :
    (namespace name : String)
    → has_infix namespace "/" ≡ false
    → has_infix name "/" ≡ false
    → line_split (line_key namespace name) ≡ some (namespace, name)
split_slashed namespace name h g = elim (Bool-cases (namespace == "")) [
  | inl e ↦ rw e (
      unslashed name (has_infix-none name g)
      ∙ ap (λ (n : String). some (n, name)) (sym ((string_eq.same_iff namespace "").0 e)))
  | inr e ↦ rw (e, line_split, cut-append "/" namespace name (has_infix-none namespace h), g) refl
]

abbrev line_keys : ObjectKeys
line_keys = record {
  meta_key = line_key;
  split_key = line_split;
  split_meta = split_slashed;
  split_plain = λ name plain. unslashed name (has_infix-none name plain);
}

abbrev config : Config
config = record {
  acl_enabled = true;
  default_mode = "http";
  namespace = "maesh";
  watch_namespaces = [];
  ignore_namespaces = "secret" ∷ [];
  min_http_port = 5000;
  max_http_port = 5010;
  min_tcp_port = 10000;
  max_tcp_port = 10050;
  min_udp_port = 15000;
  max_udp_port = 15050;
}

abbrev store : Api
store = record {
  readiness = record { value = false };
  configuration = record { value = new_default_dynamic_config };
  topology = record { value = new_topology };
  namespace = "maesh";
}

abbrev line : Line
line = record { items = []; counts = [] }

abbrev controller : Controller Line
controller = new_mesh_controller config line store

abbrev web : Service
web = record {
  name = "web";
  namespace = "apps";
  labels = [];
  annotations = [];
  type = "ClusterIP";
  selector = [];
  ports = [];
  cluster_ip = "10.0.0.1";
  topology_keys = [];
}

-- The lister knows no service, so the shadow service is to be deleted, and there is none.
abbrev world : World
world = record {
  service = λ namespace name. missing;
  topology_keys = true;
  accepts = λ action. true;
  cluster = record {
    services = some [];
    pods = some [];
    endpoints = none;
    traffic_splits = some [];
    http_route_groups = some [];
    tcp_routes = some [];
    traffic_targets = some [];
  };
}

abbrev enqueued : Controller Line
enqueued = record controller { queue = on_add line_queue line_keys (service web "1") line }

abbrev worked_off : Controller Line
worked_off = (process_next_work_item line_queue line_keys world enqueued).1

reached : Reach line_queue line_keys controller worked_off
unfolding new_mesh_controller
reached = later (later start (added (service web "1"))) (worked world)

no_retries : IsCapped line_queue line
unfolding lookup
no_retries = record { capped = λ key. omega arith }

Reach-IsCapped_example : IsCapped line_queue worked_off.queue
unfolding new_mesh_controller
Reach-IsCapped_example = Reach-IsCapped line_queue line_keys no_retries reached

empty-IsSound :
    (namespace : String) (low high : ℕ)
    → low ≤ 100000
    → high ≤ 100000
    → IsSound (PortMapping.new namespace low high)
unfolding PortMapping.new lookup
empty-IsSound namespace low high l h = record {
  valid = record { unique = tt; single = λ q r v e e'. cc e; ranged = λ q v e. cc e };
  bounded = record { low = omega arith; high = ground arith };
}

controller-IsReady : IsReady controller.manager
unfolding new_mesh_controller
controller-IsReady = record {
  tcp_sound = empty-IsSound "maesh" 10000 10050 (omega arith) (omega arith);
  udp_sound = empty-IsSound "maesh" 15000 15050 (omega arith) (omega arith);
}

controller-IsConsistent : IsConsistent controller.resource_filter controller.cfg controller.store
unfolding new_mesh_controller get
controller-IsConsistent = inl (refl, refl)

Reach-IsSteady_example : IsSteady line_queue line_keys controller worked_off
Reach-IsSteady_example =
    Reach-IsSteady line_queue line_keys controller-IsReady controller-IsConsistent reached

fresh : line_queue.num_requeues "apps/web" line ≡ 0
unfolding lookup
fresh = refl

failures-gives_up_example :
    ((n : ℕ)
      → n < max_retries
      → failures line_queue line_keys (suc n) "apps/web" line
        ≡ line_queue.add_rate_limited "apps/web" (failures line_queue line_keys n "apps/web" line))
    × (failures line_queue line_keys (suc max_retries) "apps/web" line
        ≡ line_queue.forget "apps/web" (failures line_queue line_keys max_retries "apps/web" line))
    × (line_queue.num_requeues "apps/web"
          (failures line_queue line_keys (suc max_retries) "apps/web" line)
        ≡ 0)
failures-gives_up_example = failures-gives_up line_queue line_keys "apps/web" line fresh

process_next_work_item-Outcome_example :
    Outcome line_queue line_keys world enqueued
      (process_next_work_item line_queue line_keys world enqueued)
process_next_work_item-Outcome_example =
    process_next_work_item-Outcome line_queue line_keys world enqueued

abbrev synced : Synced
synced = record {
  kubernetes = true ∷ true ∷ [];
  split = true ∷ [];
  specs = true ∷ true ∷ [];
  access = true ∷ [];
}

run-Started_example :
    Started line_queue synced controller
      (some [])
      none
      (run line_queue synced (some []) none controller)
run-Started_example = run-Started line_queue synced controller (some []) none

is_watched_resource_iff_example :
    (is_watched_resource (new_mesh_controller config line store) (Filter.service web) ≡ true)
    ↔ IsMeshed config web
is_watched_resource_iff_example = is_watched_resource_iff config line store web

web-IsNamed : IsNamed web
unfolding has_infix cut strip_prefix
web-IsNamed = record { namespaced = λ e. cc; namespace_plain = refl; name_plain = refl }

web_taken : line_queue.get enqueued.queue ≡ item (line_keys.meta_key "apps" "web") line
unfolding new_mesh_controller on_add enqueue_work
web_taken = refl

on_update-process_next_work_item_example :
    (on_add line_queue line_keys (service web "2") line
      ≡ line_queue.add (line_keys.meta_key "apps" "web") line)
    × (on_delete line_queue line_keys (service web "2") line
        ≡ line_queue.add (line_keys.meta_key "apps" "web") line)
    × (((resource_version (service web "1") ≡ some "2")
          × (on_update line_queue line_keys (service web "1") (service web "2") line ≡ line))
        ⊎ ((resource_version (service web "1") ≢ some "2")
            × (on_update line_queue line_keys (service web "1") (service web "2") line
                ≡ line_queue.add (line_keys.meta_key "apps" "web") line)))
    × ((process_next_work_item line_queue line_keys world enqueued).1.manager
        ≡ (sync_named world "apps" "web" enqueued.manager).1)
on_update-process_next_work_item_example =
    on_update-process_next_work_item line_queue line_keys (service web "1") web "2" line world
      enqueued line web-IsNamed web_taken
