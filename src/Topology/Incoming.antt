-- ===== src/Topology/Incoming.antt =====
-- pkg/topology/builder.go: the pods that may pass through a traffic split. The traffic splits may form
-- a graph; the walk carries the splits that it has visited.
pub mod Admission
pub mod Intersection
pub mod Walks
use maesh.Common.{
  ℕ, zero, suc, ◌+◌, Bool, true, false, List, [], ◌∷◌, ◌++◌, Option, none, some, ◌==◌, ◌||◌,
  if◌then◌else◌, Result, ok, err, lookup, modify, length,
}
use maesh.Topology.Types.{
  Key, key, key_eq, target_key_eq, ServiceTrafficTargetKey, Service, Source, TrafficSplit, Backend,
  Topology, BuildError, no_service, no_traffic_split, no_target, circular_reference,
  add_split_error,
}

unfoldable pub has_key : Key → List Key → Bool
has_key k [] = false
has_key k (j ∷ ks) = j == k || has_key k ks

-- The pods of the second list that stand in the first.
unfoldable pub keep_common : List Key → List Key → List Key
keep_common pods1 [] = []
keep_common pods1 (pod ∷ pods2) =
    let rest = keep_common pods1 pods2 in if has_key pod pods1 then pod ∷ rest else rest

-- unionPod; `none` is a nil slice.
unfoldable pub union_pod : List Key → Option (List Key) → List Key
unfolding keep_common
union_pod pods1 none = pods1
union_pod pods1 (some pods2) = keep_common pods1 pods2

-- The pods of the sources of a traffic target.
unfoldable pub source_pods : List Source → List Key
source_pods [] = []
source_pods (s ∷ sources) = s.pods ++ source_pods sources

-- The loop of getPodsForServiceWithNoTrafficSplits.
unfoldable pub pods_of_targets :
    Topology → List ServiceTrafficTargetKey → List Key → Result BuildError (List Key)
pods_of_targets t [] pods = ok pods
pods_of_targets t (k ∷ ks) pods = elim (lookup k t.service_traffic_targets) [
  | none ↦ err (no_target k)
  | some target ↦ pods_of_targets t ks (pods ++ source_pods target.sources)
]

-- getPodsForServiceWithNoTrafficSplits
unfoldable pub get_pods_for_service_with_no_traffic_splits :
    Topology → Service → Result BuildError (List Key)
unfolding pods_of_targets
get_pods_for_service_with_no_traffic_splits t svc = pods_of_targets t svc.traffic_targets []

-- What a walk gives: the pods, an error, or no answer within the fuel.
pub data Walk : Type 0 where
  pods : List Key → Walk
  failed : BuildError → Walk
  out_of_fuel : Walk

abbrev pub of_result : Result BuildError (List Key) → Walk
of_result (ok ps) = pods ps
of_result (err e) = failed e

-- The early end of either loop, if no pod stands in every part so far.
abbrev pub unless_empty : List Key → (Option (List Key) → Walk) → Walk
unless_empty [] next = pods []
unless_empty (k ∷ ks) next = next (some (k ∷ ks))

-- A step of either loop: the pods that stand in every part so far.
abbrev pub join_step : Walk → Option (List Key) → (Option (List Key) → Walk) → Walk
join_step (failed e) union next = failed e
join_step out_of_fuel union next = out_of_fuel
join_step (pods ps) union next = unless_empty (union_pod ps union) next

abbrev pub or_none : Option (List Key) → Walk
or_none none = pods []
or_none (some ps) = pods ps

-- The loop over the backends of a split, given the walk for the service of a backend.
unfoldable pub over_backends : (Key → Walk) → List Backend → Option (List Key) → Walk
over_backends for_service [] union = or_none union
over_backends for_service (b ∷ bs) union =
    join_step (for_service b.service) union (over_backends for_service bs)

abbrev pub split_key : TrafficSplit → Key
split_key ts = key ts.name ts.namespace

-- The loop over the splits of a service, given the walk for a split. The splits share one visited
-- set: the walk for a split adds the split itself, and all below it works on copies.
unfoldable pub over_splits :
    Topology → (List Key → TrafficSplit → Walk) → List Key → List Key → Option (List Key) → Walk
over_splits t for_split visited [] union = or_none union
over_splits t for_split visited (k ∷ ks) union = elim (lookup k t.traffic_splits) [
  | none ↦ failed (no_traffic_split k)
  | some ts ↦
      join_step (for_split visited ts) union (over_splits t for_split (split_key ts ∷ visited) ks)
]

-- The body of getIncomingPodsForService.
unfoldable pub for_service : Topology → (List Key → TrafficSplit → Walk) → List Key → Key → Walk
unfolding over_splits
for_service t for_split visited k = elim (lookup k t.services) [
  | none ↦ failed (no_service k)
  | some svc ↦ (elim svc.traffic_splits [
    | [] ↦ of_result (get_pods_for_service_with_no_traffic_splits t svc)
    | s ∷ ss ↦ over_splits t for_split visited (s ∷ ss) none
  ])
]

-- getIncomingPodsForTrafficSplit; each backend gets a copy of the visited set.
unfoldable pub get_incoming_pods : ℕ → Topology → List Key → TrafficSplit → Walk
unfolding over_backends for_service
get_incoming_pods zero t visited ts = out_of_fuel
get_incoming_pods (suc fuel) t visited ts = elim (has_key (split_key ts) visited) [
  | true ↦ failed (circular_reference (split_key ts) ts.service)
  | false ↦
      over_backends (for_service t (get_incoming_pods fuel t) (split_key ts ∷ visited)) ts.backends
        none
]

-- The fuel of a walk: a path that visits no split twice is no longer than the number of the splits.
abbrev pub walk_fuel : Topology → ℕ
walk_fuel t = length t.traffic_splits + 2

-- One round of populateTrafficSplitsAuthorizedIncomingTraffic. The second component collects the
-- splits of this service that cause a loop.
unfoldable pub populate_split :
    Key → TrafficSplit → Walk → List Key → Topology → Topology × List Key
populate_split k ts (pods ps) loops t = (
  record t { traffic_splits = modify k (λ s. record s { incoming = ps }) t.traffic_splits },
  loops,
)
populate_split k ts (failed e) loops t =
    (record t { traffic_splits = modify k (add_split_error e) t.traffic_splits }, loops ++ k ∷ [])
populate_split k ts out_of_fuel loops t = (t, loops)

-- The inner loop, over the splits of a service.
unfoldable pub populate_splits : List Key → List Key → Topology → Topology × List Key
unfolding populate_split
populate_splits [] loops t = (t, loops)
populate_splits (k ∷ ks) loops t = elim (lookup k t.traffic_splits) [
  | none ↦ populate_splits ks loops t
  | some ts ↦
      let (t', loops') = populate_split k ts (get_incoming_pods (walk_fuel t) t [] ts) loops t in
      populate_splits ks loops' t'
]

-- The outer loop, over the services of the topology.
unfoldable pub populate_services :
    List (Key × Service) → List (Key × List Key) → Topology → Topology × List (Key × List Key)
unfolding populate_splits
populate_services [] loops t = (t, loops)
populate_services ((k, svc) ∷ svcs) loops t =
    let (t', bad) = populate_splits svc.traffic_splits [] t in
    populate_services svcs ((k, bad) ∷ loops) t'

-- `append(s[:i], s[i+1:]...)` at the first place of the key.
unfoldable pub drop_first : Key → List Key → List Key
drop_first k [] = []
drop_first k (j ∷ ks) = if j == k then ks else j ∷ drop_first k ks

unfoldable pub drop_all : List Key → List Key → List Key
drop_all [] splits = splits
drop_all (k ∷ ks) splits = drop_all ks (drop_first k splits)

-- removeLoopCausingTrafficSplits
unfoldable pub remove_loop_causing_traffic_splits :
    List (Key × List Key) → List (Key × Service) → List (Key × Service)
unfolding drop_first drop_all
remove_loop_causing_traffic_splits [] services = services
remove_loop_causing_traffic_splits ((k, bad) ∷ loops) services =
    remove_loop_causing_traffic_splits loops
      (modify k (λ s. record s { traffic_splits = drop_all bad s.traffic_splits }) services)

-- populateTrafficSplitsAuthorizedIncomingTraffic
unfoldable pub populate_incoming : Topology → Topology
unfolding populate_services remove_loop_causing_traffic_splits
populate_incoming t =
    let (t', loops) = populate_services t.services [] t in
    record t' { services = remove_loop_causing_traffic_splits loops t'.services }
