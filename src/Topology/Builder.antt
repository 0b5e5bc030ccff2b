-- ===== src/Topology/Builder.antt =====
-- pkg/topology/builder.go: the evaluation of services, traffic splits and traffic targets.
pub mod Keyed
use maesh.Common.{
  ℕ, ◌%◌, ◌^◌, Bool, false, String, List, [], ◌∷◌, ◌++◌, Option, none, some, ◌==◌, ◌||◌,
  if◌then◌else◌, Result, ok, err, ◌>>=◌, lookup, insert, modify, nat_eq, string_eq,
}
use maesh.Kube.{ServicePort, ContainerPort}
use maesh.Kube
use maesh.Kube.Smi
use maesh.Kube.Filter.{ResourceFilter}
use maesh.Topology.Types.{
  Key, key, key_eq, ServiceTrafficTargetKey, target_key_eq, Service, Pod, Source, Destination,
  ServiceTrafficTarget, TrafficSplit, TrafficSpec, Topology, new_topology, BuildError, no_service,
  no_root_service, no_backend_service, port_not_exposed, destination_port_not_exposed,
  add_target_error, add_split_error,
}
use maesh.Topology.Resources.{Resources, Cluster, or_nil, load_resources}
use maesh.Topology.Specs.{build_traffic_target_rules, build_traffic_split_specs}
use maesh.Topology.Incoming.{populate_incoming}

-- The ports of all containers of a pod.
unfoldable pub container_ports : List (List ContainerPort) → List ContainerPort
container_ports [] = []
container_ports (c ∷ cs) = c ++ container_ports cs

abbrev pub pod_key : Kube.Pod → Key
pod_key pod = key pod.name pod.namespace

abbrev pub new_pod : Kube.Pod → Pod
new_pod pod = record {
  name = pod.name;
  namespace = pod.namespace;
  service_account = pod.service_account;
  owner_references = pod.owner_references;
  container_ports = container_ports pod.containers;
  ip = pod.pod_ip;
  source_of = [];
  destination_of = [];
}

-- getOrCreatePod; the key that it returns is `pod_key pod`.
unfoldable pub get_or_create_pod : Kube.Pod → Topology → Topology
unfolding container_ports
get_or_create_pod pod t = elim (lookup (pod_key pod) t.pods) [
  | some _ ↦ t
  | none ↦ record t { pods = insert (pod_key pod) (new_pod pod) t.pods }
]

-- The loop of evaluateService over the selected pods.
unfoldable pub create_pods : List Kube.Pod → List Key → Topology → List Key × Topology
unfolding get_or_create_pod
create_pods [] keys t = (keys, t)
create_pods (pod ∷ pods) keys t =
    create_pods pods (keys ++ pod_key pod ∷ []) (get_or_create_pod pod t)

-- The same over the pods that have an address: those of a source, and those of a destination.
unfoldable pub create_ready_pods : List Kube.Pod → List Key → Topology → List Key × Topology
unfolding get_or_create_pod
create_ready_pods [] keys t = (keys, t)
create_ready_pods (pod ∷ pods) keys t =
    let ready = create_ready_pods pods (keys ++ pod_key pod ∷ []) (get_or_create_pod pod t) in
    let skipped = create_ready_pods pods keys t in if pod.pod_ip == "" then skipped else ready

abbrev pub new_service : Kube.Service → List Key → Service
new_service svc pods = record {
  name = svc.name;
  namespace = svc.namespace;
  selector = svc.selector;
  annotations = svc.annotations;
  ports = svc.ports;
  cluster_ip = svc.cluster_ip;
  pods = pods;
  traffic_targets = [];
  traffic_splits = [];
  backend_of = [];
  errors = [];
}

-- evaluateService
unfoldable pub evaluate_service : Resources → Kube.Service → Topology → Topology
unfolding create_pods
evaluate_service res svc t =
    let svc_key = key svc.name svc.namespace in
    let (pods, t') = create_pods (or_nil (lookup svc_key res.pods_by_svc)) [] t in
    record t' { services = insert svc_key (new_service svc pods) t'.services }

-- The inner loop of validateServiceAndBackendPorts.
unfoldable pub exposes : List ServicePort → ℕ → Bool
exposes [] port = false
exposes (p ∷ ps) port = port == p.port || exposes ps port

-- validateServiceAndBackendPorts; the error names the first missing port.
unfoldable pub validate_service_and_backend_ports :
    List ServicePort → List ServicePort → Option BuildError
unfolding exposes
validate_service_and_backend_ports [] backend_ports = none
validate_service_and_backend_ports (p ∷ ps) backend_ports =
    if exposes backend_ports p.port
    then validate_service_and_backend_ports ps backend_ports
    else some (port_not_exposed p.port)

abbrev pub on_split : Key → (TrafficSplit → TrafficSplit) → Topology → Topology
on_split k f t = record t { traffic_splits = modify k f t.traffic_splits }

abbrev pub on_service : Key → (Service → Service) → Topology → Topology
on_service k f t = record t { services = modify k f t.services }

abbrev pub on_target :
    ServiceTrafficTargetKey → (ServiceTrafficTarget → ServiceTrafficTarget) → Topology → Topology
on_target k f t = record t { service_traffic_targets = modify k f t.service_traffic_targets }

-- A backend that exposes the ports of the service is added, on both sides.
abbrev pub add_backend : Key → Smi.SplitBackend → Key → Topology → Topology
add_backend ts_key backend backend_key t =
    on_service backend_key (λ s. record s { backend_of = s.backend_of ++ ts_key ∷ [] })
      (on_split ts_key
        (λ ts. record ts {
          backends = ts.backends ++ record { weight = backend.weight; service = backend_key } ∷ [];
        })
        t)

-- One round of the loop of evaluateTrafficSplit.
unfoldable pub evaluate_backend :
    Key → String → List ServicePort → Smi.SplitBackend → Topology → Topology
evaluate_backend ts_key namespace svc_ports backend t =
    elim (lookup (key backend.service namespace) t.services) [
      | none ↦
          on_split ts_key (add_split_error (no_backend_service (key backend.service namespace))) t
      | some backend_svc ↦ (elim (validate_service_and_backend_ports svc_ports backend_svc.ports) [
        | some e ↦ on_split ts_key (add_split_error e) t
        | none ↦ add_backend ts_key backend (key backend.service namespace) t
      ])
    ]

unfoldable pub evaluate_backends :
    Key → String → List ServicePort → List Smi.SplitBackend → Topology → Topology
unfolding evaluate_backend
evaluate_backends ts_key namespace svc_ports [] t = t
evaluate_backends ts_key namespace svc_ports (b ∷ bs) t =
    evaluate_backends ts_key namespace svc_ports bs
      (evaluate_backend ts_key namespace svc_ports b t)

abbrev pub new_split : Smi.TrafficSplit → TrafficSplit
new_split ts = record {
  name = ts.name;
  namespace = ts.namespace;
  service = key ts.service ts.namespace;
  backends = [];
  rules = [];
  incoming = [];
  errors = [];
}

-- evaluateTrafficSplit behind the rules of the split.
unfoldable pub evaluate_split_with :
    Result BuildError (List TrafficSpec) → Smi.TrafficSplit → Key → Key → Topology → Topology
unfolding evaluate_backends
evaluate_split_with (err e) ts ts_key svc_key t = on_split ts_key (add_split_error e) t
evaluate_split_with (ok rules) ts ts_key svc_key t =
    let t' = on_split ts_key (λ s. record s { rules = rules }) t in
    elim (lookup svc_key t'.services) [
      | none ↦ on_split ts_key (add_split_error (no_root_service svc_key)) t'
      | some svc ↦
          on_service svc_key (λ s. record s { traffic_splits = s.traffic_splits ++ ts_key ∷ [] })
            (evaluate_backends ts_key ts.namespace svc.ports ts.backends t')
    ]

-- evaluateTrafficSplit
unfoldable pub evaluate_traffic_split : Resources → Smi.TrafficSplit → Topology → Topology
unfolding evaluate_split_with
evaluate_traffic_split res ts t =
    let ts_key = key ts.name ts.namespace in
    evaluate_split_with (build_traffic_split_specs res ts) ts ts_key (key ts.service ts.namespace)
      (record t { traffic_splits = insert ts_key (new_split ts) t.traffic_splits })

-- buildTrafficTargetSources, from the sources not yet built.
unfoldable pub build_sources :
    Resources → List Smi.Subject → List Source → Topology → List Source × Topology
unfolding create_ready_pods
build_sources res [] out t = (out, t)
build_sources res (s ∷ sources) out t =
    let (pods, t') =
      create_ready_pods (or_nil (lookup (key s.name s.namespace) res.pods_by_service_accounts)) []
        t in
    let built : Source = record {
      service_account = s.name;
      namespace = s.namespace;
      pods = pods;
    } in
    build_sources res sources (out ++ built ∷ []) t'

-- The loop of getTrafficTargetDestinationPorts: the first port with that target.
unfoldable pub find_target_port : ℕ → List ServicePort → Option ServicePort
find_target_port port [] = none
find_target_port port (p ∷ ps) =
    if p.target_port.int_val == port then some p else find_target_port port ps

-- getTrafficTargetDestinationPorts; the port is an int, of which `int32` keeps the low 32 bits.
unfoldable pub get_traffic_target_destination_ports :
    Option ℕ → Key → List ServicePort → Result BuildError (List ServicePort)
unfolding find_target_port
get_traffic_target_destination_ports none k ports = ok ports
get_traffic_target_destination_ports (some port) k ports =
    elim (find_target_port (port % 2 ^ 32) ports) [
      | none ↦ err (destination_port_not_exposed port k)
      | some p ↦ ok (p ∷ [])
    ]

abbrev pub destination_with : Smi.TrafficTarget → List Key → List ServicePort → Destination
destination_with tt' pods ports = record {
  service_account = tt'.destination.name;
  namespace = tt'.destination.namespace;
  ports = ports;
  pods = pods;
}

-- The two loops of addSourceAndDestinationToPods: a pod that the topology does not have is skipped.
unfoldable pub mark_sources : ServiceTrafficTargetKey → List Key → Topology → Topology
mark_sources k [] t = t
mark_sources k (pod ∷ pods) t =
    mark_sources k pods
      (record t { pods = modify pod (λ p. record p { source_of = p.source_of ++ k ∷ [] }) t.pods })

unfoldable pub mark_destinations : ServiceTrafficTargetKey → List Key → Topology → Topology
mark_destinations k [] t = t
mark_destinations k (pod ∷ pods) t = mark_destinations k pods (record t {
  pods = modify pod (λ p. record p { destination_of = p.destination_of ++ k ∷ [] }) t.pods;
})

unfoldable pub mark_all_sources : ServiceTrafficTargetKey → List Source → Topology → Topology
unfolding mark_sources
mark_all_sources k [] t = t
mark_all_sources k (s ∷ sources) t = mark_all_sources k sources (mark_sources k s.pods t)

-- The last steps of a round of evaluateTrafficTarget, with the destination's pods at hand.
unfoldable pub link_target :
    Smi.TrafficTarget
    → ServiceTrafficTargetKey
    → List Source
    → List Key
    → Result BuildError (List ServicePort)
    → Topology
    → Topology
unfolding mark_destinations mark_all_sources
link_target tt' k sources pods (err e) t =
    on_target k (λ x. add_target_error e (record x { destination = destination_with tt' pods [] }))
      t
link_target tt' k sources pods (ok ports) t = mark_destinations k pods (
    mark_all_sources k sources (
      on_service k.service (λ s. record s { traffic_targets = s.traffic_targets ++ k ∷ [] })
        (on_target k (λ x. record x { destination = destination_with tt' pods ports }) t)))

-- A round behind the rules of the target.
unfoldable pub evaluate_target_with :
    Result BuildError (List TrafficSpec)
    → Smi.TrafficTarget
    → ServiceTrafficTargetKey
    → List Source
    → List Kube.Pod
    → Service
    → Topology
    → Topology
unfolding link_target create_ready_pods
evaluate_target_with (err e) tt' k sources svc_pods svc t = on_target k (add_target_error e) t
evaluate_target_with (ok rules) tt' k sources svc_pods svc t =
    let (pods, t') =
      create_ready_pods svc_pods [] (on_target k (λ x. record x { rules = rules }) t) in
    link_target tt' k sources pods
      (get_traffic_target_destination_ports tt'.destination.port (key tt'.name tt'.namespace)
        svc.ports)
      t'

abbrev pub new_target : Smi.TrafficTarget → Key → List Source → ServiceTrafficTarget
new_target tt' svc_key sources = record {
  service = svc_key;
  name = tt'.name;
  namespace = tt'.namespace;
  sources = sources;
  destination = record { service_account = ""; namespace = ""; ports = []; pods = [] };
  rules = [];
  errors = [];
}

-- One round of the loop of evaluateTrafficTarget, for a service with pods of the account.
unfoldable pub evaluate_target_service :
    Resources → Smi.TrafficTarget → List Source → Key → List Kube.Pod → Topology → Topology
unfolding evaluate_target_with
evaluate_target_service res tt' sources svc_key svc_pods t =
    let k : ServiceTrafficTargetKey = record {
      service = svc_key;
      traffic_target = key tt'.name tt'.namespace;
    } in
    let t' = record t {
      service_traffic_targets = insert k (new_target tt' svc_key sources) t.service_traffic_targets;
    } in
    elim (lookup svc_key t'.services) [
      | none ↦ on_target k (add_target_error (no_service svc_key)) t'
      | some svc ↦
          evaluate_target_with (build_traffic_target_rules res tt') tt' k sources svc_pods svc t'
    ]

unfoldable pub evaluate_target_services :
    Resources → Smi.TrafficTarget → List Source → List (Key × List Kube.Pod) → Topology → Topology
unfolding evaluate_target_service
evaluate_target_services res tt' sources [] t = t
evaluate_target_services res tt' sources ((svc_key, pods) ∷ rest) t =
    evaluate_target_services res tt' sources rest
      (evaluate_target_service res tt' sources svc_key pods t)

-- evaluateTrafficTarget
unfoldable pub evaluate_traffic_target : Resources → Smi.TrafficTarget → Topology → Topology
unfolding build_sources evaluate_target_services
evaluate_traffic_target res tt' t =
    let (sources, t') = build_sources res tt'.sources [] t in
    evaluate_target_services res tt' sources
      (or_nil (lookup (key tt'.destination.name tt'.destination.namespace) res.pods_by_svc_by_sa))
      t'

-- The three loops of Build.
unfoldable pub evaluate_services : Resources → List (Key × Kube.Service) → Topology → Topology
unfolding evaluate_service
evaluate_services res [] t = t
evaluate_services res ((_, svc) ∷ svcs) t = evaluate_services res svcs (evaluate_service res svc t)

unfoldable pub evaluate_traffic_splits :
    Resources → List (Key × Smi.TrafficSplit) → Topology → Topology
unfolding evaluate_traffic_split
evaluate_traffic_splits res [] t = t
evaluate_traffic_splits res ((_, ts) ∷ tss) t =
    evaluate_traffic_splits res tss (evaluate_traffic_split res ts t)

unfoldable pub evaluate_traffic_targets :
    Resources → List (Key × Smi.TrafficTarget) → Topology → Topology
unfolding evaluate_traffic_target
evaluate_traffic_targets res [] t = t
evaluate_traffic_targets res ((_, tt') ∷ tts) t =
    evaluate_traffic_targets res tts (evaluate_traffic_target res tt' t)

-- Build behind the loading of the resources.
unfoldable pub build_from : Resources → Topology
unfolding evaluate_services evaluate_traffic_splits evaluate_traffic_targets populate_incoming
build_from res = populate_incoming (
    evaluate_traffic_targets res res.traffic_targets (
      evaluate_traffic_splits res res.traffic_splits
        (evaluate_services res res.services new_topology)))

-- Build
unfoldable pub build : ResourceFilter → Cluster → Result BuildError Topology
unfolding build_from load_resources
build f c = load_resources f c >>= λ res. ok (build_from res)
