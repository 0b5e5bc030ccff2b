-- ===== src/Topology/Tests.antt =====
-- Runs of the walks over a topology in which the split of one service leads to another split, and of
-- the text forms of keys.
use maesh.Common.{
  String, List, [], ◌∷◌, ◌≡◌, ◌≢◌, ◌↔◌, refl, none, some, ok, In, lookup, arith, string_eq,
}
use maesh.Common.Text.{cut, strip_prefix}
use maesh.Topology.Types.{
  Key, key, key_eq, target_key_eq, key_beq_iff, ServiceTrafficTargetKey, Service,
  ServiceTrafficTarget, TrafficSplit, Backend, Topology,
}
use maesh.Topology.Builder.{build_from}
use maesh.Topology.Builder.Keyed.{build_from-IsKeyed}
use maesh.Topology.Resources.{Resources, no_resources}
use maesh.Kube.Smi
use maesh.Topology.Keys.{marshal_key, unmarshal_key, marshal_target_key, unmarshal_target_key}
use maesh.Topology.Keys.RoundTrip.{
  unmarshal_key-marshal_key, unmarshal_target_key-marshal_target_key,
}
use maesh.Topology.Incoming.{
  get_incoming_pods, walk_fuel, pods, out_of_fuel, has_key, keep_common, union_pod, source_pods,
  pods_of_targets, get_pods_for_service_with_no_traffic_splits, over_backends, over_splits,
  for_service,
}
use maesh.Topology.Incoming.Admission.{Admits, split, get_incoming_pods-Admits}
use maesh.Topology.Incoming.Walks.{IsKeyed, get_incoming_pods-walk_fuel}

abbrev service_of : String → List ServiceTrafficTargetKey → List Key → Service
service_of name targets splits = record {
  name = name;
  namespace = "apps";
  selector = [];
  annotations = [];
  ports = [];
  cluster_ip = "10.0.0.1";
  pods = [];
  traffic_targets = targets;
  traffic_splits = splits;
  backend_of = [];
  errors = [];
}

abbrev split_of : String → String → List Backend → TrafficSplit
split_of name service backends = record {
  name = name;
  namespace = "apps";
  service = key service "apps";
  backends = backends;
  rules = [];
  incoming = [];
  errors = [];
}

abbrev target_of : String → List Key → ServiceTrafficTarget
target_of service sources = record {
  service = key service "apps";
  name = "allow";
  namespace = "apps";
  sources = record { service_account = "caller"; namespace = "apps"; pods = sources } ∷ [];
  destination = record { service_account = "callee"; namespace = "apps"; ports = []; pods = [] };
  rules = [];
  errors = [];
}

abbrev allow : String → ServiceTrafficTargetKey
allow service = record { service = key service "apps"; traffic_target = key "allow" "apps" }

abbrev to : String → Backend
to name = record { weight = 1; service = key name "apps" }

-- "front" splits to "v1" and "back"; "back" splits to "v2".
abbrev front : TrafficSplit
front = split_of "front-split" "front" (to "v1" ∷ to "back" ∷ [])

abbrev back : TrafficSplit
back = split_of "back-split" "back" (to "v2" ∷ [])

abbrev pod_a : Key
pod_a = key "a" "apps"

abbrev pod_b : Key
pod_b = key "b" "apps"

abbrev mesh : Topology
mesh = record {
  services =
      (key "front" "apps", service_of "front" [] (key "front-split" "apps" ∷ []))
      ∷ (key "back" "apps", service_of "back" [] (key "back-split" "apps" ∷ []))
      ∷ (key "v1" "apps", service_of "v1" (allow "v1" ∷ []) [])
      ∷ (key "v2" "apps", service_of "v2" (allow "v2" ∷ []) [])
      ∷ [];
  pods = [];
  service_traffic_targets =
      (allow "v1", target_of "v1" (pod_a ∷ pod_b ∷ []))
      ∷ (allow "v2", target_of "v2" (pod_b ∷ []))
      ∷ [];
  traffic_splits = (key "front-split" "apps", front) ∷ (key "back-split" "apps", back) ∷ [];
}

walked : get_incoming_pods 4 mesh [] front ≡ pods (pod_b ∷ [])
unfolding get_incoming_pods has_key keep_common union_pod source_pods pods_of_targets
    get_pods_for_service_with_no_traffic_splits over_backends over_splits for_service lookup
walked = refl

get_incoming_pods-Admits_example : In pod_b (pod_b ∷ []) ↔ Admits mesh pod_b (split front)
get_incoming_pods-Admits_example =
    get_incoming_pods-Admits mesh pod_b 4 [] front (pod_b ∷ []) walked

mesh-IsKeyed : IsKeyed mesh
unfolding lookup
mesh-IsKeyed k ts e =
    ground
      (arith, key_beq_iff (key "front-split" "apps") k, key_beq_iff (key "back-split" "apps") k)

front_found : lookup (key "front-split" "apps") mesh.traffic_splits ≡ some front
unfolding lookup
front_found = refl

get_incoming_pods-walk_fuel_example : get_incoming_pods (walk_fuel mesh) mesh [] front ≢ out_of_fuel
get_incoming_pods-walk_fuel_example =
    get_incoming_pods-walk_fuel mesh mesh-IsKeyed front front_found

plain :
    (cut "@" "web" ≡ none)
    × (cut "@" "apps" ≡ none)
    × (cut ":" "web" ≡ none)
    × (cut ":" "apps" ≡ none)
    × (cut "@" "allow" ≡ none)
    × (cut ":" "allow" ≡ none)
unfolding cut strip_prefix
plain = (refl, refl, refl, refl, refl, refl)

unmarshal_key-marshal_key_example :
    unmarshal_key (marshal_key (key "web" "apps")) ≡ ok (key "web" "apps")
unmarshal_key-marshal_key_example = unmarshal_key-marshal_key (key "web" "apps") (plain.0, plain.1)

unmarshal_target_key-marshal_target_key_example :
    unmarshal_target_key (marshal_target_key (allow "apps")) ≡ ok (allow "apps")
unmarshal_target_key-marshal_target_key_example =
    unmarshal_target_key-marshal_target_key (allow "apps") (plain.1, plain.1) (plain.4, plain.1)
      (plain.3, plain.3) (plain.5, plain.3)

-- Two traffic splits, of which the second has no service to split.
abbrev smi_split : String → String → Smi.TrafficSplit
smi_split name service = record {
  name = name;
  namespace = "apps";
  labels = [];
  service = service;
  backends = [];
  matches = [];
}

abbrev resources : Resources
resources = record no_resources {
  traffic_splits =
      (key "one" "apps", smi_split "one" "front") ∷ (key "two" "apps", smi_split "two" "none") ∷ [];
}

build_from-IsKeyed_example : IsKeyed (build_from resources)
build_from-IsKeyed_example = build_from-IsKeyed resources
