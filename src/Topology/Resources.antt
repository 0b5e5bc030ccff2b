-- ===== src/Topology/Resources.antt =====
-- pkg/topology/builder.go: the resources of the cluster and their indexes.
use maesh.Common.{
  List, [], ◌∷◌, ◌++◌, Option, none, some, ◌==◌, if◌then◌else◌, Result, ok, err, ◌>>=◌, lookup,
  insert, string_eq,
}
use maesh.Kube.{Service, Pod, Endpoints, ObjectReference}
use maesh.Kube.Smi.{TrafficTarget, TrafficSplit, HttpRouteGroup, TcpRoute}
use maesh.Kube.Filter.{ResourceFilter, service, object, is_ignored}
use maesh.Topology.Types.{Key, key, key_eq, BuildError, load_failed}

abbrev pub PodIndex : Type 0
PodIndex = List (Key × List Pod)

-- resources
pub record Resources : Type 0 where
  pub services : List (Key × Service)
  pub traffic_targets : List (Key × TrafficTarget)
  pub traffic_splits : List (Key × TrafficSplit)
  pub http_route_groups : List (Key × HttpRouteGroup)
  pub tcp_routes : List (Key × TcpRoute)
  pub pods_by_svc : PodIndex
  pub pods_by_service_accounts : PodIndex
  pub pods_by_svc_by_sa : List (Key × PodIndex)

abbrev pub no_resources : Resources
no_resources = record {
  services = [];
  traffic_targets = [];
  traffic_splits = [];
  http_route_groups = [];
  tcp_routes = [];
  pods_by_svc = [];
  pods_by_service_accounts = [];
  pods_by_svc_by_sa = [];
}

-- A missing key reads as the nil slice, or the nil map.
abbrev pub or_nil {ℓ} : {A : Type ℓ} → Option (List A) → List A
or_nil none = []
or_nil (some xs) = xs

-- `m[k] = append(m[k], pod)`
unfoldable pub append_at : Key → Pod → PodIndex → PodIndex
append_at k pod m = insert k (or_nil (lookup k m) ++ pod ∷ []) m

abbrev pub service_account_key : Pod → Key
service_account_key pod = key pod.service_account pod.namespace

-- indexPodsByServiceAccount; the second map is podsByName.
unfoldable pub index_pods_by_service_account :
    ResourceFilter → List Pod → PodIndex → List (Key × Pod) → PodIndex × List (Key × Pod)
index_pods_by_service_account f [] by_sa by_name = (by_sa, by_name)
index_pods_by_service_account f (pod ∷ pods) by_sa by_name =
    let ignored = is_ignored f (object pod.namespace pod.labels) in
    index_pods_by_service_account f pods
      (if ignored then by_sa else append_at (service_account_key pod) pod by_sa)
      (if ignored then by_name else insert (key pod.name pod.namespace) pod by_name)

-- What indexPodsByService writes: the two indexes, and the pods seen at the endpoints at hand.
pub record Indexing : Type 0 where
  pub by_svc : PodIndex
  pub by_svc_by_sa : List (Key × PodIndex)
  pub indexed : List (Key × Unit {0})

abbrev pub endpoints_key : Endpoints → Key
endpoints_key ep = key ep.name ep.namespace

-- The writes of indexPodByService for a pod that is found.
unfoldable pub index_pod : Endpoints → Key → Pod → Indexing → Indexing
unfolding append_at
index_pod ep key_pod pod x = record {
  by_svc = append_at (endpoints_key ep) pod x.by_svc;
  by_svc_by_sa =
      insert (service_account_key pod)
        (append_at (endpoints_key ep) pod
          (or_nil (lookup (service_account_key pod) x.by_svc_by_sa)))
        x.by_svc_by_sa;
  indexed = insert key_pod tt x.indexed;
}

-- indexPodByService
unfoldable pub index_pod_by_service :
    Endpoints → Option ObjectReference → List (Key × Pod) → Indexing → Indexing
unfolding index_pod
index_pod_by_service ep none by_name x = x
index_pod_by_service ep (some ref) by_name x =
    elim (lookup (key ref.name ref.namespace) x.indexed) [
      | some _ ↦ x
      | none ↦ (elim (lookup (key ref.name ref.namespace) by_name) [
        | none ↦ x
        | some pod ↦ index_pod ep (key ref.name ref.namespace) pod x
      ])
    ]

index_addresses : Endpoints → List (Option ObjectReference) → List (Key × Pod) → Indexing → Indexing
index_addresses ep [] by_name x = x
index_addresses ep (address ∷ addresses) by_name x =
    index_addresses ep addresses by_name (index_pod_by_service ep address by_name x)

index_subsets :
    Endpoints → List (List (Option ObjectReference)) → List (Key × Pod) → Indexing → Indexing
unfolding index_addresses
index_subsets ep [] by_name x = x
index_subsets ep (subset ∷ subsets) by_name x =
    index_subsets ep subsets by_name (index_addresses ep subset by_name x)

-- indexPodsByService: the set of the pods seen starts anew at each Endpoints.
unfoldable pub index_pods_by_service :
    ResourceFilter → List Endpoints → List (Key × Pod) → Indexing → Indexing
unfolding index_subsets
index_pods_by_service f [] by_name x = x
index_pods_by_service f (ep ∷ eps) by_name x = index_pods_by_service f eps by_name (
    if is_ignored f (object ep.namespace ep.labels)
    then x
    else index_subsets ep ep.subsets by_name (record x { indexed = [] }))

-- indexPods
unfoldable pub index_pods : ResourceFilter → List Pod → List Endpoints → Resources → Resources
unfolding index_pods_by_service_account index_pods_by_service
index_pods f pods eps r =
    let (by_sa, by_name) = index_pods_by_service_account f pods r.pods_by_service_accounts [] in
    let x =
      index_pods_by_service f eps by_name
        (record { by_svc = r.pods_by_svc; by_svc_by_sa = r.pods_by_svc_by_sa; indexed = [] }) in
    record r {
      pods_by_svc = x.by_svc;
      pods_by_service_accounts = by_sa;
      pods_by_svc_by_sa = x.by_svc_by_sa;
    }

-- The four loops of indexSMIResources.
unfoldable pub index_http_route_groups :
    ResourceFilter → List HttpRouteGroup → List (Key × HttpRouteGroup) → List (Key × HttpRouteGroup)
index_http_route_groups f [] m = m
index_http_route_groups f (g ∷ gs) m =
    index_http_route_groups f gs (
      if is_ignored f (object g.namespace g.labels) then m else insert (key g.name g.namespace) g m)

unfoldable pub index_tcp_routes :
    ResourceFilter → List TcpRoute → List (Key × TcpRoute) → List (Key × TcpRoute)
index_tcp_routes f [] m = m
index_tcp_routes f (r ∷ rs) m =
    index_tcp_routes f rs (
      if is_ignored f (object r.namespace r.labels) then m else insert (key r.name r.namespace) r m)

-- An empty destination namespace means the namespace of the traffic target.
abbrev pub with_namespace : TrafficTarget → TrafficTarget
with_namespace tt' =
    if tt'.destination.namespace == ""
    then record tt' { destination = record tt'.destination { namespace = tt'.namespace } }
    else tt'

unfoldable pub index_traffic_targets :
    ResourceFilter → List TrafficTarget → List (Key × TrafficTarget) → List (Key × TrafficTarget)
index_traffic_targets f [] m = m
index_traffic_targets f (t ∷ ts) m = index_traffic_targets f ts (
    if is_ignored f (object t.namespace t.labels)
    then m
    else insert (key t.name t.namespace) (with_namespace t) m)

unfoldable pub index_traffic_splits :
    ResourceFilter → List TrafficSplit → List (Key × TrafficSplit) → List (Key × TrafficSplit)
index_traffic_splits f [] m = m
index_traffic_splits f (s ∷ ss) m =
    index_traffic_splits f ss (
      if is_ignored f (object s.namespace s.labels) then m else insert (key s.name s.namespace) s m)

-- indexSMIResources
unfoldable pub index_smi_resources :
    ResourceFilter
    → List TrafficTarget
    → List TrafficSplit
    → List TcpRoute
    → List HttpRouteGroup
    → Resources
    → Resources
unfolding index_http_route_groups index_tcp_routes index_traffic_targets index_traffic_splits
index_smi_resources f tts tss tcp_rts http_rt_grps r = record r {
  traffic_targets = index_traffic_targets f tts r.traffic_targets;
  traffic_splits = index_traffic_splits f tss r.traffic_splits;
  http_route_groups = index_http_route_groups f http_rt_grps r.http_route_groups;
  tcp_routes = index_tcp_routes f tcp_rts r.tcp_routes;
}

-- The loop of loadServices.
unfoldable pub load_services :
    ResourceFilter → List Service → List (Key × Service) → List (Key × Service)
load_services f [] m = m
load_services f (svc ∷ svcs) m =
    load_services f svcs
      (if is_ignored f (service svc) then m else insert (key svc.name svc.namespace) svc m)

-- What the listers answer; `none` is an error. A lister that the builder does not have answers with
-- the empty list.
pub record Cluster : Type 0 where
  pub services : Option (List Service)
  pub pods : Option (List Pod)
  pub endpoints : Option (List Endpoints)
  pub traffic_splits : Option (List TrafficSplit)
  pub http_route_groups : Option (List HttpRouteGroup)
  pub tcp_routes : Option (List TcpRoute)
  pub traffic_targets : Option (List TrafficTarget)

abbrev listed {ℓ} : {A : Type ℓ} → Option A → Result BuildError A
listed none = err load_failed
listed (some a) = ok a

-- loadResources
unfoldable pub load_resources : ResourceFilter → Cluster → Result BuildError Resources
unfolding load_services index_smi_resources index_pods
load_resources f c = listed c.services >>= λ svcs. listed c.pods >>= λ pods.
    listed c.endpoints >>= λ eps. listed c.traffic_splits >>= λ tss.
    listed c.http_route_groups >>= λ grps. listed c.tcp_routes >>= λ rts.
    listed c.traffic_targets >>= λ tts. ok (
      index_pods f pods eps (
        index_smi_resources f tts tss rts grps
          (record no_resources { services = load_services f svcs [] })))
