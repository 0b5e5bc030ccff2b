-- ===== src/Topology/Builder/Keyed.antt =====
-- Build, pkg/topology/builder.go: each traffic split stands under its own name and namespace.
use maesh.Common.{
  List, [], ◌∷◌, ◌++◌, some, ◌≡◌, refl, sym, ◌∙◌, ap, subst, lookup, insert, modify, arith, String,
  Option-cases, Bool-cases, inl, inr, lookup-insert, lookup-modify, ok, err, Result, ◌==◌,
  string_eq,
}
use maesh.Kube
use maesh.Kube.{ServicePort}
use maesh.Kube.Smi
use maesh.Topology.Types.{
  Key, key, key_eq, target_key_eq, key_beq, key_beq_iff, ServiceTrafficTargetKey, Service, Source,
  TrafficSplit, TrafficSpec, Topology, BuildError, new_topology,
}
use maesh.Topology.Resources.{Resources, or_nil}
use maesh.Topology.Specs.{build_traffic_target_rules, build_traffic_split_specs}
use maesh.Topology.Incoming.{
  split_key, Walk, pods, failed, out_of_fuel, populate_split, populate_splits, populate_services,
  populate_incoming, get_incoming_pods, walk_fuel,
}
use maesh.Topology.Incoming.Walks.{IsKeyed}
use maesh.Topology.Builder.{
  pod_key, get_or_create_pod, create_pods, create_ready_pods, evaluate_service, on_split,
  evaluate_backend, validate_service_and_backend_ports, evaluate_backends, evaluate_split_with,
  evaluate_traffic_split, new_split, build_sources, mark_sources, mark_destinations,
  mark_all_sources, link_target, on_target, new_target, evaluate_target_with,
  evaluate_target_service, evaluate_target_services, evaluate_traffic_target, evaluate_services,
  evaluate_traffic_splits, evaluate_traffic_targets, build_from,
  get_traffic_target_destination_ports,
}

abbrev Keyed : List (Key × TrafficSplit) → Type 0
Keyed m = (k : Key) (ts : TrafficSplit) → lookup k m ≡ some ts → split_key ts ≡ k

some_injective : {A : Type 0} {a b : A} → some a ≡ some b → a ≡ b
some_injective h = cc

modify-Keyed :
    (k : Key) (f : TrafficSplit → TrafficSplit) (m : List (Key × TrafficSplit))
    → ((ts : TrafficSplit) → split_key (f ts) ≡ split_key ts)
    → Keyed m
    → Keyed (modify k f m)
modify-Keyed k f m same keyed j ts e = elim (Option-cases (lookup j m)) [
  | inl n ↦
      let law = rw n at (lookup-modify k j f m) in
      elim (Bool-cases (key_beq k j)) [ inl b ↦ cc (rw b at law) | inr b ↦ cc (rw b at law) ]
  | inr (old, o) ↦
      let law = rw o at (lookup-modify k j f m) in
      elim (Bool-cases (key_beq k j)) [
        | inl b ↦
            let new : f old ≡ ts = some_injective (sym (rw b at law) ∙ e) in
            ap split_key (sym new) ∙ (same old ∙ keyed j old o)
        | inr b ↦
            let kept : old ≡ ts = some_injective (sym (rw b at law) ∙ e) in
            ap split_key (sym kept) ∙ keyed j old o
      ]
]

insert-Keyed :
    (m : List (Key × TrafficSplit)) (ts : TrafficSplit)
    → Keyed m
    → Keyed (insert (split_key ts) ts m)
insert-Keyed m ts keyed j ts' e =
    ground (arith, lookup-insert (split_key ts) j ts m, key_beq_iff (split_key ts) j, keyed j ts')

on_split-IsKeyed :
    (k : Key) (f : TrafficSplit → TrafficSplit) (t : Topology)
    → ((ts : TrafficSplit) → split_key (f ts) ≡ split_key ts)
    → IsKeyed t
    → IsKeyed (on_split k f t)
on_split-IsKeyed k f t same keyed = modify-Keyed k f t.traffic_splits same keyed

evaluate_backend-IsKeyed :
    (k : Key) (namespace : String) (ports : List ServicePort) (b : Smi.SplitBackend) (t : Topology)
    → IsKeyed t
    → IsKeyed (evaluate_backend k namespace ports b t)
unfolding evaluate_backend
evaluate_backend-IsKeyed k namespace ports b t keyed =
    elim (Option-cases (lookup (key b.service namespace) t.services)) [
      | inl n ↦ rw (evaluate_backend, n) (on_split-IsKeyed k _ t (λ ts. refl) keyed)
      | inr (svc, l) ↦ elim (Option-cases (validate_service_and_backend_ports ports svc.ports)) [
        | inl fits ↦ rw (evaluate_backend, l, fits) (on_split-IsKeyed k _ t (λ ts. refl) keyed)
        | inr (x, e) ↦ rw (evaluate_backend, l, e) (on_split-IsKeyed k _ t (λ ts. refl) keyed)
      ]
    ]

evaluate_backends-IsKeyed :
    (k : Key) (namespace : String) (ports : List ServicePort) (bs : List Smi.SplitBackend)
    (t : Topology)
    → IsKeyed t
    → IsKeyed (evaluate_backends k namespace ports bs t)
unfolding evaluate_backends
evaluate_backends-IsKeyed k namespace ports [] t keyed = keyed
evaluate_backends-IsKeyed k namespace ports (b ∷ bs) t keyed =
    evaluate_backends-IsKeyed k namespace ports bs (evaluate_backend k namespace ports b t)
      (evaluate_backend-IsKeyed k namespace ports b t keyed)

evaluate_split_with-IsKeyed :
    (rules : Result BuildError (List TrafficSpec)) (ts : Smi.TrafficSplit) (k svc_key : Key)
    (t : Topology)
    → IsKeyed t
    → IsKeyed (evaluate_split_with rules ts k svc_key t)
unfolding evaluate_split_with
evaluate_split_with-IsKeyed (err e) ts k svc_key t keyed = on_split-IsKeyed k _ t (λ ts. refl) keyed
evaluate_split_with-IsKeyed (ok rules) ts k svc_key t keyed =
    let ruled = on_split-IsKeyed k (λ s. record s { rules = rules }) t (λ ts. refl) keyed in
    elim (Option-cases (lookup svc_key t.services)) [
      | inl n ↦
          rw (evaluate_split_with, n)
            (on_split-IsKeyed k _ (on_split k (λ s. record s { rules = rules }) t) (λ ts. refl)
              ruled)
      | inr (svc, l) ↦
          rw (evaluate_split_with, l)
            (evaluate_backends-IsKeyed k ts.namespace svc.ports ts.backends _ ruled)
    ]

evaluate_traffic_split-IsKeyed :
    (res : Resources) (ts : Smi.TrafficSplit) (t : Topology)
    → IsKeyed t
    → IsKeyed (evaluate_traffic_split res ts t)
unfolding evaluate_traffic_split
evaluate_traffic_split-IsKeyed res ts t keyed =
    evaluate_split_with-IsKeyed (build_traffic_split_specs res ts) ts (key ts.name ts.namespace)
      (key ts.service ts.namespace) _ (insert-Keyed t.traffic_splits (new_split ts) keyed)

evaluate_traffic_splits-IsKeyed :
    (res : Resources) (tss : List (Key × Smi.TrafficSplit)) (t : Topology)
    → IsKeyed t
    → IsKeyed (evaluate_traffic_splits res tss t)
unfolding evaluate_traffic_splits
evaluate_traffic_splits-IsKeyed res [] t keyed = keyed
evaluate_traffic_splits-IsKeyed res ((k, ts) ∷ tss) t keyed =
    evaluate_traffic_splits-IsKeyed res tss (evaluate_traffic_split res ts t)
      (evaluate_traffic_split-IsKeyed res ts t keyed)

-- The steps for pods, services and traffic targets do not touch the traffic splits.
get_or_create_pod-splits :
    (p : Kube.Pod) (t : Topology) → (get_or_create_pod p t).traffic_splits ≡ t.traffic_splits
unfolding get_or_create_pod
get_or_create_pod-splits p t = elim (Option-cases (lookup (key p.name p.namespace) t.pods)) [
  | inl n ↦ rw (get_or_create_pod, n) refl
  | inr (x, l) ↦ rw (get_or_create_pod, l) refl
]

create_pods-splits :
    (ps : List Kube.Pod) (keys : List Key) (t : Topology)
    → (create_pods ps keys t).1.traffic_splits ≡ t.traffic_splits
unfolding create_pods
create_pods-splits [] keys t = refl
create_pods-splits (p ∷ ps) keys t =
    create_pods-splits ps (keys ++ pod_key p ∷ []) (get_or_create_pod p t)
    ∙ get_or_create_pod-splits p t

create_ready_pods-splits :
    (ps : List Kube.Pod) (keys : List Key) (t : Topology)
    → (create_ready_pods ps keys t).1.traffic_splits ≡ t.traffic_splits
unfolding create_ready_pods
create_ready_pods-splits [] keys t = refl
create_ready_pods-splits (p ∷ ps) keys t = elim (Bool-cases (p.pod_ip == "")) [
  | inl b ↦ rw b (create_ready_pods-splits ps keys t)
  | inr b ↦ rw b (
      create_ready_pods-splits ps (keys ++ pod_key p ∷ []) (get_or_create_pod p t)
      ∙ get_or_create_pod-splits p t)
]

build_sources-splits :
    (res : Resources) (ss : List Smi.Subject) (out : List Source) (t : Topology)
    → (build_sources res ss out t).1.traffic_splits ≡ t.traffic_splits
unfolding build_sources
build_sources-splits res [] out t = refl
build_sources-splits res (s ∷ ss) out t =
    build_sources-splits res ss _ _
    ∙ create_ready_pods-splits
        (or_nil (lookup (key s.name s.namespace) res.pods_by_service_accounts)) [] t

mark_sources-splits :
    (k : ServiceTrafficTargetKey) (ps : List Key) (t : Topology)
    → (mark_sources k ps t).traffic_splits ≡ t.traffic_splits
unfolding mark_sources
mark_sources-splits k [] t = refl
mark_sources-splits k (p ∷ ps) t = mark_sources-splits k ps _

mark_destinations-splits :
    (k : ServiceTrafficTargetKey) (ps : List Key) (t : Topology)
    → (mark_destinations k ps t).traffic_splits ≡ t.traffic_splits
unfolding mark_destinations
mark_destinations-splits k [] t = refl
mark_destinations-splits k (p ∷ ps) t = mark_destinations-splits k ps _

mark_all_sources-splits :
    (k : ServiceTrafficTargetKey) (ss : List Source) (t : Topology)
    → (mark_all_sources k ss t).traffic_splits ≡ t.traffic_splits
unfolding mark_all_sources
mark_all_sources-splits k [] t = refl
mark_all_sources-splits k (s ∷ ss) t =
    mark_all_sources-splits k ss (mark_sources k s.pods t) ∙ mark_sources-splits k s.pods t

link_target-splits :
    (tt' : Smi.TrafficTarget) (k : ServiceTrafficTargetKey) (ss : List Source) (ps : List Key)
    (r : Result BuildError (List ServicePort)) (t : Topology)
    → (link_target tt' k ss ps r t).traffic_splits ≡ t.traffic_splits
unfolding link_target
link_target-splits tt' k ss ps (err e) t = refl
link_target-splits tt' k ss ps (ok ports) t =
    mark_destinations-splits k ps _ ∙ mark_all_sources-splits k ss _

evaluate_target_with-splits :
    (r : Result BuildError (List TrafficSpec)) (tt' : Smi.TrafficTarget)
    (k : ServiceTrafficTargetKey) (ss : List Source) (svc_pods : List Kube.Pod) (svc : Service)
    (t : Topology)
    → (evaluate_target_with r tt' k ss svc_pods svc t).traffic_splits ≡ t.traffic_splits
unfolding evaluate_target_with
evaluate_target_with-splits (err e) tt' k ss svc_pods svc t = refl
evaluate_target_with-splits (ok rules) tt' k ss svc_pods svc t =
    let ruled = on_target k (λ x. record x { rules = rules }) t in
    let built = create_ready_pods svc_pods [] ruled in
    link_target-splits tt' k ss built.0
      (get_traffic_target_destination_ports tt'.destination.port (key tt'.name tt'.namespace)
        svc.ports)
      built.1
    ∙ create_ready_pods-splits svc_pods [] ruled

evaluate_target_service-splits :
    (res : Resources) (tt' : Smi.TrafficTarget) (ss : List Source) (svc_key : Key)
    (svc_pods : List Kube.Pod) (t : Topology)
    → (evaluate_target_service res tt' ss svc_key svc_pods t).traffic_splits ≡ t.traffic_splits
unfolding evaluate_target_service
evaluate_target_service-splits res tt' ss svc_key svc_pods t =
    let k : ServiceTrafficTargetKey = record {
      service = svc_key;
      traffic_target = key tt'.name tt'.namespace;
    } in
    let added = record t {
      service_traffic_targets = insert k (new_target tt' svc_key ss) t.service_traffic_targets;
    } in
    elim (Option-cases (lookup svc_key t.services)) [
      | inl n ↦ rw (evaluate_target_service, n) refl
      | inr (svc, l) ↦
          rw (evaluate_target_service, l)
            (evaluate_target_with-splits (build_traffic_target_rules res tt') tt' k ss svc_pods svc
              added)
    ]

evaluate_target_services-splits :
    (res : Resources) (tt' : Smi.TrafficTarget) (ss : List Source)
    (svcs : List (Key × List Kube.Pod)) (t : Topology)
    → (evaluate_target_services res tt' ss svcs t).traffic_splits ≡ t.traffic_splits
unfolding evaluate_target_services
evaluate_target_services-splits res tt' ss [] t = refl
evaluate_target_services-splits res tt' ss ((k, ps) ∷ svcs) t =
    evaluate_target_services-splits res tt' ss svcs (evaluate_target_service res tt' ss k ps t)
    ∙ evaluate_target_service-splits res tt' ss k ps t

evaluate_traffic_targets-splits :
    (res : Resources) (tts : List (Key × Smi.TrafficTarget)) (t : Topology)
    → (evaluate_traffic_targets res tts t).traffic_splits ≡ t.traffic_splits
unfolding evaluate_traffic_targets evaluate_traffic_target
evaluate_traffic_targets-splits res [] t = refl
evaluate_traffic_targets-splits res ((k, tt') ∷ tts) t =
    evaluate_traffic_targets-splits res tts (evaluate_traffic_target res tt' t)
    ∙ (evaluate_target_services-splits res tt' (build_sources res tt'.sources [] t).0
          (or_nil
            (lookup (key tt'.destination.name tt'.destination.namespace) res.pods_by_svc_by_sa))
          (build_sources res tt'.sources [] t).1
        ∙ build_sources-splits res tt'.sources [] t)

evaluate_services-splits :
    (res : Resources) (svcs : List (Key × Kube.Service)) (t : Topology)
    → (evaluate_services res svcs t).traffic_splits ≡ t.traffic_splits
unfolding evaluate_services evaluate_service
evaluate_services-splits res [] t = refl
evaluate_services-splits res ((k, svc) ∷ svcs) t =
    evaluate_services-splits res svcs (evaluate_service res svc t)
    ∙ create_pods-splits (or_nil (lookup (key svc.name svc.namespace) res.pods_by_svc)) [] t

-- The walks write results and errors only.
populate_split-IsKeyed :
    (k : Key) (ts : TrafficSplit) (w : Walk) (loops : List Key) (t : Topology)
    → IsKeyed t
    → IsKeyed (populate_split k ts w loops t).0
unfolding populate_split
populate_split-IsKeyed k ts (pods ps) loops t keyed = on_split-IsKeyed k _ t (λ s. refl) keyed
populate_split-IsKeyed k ts (failed e) loops t keyed = on_split-IsKeyed k _ t (λ s. refl) keyed
populate_split-IsKeyed k ts out_of_fuel loops t keyed = keyed

populate_splits-IsKeyed :
    (ks loops : List Key) (t : Topology) → IsKeyed t → IsKeyed (populate_splits ks loops t).0
unfolding populate_splits
populate_splits-IsKeyed [] loops t keyed = keyed
populate_splits-IsKeyed (k ∷ ks) loops t keyed = elim (Option-cases (lookup k t.traffic_splits)) [
  | inl n ↦ rw (populate_splits, n) (populate_splits-IsKeyed ks loops t keyed)
  | inr (ts, l) ↦
      rw (populate_splits, l)
        (populate_splits-IsKeyed ks _ _
          (populate_split-IsKeyed k ts (get_incoming_pods (walk_fuel t) t [] ts) loops t keyed))
]

populate_services-IsKeyed :
    (svcs : List (Key × Service)) (loops : List (Key × List Key)) (t : Topology)
    → IsKeyed t
    → IsKeyed (populate_services svcs loops t).0
unfolding populate_services
populate_services-IsKeyed [] loops t keyed = keyed
populate_services-IsKeyed ((k, svc) ∷ svcs) loops t keyed =
    populate_services-IsKeyed svcs _ _ (populate_splits-IsKeyed svc.traffic_splits [] t keyed)

-- Whatever the resources, each traffic split of the topology that Build makes stands under its own name
-- and namespace.
pub build_from-IsKeyed : (res : Resources) → IsKeyed (build_from res)
unfolding build_from populate_incoming new_topology lookup
build_from-IsKeyed res =
    let start = evaluate_services res res.services new_topology in
    let split = evaluate_traffic_splits res res.traffic_splits start in
    let linked = evaluate_traffic_targets res res.traffic_targets split in
    let start_keyed =
      subst Keyed (sym (evaluate_services-splits res res.services new_topology)) (λ k ts e. cc) in
    let split_keyed = evaluate_traffic_splits-IsKeyed res res.traffic_splits start start_keyed in
    populate_services-IsKeyed linked.services [] linked (
      subst Keyed (sym (evaluate_traffic_targets-splits res res.traffic_targets split)) split_keyed)
