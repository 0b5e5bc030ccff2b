-- ===== src/Topology/Incoming/Admission.antt =====
-- getIncomingPodsForTrafficSplit and getIncomingPodsForService, pkg/topology/builder.go, against the
-- authorisation that they look for.
use maesh.Common.{
  ℕ, zero, suc, List, [], ◌∷◌, none, some, ◌≡◌, ◌≢◌, ◌↔◌, ◌⊎◌, inl, inr, In, All-iff, List-cases,
  Bool-cases, In-append, lookup, Option-cases, sym, ◌∙◌, refl, subst, arith, ok, err, Result, ◌++◌,
  ap,
}
use maesh.Topology.Types.{
  Key, key_eq, Service, Source, ServiceTrafficTarget, ServiceTrafficTargetKey, TrafficSplit,
  Backend, Topology, target_key_eq, no_target, circular_reference, no_service, BuildError,
}
use maesh.Topology.Incoming.{
  source_pods, pods_of_targets, get_pods_for_service_with_no_traffic_splits, Walk, pods, failed,
  of_result, over_backends, over_splits, for_service, get_incoming_pods, split_key, has_key,
}
use maesh.Topology.Incoming.Intersection.{
  Decides, pods_injective, Through, over_backends-Decides, over_splits-Decides,
}

-- Where a pod may ask for entry: a traffic split, or the service of a key.
pub data Site : Type 0 where
  split : TrafficSplit → Site
  service : Key → Site

-- The pod is a source of one of the traffic targets.
pub record IsSource (t : Topology) (pod : Key) (targets : List ServiceTrafficTargetKey)
    : Type 0 where
  pub target_key : ServiceTrafficTargetKey
  pub target : ServiceTrafficTarget
  pub source : Source
  pub listed : In target_key targets
  pub found : lookup target_key t.service_traffic_targets ≡ some target
  pub sourced : In source target.sources
  pub is_pod : In pod source.pods

-- A pod may enter a split that has backends if it may enter the service of each; it may enter a service
-- with splits if it may enter each of them, and one without if it is a source of a traffic target.
pub data Admits (t : Topology) (pod : Key) : Site → Type 0 where
  through_backends :
      (ts : TrafficSplit)
      → ts.backends ≢ []
      → ((b : Backend) → In b ts.backends → Admits t pod (service b.service))
      → Admits t pod (split ts)
  through_splits :
      (k : Key) (svc : Service)
      → lookup k t.services ≡ some svc
      → svc.traffic_splits ≢ []
      → (split_of : (s : Key) → In s svc.traffic_splits → TrafficSplit)
      → ((s : Key) (i : In s svc.traffic_splits) → lookup s t.traffic_splits ≡ some (split_of s i))
      → ((s : Key) (i : In s svc.traffic_splits) → Admits t pod (split (split_of s i)))
      → Admits t pod (service k)
  as_source :
      (k : Key) (svc : Service)
      → lookup k t.services ≡ some svc
      → svc.traffic_splits ≡ []
      → IsSource t pod svc.traffic_targets
      → Admits t pod (service k)

source_pods-In :
    (pod : Key) (sources : List Source)
    → In pod (source_pods sources) ↔ ((s : Source) × In s sources × In pod s.pods)
unfolding source_pods
source_pods-In pod [] = ((λ i. absurd i), λ (s, i, _). absurd i)
source_pods-In pod (s ∷ sources) =
    let c = In-append pod s.pods (source_pods sources) in
    let r = source_pods-In pod sources in
    (
      (λ i. elim (c.0 i) [
        | inl j ↦ (s, inl refl, j)
        | inr j ↦ let (s', l, p) = r.0 j in (s', inr l, p)
      ]),
      λ (s', l, p). elim l [
        | inl e ↦ c.1 (inl (subst (λ (x : Source). In pod x.pods) e p))
        | inr j ↦ c.1 (inr (r.1 (s', j, p)))
      ],
    )

some_injective : {A : Type 0} {a b : A} → some a ≡ some b → a ≡ b
some_injective h = cc

nil≢cons : {A : Type 0} {x : A} {xs : List A} → [] ≡ x ∷ xs → ⊥
nil≢cons h = cc

of_result_injective :
    (r : Result BuildError (List Key)) (ps : List Key) → of_result r ≡ pods ps → r ≡ ok ps
of_result_injective (ok qs) ps h = cc
of_result_injective (err e) ps h = cc

regroup : {P A B S R Q : Type 0} → (P ↔ (Q ⊎ S)) → (Q ↔ (A ⊎ B)) → (R ↔ (B ⊎ S)) → P ↔ (A ⊎ R)
regroup r a c = ground (arith, r, a, c)

module _ (t : Topology) (pod : Key) where
  listed_in :
      {ks js : List ServiceTrafficTargetKey} (i : IsSource t pod ks)
      → In i.target_key js
      → IsSource t pod js
  listed_in i j = record {
    target_key = i.target_key;
    target = i.target;
    source = i.source;
    listed = j;
    found = i.found;
    sourced = i.sourced;
    is_pod = i.is_pod;
  }

  IsSource-cons :
      (k : ServiceTrafficTargetKey) (ks : List ServiceTrafficTargetKey)
      (target : ServiceTrafficTarget)
      → lookup k t.service_traffic_targets ≡ some target
      → IsSource t pod (k ∷ ks) ↔ (In pod (source_pods target.sources) ⊎ IsSource t pod ks)
  IsSource-cons k ks target e = (
    λ i. elim i.listed [
      | inl l ↦
          let same : i.target ≡ target =
            some_injective (sym i.found ∙ (ap (λ j. lookup j t.service_traffic_targets) l ∙ e)) in
          inl (
            (source_pods-In pod target.sources).1 (
              i.source,
              subst (λ (x : ServiceTrafficTarget). In i.source x.sources) same i.sourced,
              i.is_pod,
            ))
      | inr j ↦ inr (listed_in i j)
    ],
    λ i. elim i [
      | inl p ↦
          let (s, l, q) = (source_pods-In pod target.sources).0 p in
          record {
            target_key = k;
            target = target;
            source = s;
            listed = inl refl;
            found = e;
            sourced = l;
            is_pod = q;
          }
      | inr r ↦ listed_in r (inr r.listed)
    ],
  )

  pods_of_targets-In :
      (ks : List ServiceTrafficTargetKey) (acc ps : List Key)
      → pods_of_targets t ks acc ≡ ok ps
      → In pod ps ↔ (In pod acc ⊎ IsSource t pod ks)
  unfolding pods_of_targets
  pods_of_targets-In [] acc ps h =
      let same : acc ≡ ps = cc in
      (
        (λ i. inl (subst (In pod) (sym same) i)),
        λ i. elim i [ inl j ↦ subst (In pod) same j | inr r ↦ absurd r.listed ],
      )
  pods_of_targets-In (k ∷ ks) acc ps h = elim (Option-cases (lookup k t.service_traffic_targets)) [
    | inl e ↦
        let stop : pods_of_targets t (k ∷ ks) acc ≡ err (no_target k) = rw (pods_of_targets, e) in
        cc
    | inr (target, e) ↦
        let step : pods_of_targets t (k ∷ ks) acc
            ≡ pods_of_targets t ks (acc ++ source_pods target.sources) =
          rw (pods_of_targets, e) in
        let r = pods_of_targets-In ks (acc ++ source_pods target.sources) ps (sym step ∙ h) in
        let a = In-append pod acc (source_pods target.sources) in
        let c = IsSource-cons k ks target e in regroup r a c
  ]

  sources-Decides :
      (svc : Service)
      → Decides pod
          (of_result (get_pods_for_service_with_no_traffic_splits t svc))
          (IsSource t pod svc.traffic_targets)
  unfolding get_pods_for_service_with_no_traffic_splits
  sources-Decides svc ps h =
      let r = pods_of_targets-In svc.traffic_targets [] ps (of_result_injective _ ps h) in
      ((λ i. elim (r.0 i) [ inl b ↦ absurd b | inr s ↦ s ]), λ s. r.1 (inr s))

  -- What admission to a service is, by the service's splits.
  Entry : Service → Type 0
  Entry svc =
      ((svc.traffic_splits ≡ []) × IsSource t pod svc.traffic_targets)
      ⊎ ((svc.traffic_splits ≢ [])
          × ((s : Key) → In s svc.traffic_splits → Through t (λ ts. Admits t pod (split ts)) s))

  Admits-Entry :
      (k : Key) (svc : Service)
      → lookup k t.services ≡ some svc
      → Admits t pod (service k)
      → Entry svc
  unfolding Entry
  Admits-Entry k svc e (through_splits _ svc' e' ne split_of found admits) =
      subst Entry (some_injective (sym e' ∙ e))
        (inr (ne, λ s i. (split_of s i, found s i, admits s i)))
  Admits-Entry k svc e (as_source _ svc' e' none_left is_source) =
      subst Entry (some_injective (sym e' ∙ e)) (inl (none_left, is_source))

  Entry-Admits :
      (k : Key) (svc : Service)
      → lookup k t.services ≡ some svc
      → Entry svc
      → Admits t pod (service k)
  unfolding Entry
  Entry-Admits k svc e entry = elim entry [
    | inl (no_splits, is_source) ↦ as_source k svc e no_splits is_source
    | inr (ne, through) ↦
        through_splits k svc e ne (λ s i. (through s i).0) (λ s i. (through s i).1)
          λ s i. (through s i).2
  ]

  module _ (walk : List Key → TrafficSplit → Walk)
      (decided : (visited : List Key) (ts : TrafficSplit)
        → Decides pod (walk visited ts) (Admits t pod (split ts))) where
    service-Decides :
        (visited : List Key) (k : Key) (svc : Service)
        → lookup k t.services ≡ some svc
        → Decides pod (for_service t walk visited k) (Entry svc)
    unfolding Entry for_service get_pods_for_service_with_no_traffic_splits
    service-Decides visited k svc e ps h = elim (List-cases svc.traffic_splits) [
      | inl l ↦
          let step : for_service t walk visited k
              ≡ of_result (get_pods_for_service_with_no_traffic_splits t svc) =
            rw (for_service, e, l) in
          let r = sources-Decides svc ps (sym step ∙ h) in
          (
            (λ i. inl (l, r.0 i)),
            λ entry. elim entry [ inl (_, s) ↦ r.1 s | inr (ne, _) ↦ absurd (ne l) ],
          )
      | inr (s, ss, l) ↦
          let step : for_service t walk visited k ≡ over_splits t walk visited (s ∷ ss) none =
            rw (for_service, e, l) in
          let r =
            over_splits-Decides pod (λ ts. Admits t pod (split ts)) t walk decided s ss visited ps
              (sym step ∙ h) in
          let a = All-iff (Through t (λ ts. Admits t pod (split ts))) (s ∷ ss) in
          (
            (λ i. inr (
              (λ no_splits. nil≢cons (sym no_splits ∙ l)),
              λ j m. a.0 (r.0 i) j (subst (In j) l m),
            )),
            λ entry. elim entry [
              | inl (no_splits, _) ↦ absurd (nil≢cons (sym no_splits ∙ l))
              | inr (_, through) ↦ r.1 (a.1 λ j m. through j (subst (In j) (sym l) m))
            ],
          )
    ]

    for_service-Decides :
        (visited : List Key) (k : Key)
        → Decides pod (for_service t walk visited k) (Admits t pod (service k))
    unfolding for_service
    for_service-Decides visited k ps h = elim (Option-cases (lookup k t.services)) [
      | inl e ↦
          let stop : for_service t walk visited k ≡ failed (no_service k) = rw (for_service, e) in
          cc
      | inr (svc, e) ↦
          let r = service-Decides visited k svc e ps h in
          ((λ i. Entry-Admits k svc e (r.0 i)), λ admits. r.1 (Admits-Entry k svc e admits))
    ]

  Admits-backends :
      (ts : TrafficSplit)
      → Admits t pod (split ts)
      → (ts.backends ≢ []) × ((b : Backend) → In b ts.backends → Admits t pod (service b.service))
  Admits-backends ts (through_backends _ ne admits) = (ne, admits)

  backends-Decides :
      (walk : Key → Walk)
      → ((k : Key) → Decides pod (walk k) (Admits t pod (service k)))
      → (ts : TrafficSplit)
      → Decides pod (over_backends walk ts.backends none) (Admits t pod (split ts))
  unfolding over_backends
  backends-Decides walk decided ts ps h = elim (List-cases ts.backends) [
    | inl l ↦
        let empty : [] ≡ ps = pods_injective (ap (λ bs. over_backends walk bs none) (sym l) ∙ h) in
        (
          (λ i. absurd (subst (In pod) (sym empty) i)),
          λ admits. absurd ((Admits-backends ts admits).0 l),
        )
    | inr (b, bs, l) ↦
        let r =
          over_backends-Decides pod (λ k. Admits t pod (service k)) walk decided b bs ps
            (ap (λ bs'. over_backends walk bs' none) (sym l) ∙ h) in
        let a = All-iff (λ (b' : Backend). Admits t pod (service b'.service)) (b ∷ bs) in
        (
          (λ i.
              through_backends ts (λ none_left. nil≢cons (sym none_left ∙ l))
                λ b' m. a.0 (r.0 i) b' (subst (In b') l m)),
          λ admits. r.1 (a.1 λ b' m. (Admits-backends ts admits).1 b' (subst (In b') (sym l) m)),
        )
  ]

  -- Where the walk for a traffic split ends in pods, a pod is among them exactly if the split admits it:
  -- through each backend, of which there is one, and at each split of a backend's service, down to the
  -- services without splits, whose traffic targets name it as a source.
  pub get_incoming_pods-Admits :
      (fuel : ℕ) (visited : List Key) (ts : TrafficSplit) (ps : List Key)
      → get_incoming_pods fuel t visited ts ≡ pods ps
      → In pod ps ↔ Admits t pod (split ts)
  unfolding get_incoming_pods
  get_incoming_pods-Admits zero visited ts ps h = cc
  get_incoming_pods-Admits (suc fuel) visited ts ps h =
      elim (Bool-cases (has_key (split_key ts) visited)) [
        | inl e ↦
            let stop : get_incoming_pods (suc fuel) t visited ts
                ≡ failed (circular_reference (split_key ts) ts.service) =
              rw (get_incoming_pods, e) in
            cc
        | inr e ↦
            let walk = for_service t (get_incoming_pods fuel t) (split_key ts ∷ visited) in
            let step : get_incoming_pods (suc fuel) t visited ts
                ≡ over_backends walk ts.backends none =
              rw (get_incoming_pods, e) in
            let decided =
              for_service-Decides (get_incoming_pods fuel t) (get_incoming_pods-Admits fuel)
                (split_key ts ∷ visited) in
            backends-Decides walk decided ts ps (sym step ∙ h)
      ]
