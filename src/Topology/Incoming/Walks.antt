-- ===== src/Topology/Incoming/Walks.antt =====
-- getIncomingPodsForTrafficSplit, pkg/topology/builder.go: the walk ends, also where the traffic splits
-- form a loop.
use maesh.Common.{
  ℕ, zero, suc, ◌≤◌, ◌<◌, List, [], ◌∷◌, Option, none, some, ◌≡◌, ◌≢◌, arith, lookup, length, false,
  if◌then◌else◌, Option-cases, Bool-cases, List-cases, inl, inr, ok, err, Result, refl, sym, ◌∙◌,
  ap,
}
use maesh.Topology.Types.{
  Key, key_eq, key_beq_iff, TrafficSplit, Topology, Backend, BuildError, no_service,
  no_traffic_split, circular_reference,
}
use maesh.Topology.Incoming.{
  has_key, Walk, pods, failed, out_of_fuel, of_result, join_step, unless_empty, or_none, union_pod,
  over_backends, over_splits, for_service, get_incoming_pods, split_key, walk_fuel,
  get_pods_for_service_with_no_traffic_splits,
}

-- Each traffic split stands under its own name and namespace.
abbrev pub IsKeyed : Topology → Type 0
IsKeyed t = (k : Key) (ts : TrafficSplit) → lookup k t.traffic_splits ≡ some ts → split_key ts ≡ k

-- The number of the splits that are not yet visited.
unvisited : List Key → List (Key × TrafficSplit) → ℕ
unvisited visited [] = 0
unvisited visited ((k, ts) ∷ m) =
    let rest = unvisited visited m in if has_key k visited then rest else suc rest

unvisited-≤_length : (v : List Key) (m : List (Key × TrafficSplit)) → unvisited v m ≤ length m
unfolding unvisited
unvisited-≤_length v [] = omega arith
unvisited-≤_length v ((k, ts) ∷ m) = ground (arith, unvisited-≤_length v m)

unvisited-∷_≤ :
    (k : Key) (v : List Key) (m : List (Key × TrafficSplit)) → unvisited (k ∷ v) m ≤ unvisited v m
unfolding unvisited has_key
unvisited-∷_≤ k v [] = omega arith
unvisited-∷_≤ k v ((j, ts) ∷ m) = ground (arith, unvisited-∷_≤ k v m)

unvisited-∷_< :
    (k : Key) (v : List Key) (m : List (Key × TrafficSplit))
    → lookup k m ≢ none
    → has_key k v ≡ false
    → unvisited (k ∷ v) m < unvisited v m
unfolding unvisited has_key lookup
unvisited-∷_< k v [] e h = absurd (e refl)
unvisited-∷_< k v ((j, ts) ∷ m) e h =
    ground (arith, key_beq_iff j k, key_beq_iff k j, unvisited-∷_≤ k v m, unvisited-∷_< k v m)

-- Steps and loops end if the walks that they call do.
unless_empty-ends :
    (r : List Key) (next : Option (List Key) → Walk)
    → ((u : Option (List Key)) → next u ≢ out_of_fuel)
    → unless_empty r next ≢ out_of_fuel
unless_empty-ends [] next h e = cc
unless_empty-ends (k ∷ r) next h e = h (some (k ∷ r)) e

join_step-ends :
    (w : Walk) (u : Option (List Key)) (next : Option (List Key) → Walk)
    → w ≢ out_of_fuel
    → ((u' : Option (List Key)) → next u' ≢ out_of_fuel)
    → join_step w u next ≢ out_of_fuel
join_step-ends (pods qs) u next hw h e = unless_empty-ends (union_pod qs u) next h e
join_step-ends (failed x) u next hw h e = cc
join_step-ends out_of_fuel u next hw h e = hw e

or_none-ends : (u : Option (List Key)) → or_none u ≢ out_of_fuel
or_none-ends none e = cc
or_none-ends (some u) e = cc

over_backends-ends :
    (f : Key → Walk)
    → ((k : Key) → f k ≢ out_of_fuel)
    → (bs : List Backend) (u : Option (List Key)) → over_backends f bs u ≢ out_of_fuel
unfolding over_backends
over_backends-ends f h [] u = or_none-ends u
over_backends-ends f h (b ∷ bs) u =
    join_step-ends (f b.service) u (over_backends f bs) (h b.service) (over_backends-ends f h bs)

of_result-ends : (r : Result BuildError (List Key)) → of_result r ≢ out_of_fuel
of_result-ends (ok qs) e = cc
of_result-ends (err x) e = cc

module _ (t : Topology) (keyed : IsKeyed t) where
  -- A walk that reaches only splits of the topology, and few enough of them, ends.
  abbrev Ends : ℕ → (List Key → TrafficSplit → Walk) → Type 0
  Ends n walk =
      (visited : List Key) (ts : TrafficSplit)
      → lookup (split_key ts) t.traffic_splits ≡ some ts
      → unvisited visited t.traffic_splits < n
      → walk visited ts ≢ out_of_fuel

  module _ (n : ℕ) (walk : List Key → TrafficSplit → Walk) (ends : Ends n walk) where
    over_splits-ends :
        (ss visited : List Key) (u : Option (List Key))
        → unvisited visited t.traffic_splits < n
        → over_splits t walk visited ss u ≢ out_of_fuel
    unfolding over_splits
    over_splits-ends [] visited u b e = or_none-ends u e
    over_splits-ends (s ∷ ss) visited u b e = elim (Option-cases (lookup s t.traffic_splits)) [
      | inl l ↦
          let stop : over_splits t walk visited (s ∷ ss) u ≡ failed (no_traffic_split s) =
            rw (over_splits, l) in
          cc
      | inr (ts, l) ↦
          let next = over_splits t walk (split_key ts ∷ visited) ss in
          let step : over_splits t walk visited (s ∷ ss) u ≡ join_step (walk visited ts) u next =
            rw (over_splits, l) in
          let found : lookup (split_key ts) t.traffic_splits ≡ some ts =
            ap (λ k. lookup k t.traffic_splits) (keyed s ts l) ∙ l in
          let fewer = unvisited-∷_≤ (split_key ts) visited t.traffic_splits in
          join_step-ends (walk visited ts) u next (ends visited ts found b)
            (λ u'. over_splits-ends ss (split_key ts ∷ visited) u' (omega arith)) (sym step ∙ e)
    ]

    for_service-ends :
        (visited : List Key) (k : Key)
        → unvisited visited t.traffic_splits < n
        → for_service t walk visited k ≢ out_of_fuel
    unfolding for_service get_pods_for_service_with_no_traffic_splits
    for_service-ends visited k b e = elim (Option-cases (lookup k t.services)) [
      | inl l ↦
          let stop : for_service t walk visited k ≡ failed (no_service k) = rw (for_service, l) in
          cc
      | inr (svc, l) ↦ (elim (List-cases svc.traffic_splits) [
        | inl no_splits ↦
            let step : for_service t walk visited k
                ≡ of_result (get_pods_for_service_with_no_traffic_splits t svc) =
              rw (for_service, l, no_splits) in
            of_result-ends _ (sym step ∙ e)
        | inr (s, ss, splits) ↦
            let step : for_service t walk visited k ≡ over_splits t walk visited (s ∷ ss) none =
              rw (for_service, l, splits) in
            over_splits-ends (s ∷ ss) visited none b (sym step ∙ e)
      ])
    ]

  get_incoming_pods-Ends : (n : ℕ) → Ends n (get_incoming_pods n t)
  unfolding get_incoming_pods
  get_incoming_pods-Ends zero visited ts l b e = omega arith
  get_incoming_pods-Ends (suc n) visited ts l b e =
      elim (Bool-cases (has_key (split_key ts) visited)) [
        | inl h ↦
            let stop : get_incoming_pods (suc n) t visited ts
                ≡ failed (circular_reference (split_key ts) ts.service) =
              rw (get_incoming_pods, h) in
            cc
        | inr h ↦
            let walk = for_service t (get_incoming_pods n t) (split_key ts ∷ visited) in
            let step : get_incoming_pods (suc n) t visited ts
                ≡ over_backends walk ts.backends none =
              rw (get_incoming_pods, h) in
            let fewer = unvisited-∷_< (split_key ts) visited t.traffic_splits (λ x. cc) h in
            over_backends-ends walk
              (λ k.
                for_service-ends n (get_incoming_pods n t) (get_incoming_pods-Ends n)
                  (split_key ts ∷ visited) k (omega arith))
              ts.backends none (sym step ∙ e)
      ]

  -- The walk for a traffic split of the topology ends within its fuel, whatever loops the traffic splits
  -- form, where each traffic split stands under its own name and namespace.
  pub get_incoming_pods-walk_fuel :
      (ts : TrafficSplit)
      → lookup (split_key ts) t.traffic_splits ≡ some ts
      → get_incoming_pods (walk_fuel t) t [] ts ≢ out_of_fuel
  get_incoming_pods-walk_fuel ts l =
      let bound = unvisited-≤_length [] t.traffic_splits in
      get_incoming_pods-Ends (walk_fuel t) [] ts l (omega arith)
