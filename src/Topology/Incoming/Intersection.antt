-- ===== src/Topology/Incoming/Intersection.antt =====
-- unionPod, pkg/topology/builder.go: its result by membership, and what it makes of the two loops that
-- call it.
use maesh.Common.{
  true, List, [], ◌∷◌, Option, none, some, ◌≡◌, ◌↔◌, inl, inr, In, arith, refl, subst, All, lookup,
  ◌∙◌, Option-cases, sym,
}
use maesh.Topology.Types.{
  Key, key_beq_iff, key_eq, Backend, TrafficSplit, Topology, no_traffic_split,
}
use maesh.Topology.Incoming.{
  has_key, keep_common, union_pod, Walk, pods, failed, out_of_fuel, join_step, unless_empty,
  or_none, over_backends, over_splits, split_key,
}

has_key_iff : (k : Key) (ks : List Key) → (has_key k ks ≡ true) ↔ In k ks
unfolding has_key
has_key_iff k [] = ground arith
has_key_iff k (j ∷ ks) = ground (arith, key_beq_iff j k, has_key_iff k ks)

keep_common_iff : (k : Key) (a b : List Key) → In k (keep_common a b) ↔ (In k a × In k b)
unfolding keep_common
keep_common_iff k a [] = ground arith
keep_common_iff k a (p ∷ b) = ground (arith, has_key_iff p a, keep_common_iff k a b)

pub pods_injective : {a b : List Key} → pods a ≡ pods b → a ≡ b
pods_injective h = cc

-- If the walk ends in pods, then `k` is one of them exactly where `P` holds.
abbrev pub Decides : Key → Walk → Type 0 → Type 0
Decides k w P = (ps : List Key) → w ≡ pods ps → In k ps ↔ P

unless_empty-Decides :
    (k : Key) (r : List Key) (next : Option (List Key) → Walk) (Rest : Type 0)
    → ((r' : List Key) → Decides k (next (some r')) (In k r' × Rest))
    → Decides k (unless_empty r next) (In k r × Rest)
unless_empty-Decides k [] next Rest rest ps h =
    subst (λ qs. In k qs ↔ (⊥ × Rest)) (pods_injective h) ((λ i. absurd i), λ (i, _). absurd i)
unless_empty-Decides k (j ∷ r) next Rest rest ps h = rest (j ∷ r) ps h

module _ (k : Key) (P Rest : Type 0) (next : Option (List Key) → Walk) where
  -- What a step adds to the walks before it: `Rest` is what the later steps say.
  join_step-Decides :
      (w : Walk) (u : List Key)
      → Decides k w P
      → ((r : List Key) → Decides k (next (some r)) (In k r × Rest))
      → Decides k (join_step w (some u) next) (In k u × (P × Rest))
  unfolding union_pod
  join_step-Decides (pods qs) u hp rest ps h =
      let i = unless_empty-Decides k (keep_common qs u) next Rest rest ps h in
      let c = keep_common_iff k qs u in
      let g = hp qs refl in
      (
        (λ x. let (y, z) = i.0 x in let (a, b) = c.0 y in (b, (g.0 a, z))),
        λ (b, (a, z)). i.1 (c.1 (g.1 a, b), z),
      )
  join_step-Decides (failed e) u hp rest ps h = cc
  join_step-Decides out_of_fuel u hp rest ps h = cc

  first_step-Decides :
      (w : Walk)
      → Decides k w P
      → ((r : List Key) → Decides k (next (some r)) (In k r × Rest))
      → Decides k (join_step w none next) (P × Rest)
  unfolding union_pod
  first_step-Decides (pods qs) hp rest ps h =
      let i = unless_empty-Decides k qs next Rest rest ps h in
      let g = hp qs refl in ((λ x. let (y, z) = i.0 x in (g.0 y, z)), λ (a, z). i.1 (g.1 a, z))
  first_step-Decides (failed e) hp rest ps h = cc
  first_step-Decides out_of_fuel hp rest ps h = cc

done-Decides : (k : Key) (u : List Key) → Decides k (or_none (some u)) (In k u × Unit)
done-Decides k u ps h =
    subst (λ qs. In k qs ↔ (In k u × Unit)) (pods_injective h) ((λ i. (i, tt)), λ (i, _). i)

-- The loop over backends, at least one: a pod comes out exactly if each backend gives it.
module _ (k : Key) (P : Key → Type 0) (f : Key → Walk)
    (decided : (j : Key) → Decides k (f j) (P j)) where
  over_backends-more :
      (bs : List Backend) (u : List Key)
      → Decides k (over_backends f bs (some u)) (In k u × All (λ b. P b.service) bs)
  unfolding over_backends
  over_backends-more [] u = done-Decides k u
  over_backends-more (b ∷ bs) u =
      join_step-Decides k (P b.service) (All (λ b. P b.service) bs) (over_backends f bs)
        (f b.service) u (decided b.service) (over_backends-more bs)

  pub over_backends-Decides :
      (b : Backend) (bs : List Backend)
      → Decides k (over_backends f (b ∷ bs) none) (All (λ b. P b.service) (b ∷ bs))
  unfolding over_backends
  over_backends-Decides b bs =
      first_step-Decides k (P b.service) (All (λ b. P b.service) bs) (over_backends f bs)
        (f b.service) (decided b.service) (over_backends-more bs)

-- The key has a split of the topology, and `P` holds of it.
abbrev pub Through : Topology → (TrafficSplit → Type 0) → Key → Type 0
Through t P s = (ts : TrafficSplit) × (lookup s t.traffic_splits ≡ some ts) × P ts

-- The same for the loop over the splits of a service.
module _ (k : Key) (P : TrafficSplit → Type 0) (t : Topology) (f : List Key → TrafficSplit → Walk)
    (decided : (visited : List Key) (ts : TrafficSplit) → Decides k (f visited ts) (P ts)) where
  split_step :
      (s : Key) (visited : List Key) (ts : TrafficSplit)
      → lookup s t.traffic_splits ≡ some ts
      → Decides k (f visited ts) (Through t P s)
  split_step s visited ts e ps h =
      let g = decided visited ts ps h in
      ((λ i. (ts, e, g.0 i)), λ (ts', e', p). g.1 (subst P (cc) p))

  over_splits-step :
      (s : Key) (ss visited : List Key) (u : Option (List Key)) (ts : TrafficSplit)
      → lookup s t.traffic_splits ≡ some ts
      → over_splits t f visited (s ∷ ss) u
        ≡ join_step (f visited ts) u (over_splits t f (split_key ts ∷ visited) ss)
  unfolding over_splits
  over_splits-step s ss visited u ts e = rw (over_splits, e)

  over_splits-missing :
      (s : Key) (ss visited : List Key) (u : Option (List Key)) {R : Type 0}
      → lookup s t.traffic_splits ≡ none
      → Decides k (over_splits t f visited (s ∷ ss) u) R
  unfolding over_splits
  over_splits-missing s ss visited u e ps h =
      let missing : over_splits t f visited (s ∷ ss) u ≡ failed (no_traffic_split s) =
        rw (over_splits, e) in
      cc

  over_splits-more :
      (ss : List Key) (visited u : List Key)
      → Decides k (over_splits t f visited ss (some u)) (In k u × All (Through t P) ss)
  unfolding over_splits
  over_splits-more [] visited u ps h = done-Decides k u ps h
  over_splits-more (s ∷ ss) visited u ps h = elim (Option-cases (lookup s t.traffic_splits)) [
    | inl e ↦ over_splits-missing s ss visited (some u) e ps h
    | inr (ts, e) ↦
        join_step-Decides k (Through t P s) (All (Through t P) ss)
          (over_splits t f (split_key ts ∷ visited) ss) (f visited ts) u (split_step s visited ts e)
          (over_splits-more ss (split_key ts ∷ visited)) ps
          (sym (over_splits-step s ss visited (some u) ts e) ∙ h)
  ]

  pub over_splits-Decides :
      (s : Key) (ss visited : List Key)
      → Decides k (over_splits t f visited (s ∷ ss) none) (All (Through t P) (s ∷ ss))
  over_splits-Decides s ss visited ps h = elim (Option-cases (lookup s t.traffic_splits)) [
    | inl e ↦ over_splits-missing s ss visited none e ps h
    | inr (ts, e) ↦
        first_step-Decides k (Through t P s) (All (Through t P) ss)
          (over_splits t f (split_key ts ∷ visited) ss) (f visited ts) (split_step s visited ts e)
          (over_splits-more ss (split_key ts ∷ visited)) ps
          (sym (over_splits-step s ss visited none ts e) ∙ h)
  ]
