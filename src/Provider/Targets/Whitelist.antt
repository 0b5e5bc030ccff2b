-- ===== src/Provider/Targets/Whitelist.antt =====
-- The whitelists of a traffic target, pkg/provider/provider.go: what they let through, and which of
-- them a router passes.
use maesh.Common.{
  ℕ, String, List, [], ◌∷◌, ◌≡◌, ◌≢◌, ◌↔◌, inl, inr, refl, sym, ap, ◌∙◌, subst, Option, none, some,
  In, In-append, lookup, Option-cases, string_eq,
}
use maesh.Annotations.Middleware.{Middleware, ip_white_list}
use maesh.Topology.{Key, key_eq, Pod, Source, ServiceTrafficTarget, Topology}
use maesh.Provider.Keys.{
  get_whitelist_middleware_key_from_traffic_target_direct,
  get_whitelist_middleware_key_from_traffic_target_indirect,
}
use maesh.Provider.Servers.{
  pod_ips, source_ips, build_whitelist_middleware_from_traffic_target_direct,
  build_whitelist_middleware_from_traffic_target_indirect,
}
use text.Mathlib.TextLemmas.{append_cancel_left}

-- The address of a pod that the topology has under one of the keys.
abbrev pub PodIp : List (Key × Pod) → List Key → String → Type 0
PodIp pods ks ip = (k : Key) × In k ks × (pod : Pod) × (lookup k pods ≡ some pod) × (pod.ip ≡ ip)

-- The address of a pod of one of the sources.
abbrev pub SourceIp : List (Key × Pod) → List Source → String → Type 0
SourceIp pods sources ip = (s : Source) × In s sources × PodIp pods s.pods ip

-- The middleware lets exactly the pods of the sources through; with a depth it reads their address
-- from the X-Forwarded-For header.
abbrev pub IsWhitelist : List (Key × Pod) → List Source → Option ℕ → Middleware → Type 0
IsWhitelist pods sources depth m =
    (ips : List String) × (m ≡ ip_white_list ips depth)
    × ((ip : String) → In ip ips ↔ SourceIp pods sources ip)

pod_ips_iff :
    (t : Topology) (ks : List Key) (ip : String) → In ip (pod_ips t ks) ↔ PodIp t.pods ks ip
unfolding pod_ips
pod_ips_iff t [] ip = ((λ i. absurd i), λ (k, i, pod, found, same). absurd i)
pod_ips_iff t (k ∷ ks) ip =
    let rest = pod_ips_iff t ks ip in
    elim (Option-cases (lookup k t.pods)) [
      | inl n ↦
          rw (n, pod_ips)
            (
              (λ i. let (l, at_l, pod, found, same) = rest.0 i in (l, inr at_l, pod, found, same)),
              λ (l, at_l, pod, found, same). elim at_l [
                | inl e ↦ absurd (cc (e, n, found))
                | inr j ↦ rest.1 (l, j, pod, found, same)
              ],
            )
      | inr (pod, e) ↦
          rw (e, pod_ips)
            (
              (λ i. elim i [
                | inl same ↦ (k, inl refl, pod, e, sym same)
                | inr j ↦
                    (let (l, at_l, pod', found, same) = rest.0 j in
                      (l, inr at_l, pod', found, same))
              ]),
              λ (l, at_l, pod', found, same). elim at_l [
                | inl at_k ↦
                    let same_pod : pod ≡ pod' = cc (at_k, e, found) in
                    inl (sym same ∙ ap (λ (x : Pod). x.ip) (sym same_pod))
                | inr j ↦ inr (rest.1 (l, j, pod', found, same))
              ],
            )
    ]

source_ips_iff :
    (t : Topology) (sources : List Source) (ip : String)
    → In ip (source_ips t sources) ↔ SourceIp t.pods sources ip
unfolding source_ips
source_ips_iff t [] ip = ((λ i. absurd i), λ (s, i, _). absurd i)
source_ips_iff t (s ∷ sources) ip =
    let here = pod_ips_iff t s.pods ip in
    let rest = source_ips_iff t sources ip in
    let split = In-append ip (pod_ips t s.pods) (source_ips t sources) in
    (
      (λ i. elim (split.0 i) [
        | inl j ↦ (s, inl refl, here.0 j)
        | inr j ↦ (let (u, at_u, p) = rest.0 j in (u, inr at_u, p))
      ]),
      λ (u, at_u, p). split.1 (elim at_u [
        | inl e ↦ inl (here.1 (subst (λ (x : Source). PodIp t.pods x.pods ip) e p))
        | inr j ↦ inr (rest.1 (u, j, p))
      ]),
    )

module _ (t : Topology) (tt' : ServiceTrafficTarget) where
  pub direct-IsWhitelist :
      IsWhitelist t.pods tt'.sources none
        (build_whitelist_middleware_from_traffic_target_direct t tt')
  unfolding build_whitelist_middleware_from_traffic_target_direct
  direct-IsWhitelist = (source_ips t tt'.sources, refl, source_ips_iff t tt'.sources)

  pub indirect-IsWhitelist :
      IsWhitelist t.pods tt'.sources
        (some 1)
        (build_whitelist_middleware_from_traffic_target_indirect t tt')
  unfolding build_whitelist_middleware_from_traffic_target_indirect
  indirect-IsWhitelist = (source_ips t tt'.sources, refl, source_ips_iff t tt'.sources)

pub direct-ne-indirect :
    (tt' : ServiceTrafficTarget)
    → get_whitelist_middleware_key_from_traffic_target_direct tt'
      ≢ get_whitelist_middleware_key_from_traffic_target_indirect tt'
unfolding get_whitelist_middleware_key_from_traffic_target_direct
    get_whitelist_middleware_key_from_traffic_target_indirect
direct-ne-indirect tt' e = absurd (cc (append_cancel_left _ _ _ e))
