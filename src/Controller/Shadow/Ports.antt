-- ===== src/Controller/Shadow/Ports.antt =====
-- The ports of a shadow service: each one reaches the mesh port under which the proxies know it.
use maesh.Common.{
  ℕ, zero, suc, ◌+◌, true, String, List, [], ◌∷◌, ◌++◌, ◌≡◌, ◌⊎◌, inl, inr, refl, sym, ap, ◌∙◌,
  Option, some, none, arith, Option-cases, Bool-cases, All, All-append, ok, ◌==◌, string_eq, eq_iff,
  subst,
}
use maesh.Kube.{Service, ServicePort}
use maesh.Annotations.{get_traffic_type, service_type_http, service_type_tcp, service_type_udp}
use maesh.Controller.PortMapping.{PortMapping, is_for}
use maesh.Controller.PortMapping
use maesh.Controller.PortMapping.Find.{mapped_port, is_for_iff}
use maesh.Controller.Shadow.{
  Manager, get_http_port, get_mapped_port, get_target_port, shadow_port, shadow_ports,
  get_shadow_service_ports, is_port_suitable, with_http, with_tcp, with_udp,
}
use maesh.Controller.Shadow.State.{
  IsReady, IsMapped, get_mapped_port-IsMapped, get_target_port-IsReady,
}

-- Every mapping of `p` is still there in `p'`.
abbrev pub Keeps : PortMapping → PortMapping → Type 0
Keeps p p' =
    (namespace name : String) (port r : ℕ)
    → PortMapping.find p namespace name port ≡ some r
    → PortMapping.find p' namespace name port ≡ some r

IsMapped-Keeps :
    (p p' : PortMapping) (namespace name : String) (port q : ℕ)
    → IsMapped p namespace name port q p'
    → Keeps p p'
IsMapped-Keeps p p' namespace name port q m namespace' name' port' r e =
    elim (Bool-cases (is_for namespace name port (mapped_port namespace' name' port'))) [
      | inl same ↦
          let eq = (is_for_iff namespace name port (mapped_port namespace' name' port')).0 same in
          let e' = subst (λ v. PortMapping.find p v.namespace v.name v.port ≡ some r) eq e in
          subst (λ v. PortMapping.find p' v.namespace v.name v.port ≡ some r) (sym eq)
            (m.here ∙ ap some (sym (m.kept r e')))
      | inr differ ↦
          sym (
            m.others namespace' name' port' (λ eq.
              cc (
                differ,
                (is_for_iff namespace name port (mapped_port namespace' name' port')).1 eq,
              )))
          ∙ e
    ]

-- A later state of the manager: the mappings and the range of the HTTP ports are still there.
record Grows (s s' : Manager) : Type 0 where
  tcp_kept : Keeps s.tcp s'.tcp
  udp_kept : Keeps s.udp s'.udp
  min_same : s'.min_http_port ≡ s.min_http_port
  max_same : s'.max_http_port ≡ s.max_http_port

-- The target port is the one that the mesh has for this port, the `i`-th one of the service.
abbrev pub Target : Manager → String → String → String → ℕ → ℕ → ℕ → Type 0
Target s traffic_type namespace name i port target =
    ((traffic_type ≡ service_type_http) × (get_http_port s i ≡ some target))
    ⊎ ((traffic_type ≡ service_type_tcp)
        × (PortMapping.find s.tcp namespace name port ≡ some target))
    ⊎ ((traffic_type ≡ service_type_udp)
        × (PortMapping.find s.udp namespace name port ≡ some target))

Target-Grows :
    (s s' : Manager) (traffic_type namespace name : String) (i port target : ℕ)
    → Grows s s'
    → Target s traffic_type namespace name i port target
    → Target s' traffic_type namespace name i port target
unfolding get_http_port
Target-Grows s s' t namespace name i port target g (inl (e, h)) =
    inl (e, rw (g.min_same, g.max_same) h)
Target-Grows s s' t namespace name i port target g (inr (inl (e, h))) =
    inr (inl (e, g.tcp_kept namespace name port target h))
Target-Grows s s' t namespace name i port target g (inr (inr (e, h))) =
    inr (inr (e, g.udp_kept namespace name port target h))

-- What a step gives: a later state, and the target of the port in it.
abbrev Advances : Manager → String → String → String → ℕ → ℕ → Option (ℕ × Manager) → Type 0
Advances s t namespace name i port none = Unit
Advances s t namespace name i port (some (q, s')) = Grows s s' × Target s' t namespace name i port q

Advances-some :
    (s : Manager) (t namespace name : String) (i port : ℕ) (o : Option (ℕ × Manager)) {q : ℕ}
    {s' : Manager}
    → Advances s t namespace name i port o
    → o ≡ some (q, s')
    → Grows s s' × Target s' t namespace name i port q
Advances-some s t namespace name i port o a e = subst (Advances s t namespace name i port) e a

module _ (s : Manager) (name namespace : String) (i port : ℕ) (r : IsReady s) where
  with_http-Advances :
      (o : Option ℕ)
      → get_http_port s i ≡ o
      → Advances s service_type_http namespace name i port (with_http s o)
  with_http-Advances none e = tt
  with_http-Advances (some q) e = (
    record {
      tcp_kept = λ _ _ _ _ h. h;
      udp_kept = λ _ _ _ _ h. h;
      min_same = refl;
      max_same = refl;
    },
    inl (refl, e),
  )

  with_tcp-Advances :
      (o : Option (ℕ × PortMapping))
      → get_mapped_port s.tcp name namespace port ≡ o
      → Advances s service_type_tcp namespace name i port (with_tcp s o)
  with_tcp-Advances none e = tt
  with_tcp-Advances (some (q, p')) e =
      let m = get_mapped_port-IsMapped s.tcp name namespace port r.tcp_sound e in
      (
        record {
          tcp_kept = IsMapped-Keeps s.tcp p' namespace name port q m;
          udp_kept = λ _ _ _ _ h. h;
          min_same = refl;
          max_same = refl;
        },
        inr (inl (refl, m.here)),
      )

  with_udp-Advances :
      (o : Option (ℕ × PortMapping))
      → get_mapped_port s.udp name namespace port ≡ o
      → Advances s service_type_udp namespace name i port (with_udp s o)
  with_udp-Advances none e = tt
  with_udp-Advances (some (q, p')) e =
      let m = get_mapped_port-IsMapped s.udp name namespace port r.udp_sound e in
      (
        record {
          tcp_kept = λ _ _ _ _ h. h;
          udp_kept = IsMapped-Keeps s.udp p' namespace name port q m;
          min_same = refl;
          max_same = refl;
        },
        inr (inr (refl, m.here)),
      )

  get_target_port-Advances :
      (t : String) → Advances s t namespace name i port (get_target_port s t i name namespace port)
  unfolding get_target_port
  get_target_port-Advances t = elim (Bool-cases (t == service_type_http)) [
    | inl e ↦ rw (e, (eq_iff t service_type_http).0 e) (with_http-Advances _ refl)
    | inr f ↦ elim (Bool-cases (t == service_type_tcp)) [
      | inl e ↦ rw (f, e, (eq_iff t service_type_tcp).0 e) (with_tcp-Advances _ refl)
      | inr g ↦ elim (Bool-cases (t == service_type_udp)) [
        | inl e ↦ rw (f, g, e, (eq_iff t service_type_udp).0 e) (with_udp-Advances _ refl)
        | inr h ↦ rw (f, g, h) tt
      ]
    ]
  ]

abbrev pub nth : List ServicePort → ℕ → Option ServicePort
nth [] i = none
nth (sp ∷ sps) zero = some sp
nth (sp ∷ sps) (suc i) = nth sps i

-- A port of the shadow service: it is one of the service's own, which suits the traffic type, and its
-- target is the mesh's port for it.
abbrev pub IsRouted : String → Service → Manager → ServicePort → Type 0
IsRouted t svc s sp =
    (i : ℕ) × (source : ServicePort) × (nth svc.ports i ≡ some source)
    × (sp ≡ shadow_port source sp.target_port.int_val)
    × (is_port_suitable t source ≡ true)
    × Target s t svc.namespace svc.name i source.port sp.target_port.int_val

All-Grows :
    (t : String) (svc : Service) (s s' : Manager) (out : List ServicePort)
    → Grows s s'
    → All (IsRouted t svc s) out
    → All (IsRouted t svc s') out
All-Grows t svc s s' [] g h = tt
All-Grows t svc s s' (sp ∷ out) g ((i, source, at_i, same, fits, target), h) = (
  (
    i,
    source,
    at_i,
    same,
    fits,
    Target-Grows s s' t svc.namespace svc.name i source.port sp.target_port.int_val g target,
  ),
  All-Grows t svc s s' out g h,
)

shadow_ports-IsRouted :
    (t : String) (svc : Service) (i : ℕ) (sps out : List ServicePort) (s : Manager)
    → ((j : ℕ) → nth sps j ≡ nth svc.ports (i + j))
    → IsReady s
    → All (IsRouted t svc s) out
    → All (IsRouted t svc (shadow_ports t svc i sps out s).1) (shadow_ports t svc i sps out s).0
unfolding shadow_ports
shadow_ports-IsRouted t svc i [] out s here r h = h
shadow_ports-IsRouted t svc i (sp ∷ sps) out s here r h =
    let next : (j : ℕ) → nth sps j ≡ nth svc.ports (suc i + j) =
      λ j. here (suc j) ∙ ap (nth svc.ports) (omega arith) in
    elim (Bool-cases (is_port_suitable t sp)) [
      | inr unfit ↦ rw unfit (shadow_ports-IsRouted t svc (suc i) sps out s next r h)
      | inl fits ↦ elim (Option-cases (get_target_port s t i svc.name svc.namespace sp.port)) [
        | inl e ↦ rw (fits, e) (shadow_ports-IsRouted t svc (suc i) sps out s next r h)
        | inr ((q, s'), e) ↦
            let (grows, target) =
              Advances-some s t svc.namespace svc.name i sp.port _
                (get_target_port-Advances s svc.name svc.namespace i sp.port r t) e in
            let at_i : nth svc.ports i ≡ some sp =
              sym (here 0 ∙ ap (nth svc.ports) (omega arith)) in
            rw (fits, e)
              (shadow_ports-IsRouted t svc (suc i) sps (out ++ shadow_port sp q ∷ []) s' next
                (get_target_port-IsReady s t i svc.name svc.namespace sp.port r e)
                (All-append (IsRouted t svc s') out (shadow_port sp q ∷ [])
                  (All-Grows t svc s s' out grows h) ((i, sp, at_i, refl, fits, target), tt)))
      ]
    ]

-- From sound tables, every port of the shadow service is a port of the service that suits its traffic
-- type, but for the target, which is the mesh port held for it: for HTTP the port of the range at the
-- place that the port has among the ports of the service, for TCP and UDP the one that Find shows in the
-- state tables as they are afterwards.
pub get_shadow_service_ports-IsRouted :
    (svc : Service) (s : Manager) (t : String) {ports : List ServicePort} {s' : Manager}
    → IsReady s
    → get_traffic_type s.default_traffic_type svc.annotations ≡ ok t
    → get_shadow_service_ports svc s ≡ (some ports, s')
    → All (IsRouted t svc s') ports
unfolding get_shadow_service_ports
get_shadow_service_ports-IsRouted svc s t {ports} {s'} r typed e =
    rw (← same.0, ← same.1)
      (shadow_ports-IsRouted t svc 0 svc.ports [] s (λ j. ap (nth svc.ports) (omega arith)) r tt)
  where
    same :
        ((shadow_ports t svc 0 svc.ports [] s).0 ≡ ports)
        × ((shadow_ports t svc 0 svc.ports [] s).1 ≡ s')
    same = ground arith
