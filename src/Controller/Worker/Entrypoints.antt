-- ===== src/Controller/Worker/Entrypoints.antt =====
-- The shadow services and the configuration agree: a shadow port sends to the port on which the proxy
-- listens for that port of the service.
use maesh.Common.{
  ℕ, suc, ◌+◌, ◌%◌, ◌^◌, false, String, List, [], ◌∷◌, ◌++◌, ◌≡◌, ◌⊎◌, inl, inr, refl, sym, ap, ◌∙◌,
  subst, some, arith, Option-cases, Bool-cases, All, All-append, ok, ◌==◌, string_eq, eq_iff,
}
use maesh.Common.Int32.{add32, le32}
use maesh.Common.Text.{concat, decimal32}
use maesh.Kube
use maesh.Kube.{ServicePort}
use maesh.Annotations.{get_traffic_type, service_type_http, service_type_tcp, service_type_udp}
use maesh.Topology.{Key}
use maesh.Topology.Builder.{new_service}
use maesh.Provider.Servers.{build_http_entrypoint, build_tcp_entrypoint, build_udp_entrypoint}
use maesh.Controller.Shadow.{
  Manager, get_http_port, get_target_port, shadow_port, shadow_ports, get_shadow_service_ports,
  is_port_suitable, with_http,
}
use maesh.Controller.Shadow.State.{IsReady}
use maesh.Controller.Shadow.Ports.{nth, IsRouted, get_shadow_service_ports-IsRouted}
use maesh.Controller.Worker.{Config, provider}

-- A port of an HTTP shadow service: it stands for the service port of some index, and targets the HTTP
-- port of that index.
pub record IsPlaced (svc : Kube.Service) (s : Manager) (sp : ServicePort) : Type 0 where
  pub index : ℕ
  pub source : ServicePort
  pub source_eq : nth svc.ports index ≡ some source
  pub port_eq : sp.port ≡ source.port
  pub target_eq : get_http_port s index ≡ some sp.target_port.int_val

http_target :
    (s : Manager) (i : ℕ) (name namespace : String) (port : ℕ)
    → get_target_port s service_type_http i name namespace port ≡ with_http s (get_http_port s i)
unfolding get_target_port
http_target s i name namespace port = refl

shadow_ports-IsPlaced :
    (svc : Kube.Service) (i : ℕ) (sps out : List ServicePort) (s : Manager)
    → ((j : ℕ) → nth sps j ≡ nth svc.ports (i + j))
    → All (IsPlaced svc s) out
    → All (IsPlaced svc s) (shadow_ports service_type_http svc i sps out s).0
      × ((shadow_ports service_type_http svc i sps out s).1 ≡ s)
unfolding shadow_ports
shadow_ports-IsPlaced svc i [] out s at h = (h, refl)
shadow_ports-IsPlaced svc i (sp ∷ sps) out s at h =
    let next : (j : ℕ) → nth sps j ≡ nth svc.ports (suc i + j) =
      λ j. at (suc j) ∙ ap (nth svc.ports) (omega arith) in
    elim (Bool-cases (is_port_suitable service_type_http sp)) [
      | inr unfit ↦ rw unfit (shadow_ports-IsPlaced svc (suc i) sps out s next h)
      | inl fits ↦ elim (Option-cases (get_http_port s i)) [
        | inl e ↦
            rw (fits, http_target s i svc.name svc.namespace sp.port, e)
              (shadow_ports-IsPlaced svc (suc i) sps out s next h)
        | inr (q, e) ↦
            rw (fits, http_target s i svc.name svc.namespace sp.port, e)
              (shadow_ports-IsPlaced svc (suc i) sps (out ++ shadow_port sp q ∷ []) s next (
                All-append (IsPlaced svc s) out (shadow_port sp q ∷ []) h (
                  record {
                    index = i;
                    source = sp;
                    source_eq = sym (at 0 ∙ ap (nth svc.ports) (omega arith));
                    port_eq = refl;
                    target_eq = e;
                  },
                  tt,
                )))
      ]
    ]

abbrev pub named : String → ℕ → String
named prefix port = concat (prefix ∷ decimal32 port ∷ [])

-- The entry point that the provider gives to the routers of this port of the service is called after
-- the target of the shadow port.
abbrev pub HasEntrypoint : Config → Manager → Kube.Service → String → ServicePort → Type 0
HasEntrypoint cfg s svc t sp =
    ((t ≡ service_type_http)
      × (i : ℕ) × (source : ServicePort) × (nth svc.ports i ≡ some source)
      × (sp.port ≡ source.port)
      × (build_http_entrypoint (provider cfg s) i ≡ some (named "http-" sp.target_port.int_val)))
    ⊎ ((t ≡ service_type_tcp)
        × ((pods : List Key)
            → build_tcp_entrypoint (provider cfg s) (new_service svc pods) sp.port
              ≡ some (named "tcp-" sp.target_port.int_val)))
    ⊎ ((t ≡ service_type_udp)
        × ((pods : List Key)
            → build_udp_entrypoint (provider cfg s) (new_service svc pods) sp.port
              ≡ some (named "udp-" sp.target_port.int_val)))

-- The manager and the provider were given the same HTTP ports.
pub record SameRange (cfg : Config) (s : Manager) : Type 0 where
  pub min_same : s.min_http_port ≡ cfg.min_http_port
  pub max_same : s.max_http_port ≡ cfg.max_http_port

http_entrypoint :
    (cfg : Config) (s : Manager) (i : ℕ) {q : ℕ}
    → SameRange cfg s
    → get_http_port s i ≡ some q
    → build_http_entrypoint (provider cfg s) i ≡ some (named "http-" q)
unfolding get_http_port build_http_entrypoint provider
http_entrypoint cfg s i {q} r e =
    let port = add32 s.min_http_port (i % 2 ^ 32) in
    elim (Bool-cases (le32 port s.max_http_port)) [
      | inr b ↦ absurd (ground arith)
      | inl b ↦
          let same : port ≡ q = ground arith in
          rw (← r.min_same, ← r.max_same, build_http_entrypoint, b)
            (ap (λ n. some (named "http-" n)) same)
    ]

All-map :
    {A : Type 0} (P Q : A → Type 0) (xs : List A) → ((x : A) → P x → Q x) → All P xs → All Q xs
All-map P Q [] f h = tt
All-map P Q (x ∷ xs) f (p, h) = (f x p, All-map P Q xs f h)

IsPlaced-HasEntrypoint :
    (cfg : Config) (s : Manager) (svc : Kube.Service) (sp : ServicePort)
    → SameRange cfg s
    → IsPlaced svc s sp
    → HasEntrypoint cfg s svc service_type_http sp
IsPlaced-HasEntrypoint cfg s svc sp r h =
    inl
      (refl, h.index, h.source, h.source_eq, h.port_eq, http_entrypoint cfg s h.index r h.target_eq)

IsRouted-HasEntrypoint :
    (cfg : Config) (s : Manager) (svc : Kube.Service) (t : String) (sp : ServicePort)
    → (t == service_type_http) ≡ false
    → IsRouted t svc s sp
    → HasEntrypoint cfg s svc t sp
unfolding build_tcp_entrypoint build_udp_entrypoint provider
IsRouted-HasEntrypoint cfg s svc t sp other (i, source, at_i, same, fits, target) =
    let port_eq : sp.port ≡ source.port = ap (λ (x : ServicePort). x.port) same in
    elim target [
      | inl (e, h) ↦ absurd (ground (arith, eq_iff t service_type_http))
      | inr (inl (e, h)) ↦ inr (inl (e, λ pods. rw (port_eq, h) refl))
      | inr (inr (e, h)) ↦ inr (inr (e, λ pods. rw (port_eq, h) refl))
    ]

http_HasEntrypoint :
    (cfg : Config) (svc : Kube.Service) (s s' : Manager) (ports : List ServicePort)
    → SameRange cfg s
    → shadow_ports service_type_http svc 0 svc.ports [] s ≡ (ports, s')
    → All (HasEntrypoint cfg s' svc service_type_http) ports
http_HasEntrypoint cfg svc s s' ports same ran =
    let (placed, unmoved) =
      shadow_ports-IsPlaced svc 0 svc.ports [] s (λ j. ap (nth svc.ports) (omega arith)) tt in
    let placed_ports =
      subst (λ (r : List ServicePort × Manager). All (IsPlaced svc s) r.0) ran placed in
    let still : s ≡ s' = sym unmoved ∙ ap (λ (r : List ServicePort × Manager). r.1) ran in
    subst (λ u. All (HasEntrypoint cfg u svc service_type_http) ports) still
      (All-map (IsPlaced svc s) (HasEntrypoint cfg s svc service_type_http) ports
        (λ sp. IsPlaced-HasEntrypoint cfg s svc sp same) placed_ports)

-- From sound tables and for one range of HTTP ports, each port of a shadow service targets the port
-- after which the provider, asked with the tables as they then are, names the entry point of this port
-- of the service; for HTTP that is the entry point of the port's place among the ports of the service.
pub get_shadow_service_ports-HasEntrypoint :
    (cfg : Config) (svc : Kube.Service) (s : Manager) (t : String) {ports : List ServicePort}
    {s' : Manager}
    → IsReady s
    → SameRange cfg s
    → get_traffic_type s.default_traffic_type svc.annotations ≡ ok t
    → get_shadow_service_ports svc s ≡ (some ports, s')
    → All (HasEntrypoint cfg s' svc t) ports
unfolding get_shadow_service_ports
get_shadow_service_ports-HasEntrypoint cfg svc s t {ports} {s'} r same typed e =
    let routed = get_shadow_service_ports-IsRouted svc s t r typed e in
    elim (Bool-cases (t == service_type_http)) [
      | inl h ↦
          subst
            (λ (u : String).
              shadow_ports u svc 0 svc.ports [] s ≡ (ports, s')
              → All (HasEntrypoint cfg s' svc u) ports)
            (sym ((eq_iff t service_type_http).0 h)) (http_HasEntrypoint cfg svc s s' ports same)
            ran
      | inr h ↦
          All-map (IsRouted t svc s') (HasEntrypoint cfg s' svc t) ports
            (λ sp. IsRouted-HasEntrypoint cfg s' svc t sp h) routed
    ]
  where
    ran : shadow_ports t svc 0 svc.ports [] s ≡ (ports, s')
    ran = ground arith
