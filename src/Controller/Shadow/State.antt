-- ===== src/Controller/Shadow/State.antt =====
-- The state tables stay valid under every operation of the shadow service manager.
use maesh.Common.{
  ℕ, Bool, String, List, [], ◌∷◌, ◌≡◌, ◌≢◌, refl, sym, ap, subst, ◌∙◌, Option, some, none, arith,
  Option-cases, Bool-cases, inl, inr, nat_eq, Result-cases, suc, ◌==◌, string_eq,
}
use maesh.Kube.{Service, ServicePort, Lookup, found, missing, failed}
use maesh.Annotations.{get_traffic_type, service_type_http, service_type_tcp, service_type_udp}
use maesh.Controller.PortMapping.{PortMapping, Allocation, allocated, no_port, out_of_fuel}
use maesh.Controller.PortMapping
use maesh.Controller.PortMapping.Find.{IsValid, mapped_port}
use maesh.Controller.PortMapping.Valid.{
  IsBounded, add-IsValid, add-IsBounded, find-add, find-add_self, remove-IsValid, remove-IsBounded,
}
use maesh.Controller.Shadow.{
  Manager, get_mapped_port, get_target_port, shadow_ports, get_shadow_service_ports, or_same,
  remove_service_port_mapping, remove_unused, remove_unused_port_mappings, cleanup_port_mappings,
  with_tcp, with_udp, with_http, get_http_port, create_or_update, delete_shadow, remove_all,
  is_port_suitable, finish_create_or_update,
}

-- A table that is valid, over a range that `Add` can run through.
pub record IsSound (p : PortMapping) : Type 0 where
  pub valid : IsValid p
  pub bounded : IsBounded p

-- What getMappedPort does to the table: afterwards Find shows the port that it returned, which is the
-- old one where there was one, and no other service port has moved.
pub record IsMapped (p : PortMapping) (namespace name : String) (port q : ℕ) (p' : PortMapping)
    : Type 0 where
  pub sound : IsSound p'
  pub here : PortMapping.find p' namespace name port ≡ some q
  pub kept : (r : ℕ) → PortMapping.find p namespace name port ≡ some r → r ≡ q
  pub others :
      (namespace' name' : String) (port' : ℕ)
      → mapped_port namespace' name' port' ≢ mapped_port namespace name port
      → PortMapping.find p namespace' name' port' ≡ PortMapping.find p' namespace' name' port'

-- getMappedPort on a sound table gives the port under which Find then knows the service port, keeps
-- the table sound, and leaves the port of every other service port as it was.
pub get_mapped_port-IsMapped :
    (p : PortMapping) (name namespace : String) (port : ℕ) {q : ℕ} {p' : PortMapping}
    → IsSound p
    → get_mapped_port p name namespace port ≡ some (q, p')
    → IsMapped p namespace name port q p'
unfolding get_mapped_port
get_mapped_port-IsMapped p name namespace port {q} {p'} s e =
    elim (Option-cases (PortMapping.find p namespace name port)) [
      | inr (r, known) ↦
          let (eq, eq') = known_case r known in
          rw (← eq') (record {
            sound = s;
            here = known ∙ ap some eq;
            kept = λ t e'. cc (sym known ∙ e', eq);
            others = λ n m k other. refl;
          })
      | inl unknown ↦
          let a = added unknown in
          record {
            sound = record {
              valid = add-IsValid p namespace name port s.valid s.bounded unknown a;
              bounded = add-IsBounded p namespace name port s.bounded a;
            };
            here = find-add_self p namespace name port s.valid s.bounded unknown a;
            kept = λ t known. cc (sym unknown ∙ known);
            others = λ n m k other.
                find-add p namespace name port n m k other s.valid s.bounded unknown a;
          }
    ]
  where
    known_case : (r : ℕ) → PortMapping.find p namespace name port ≡ some r → (r ≡ q) × (p ≡ p')
    known_case r known = ground arith

    added :
        PortMapping.find p namespace name port ≡ none
        → PortMapping.add p namespace name port ≡ allocated q p'
    added unknown = ground arith

remove-IsSound :
    (p : PortMapping) (namespace name : String) (port : ℕ)
    → IsSound p
    → IsSound (or_same p (PortMapping.remove p namespace name port))
remove-IsSound p namespace name port s =
    elim (Option-cases (PortMapping.remove p namespace name port)) [
      | inl e ↦ rw e s
      | inr ((q, p'), e) ↦ rw e (record {
        valid = remove-IsValid p namespace name port s.valid e;
        bounded = remove-IsBounded p namespace name port s.bounded e;
      })
    ]

-- Both state tables of the manager are sound.
pub record IsReady (s : Manager) : Type 0 where
  pub tcp_sound : IsSound s.tcp
  pub udp_sound : IsSound s.udp

pub remove_service_port_mapping-IsReady :
    (namespace name : String) (sp : ServicePort) (s : Manager)
    → IsReady s
    → IsReady (remove_service_port_mapping namespace name sp s)
unfolding remove_service_port_mapping
remove_service_port_mapping-IsReady namespace name sp s r = ground (
  arith,
  remove-IsSound s.tcp namespace name sp.port,
  remove-IsSound s.udp namespace name sp.port,
)

cleanup_port_mappings-IsReady :
    (namespace name : String) (olds news : List ServicePort) (s : Manager)
    → IsReady s
    → IsReady (cleanup_port_mappings namespace name olds news s)
unfolding cleanup_port_mappings
cleanup_port_mappings-IsReady namespace name [] news s r = r
cleanup_port_mappings-IsReady namespace name (old ∷ olds) news s r =
    cleanup_port_mappings-IsReady namespace name olds news _
      (ground (arith, remove_service_port_mapping-IsReady namespace name old s r))

remove_unused-IsReady :
    (svc : Service) (sps : List ServicePort) (s : Manager)
    → IsReady s
    → IsReady (remove_unused svc sps s)
unfolding remove_unused
remove_unused-IsReady svc [] s r = r
remove_unused-IsReady svc (sp ∷ sps) s r =
    remove_unused-IsReady svc sps _
      (ground (arith, remove_service_port_mapping-IsReady svc.namespace svc.name sp s r))

remove_unused_port_mappings-IsReady :
    (shadow : Option Service) (svc : Service) (s : Manager)
    → IsReady s
    → IsReady (remove_unused_port_mappings shadow svc s)
unfolding remove_unused_port_mappings
remove_unused_port_mappings-IsReady none svc s r = r
remove_unused_port_mappings-IsReady (some shadow) svc s r =
    remove_unused-IsReady svc shadow.ports s r

remove_all-IsReady :
    (namespace name : String) (sps : List ServicePort) (s : Manager)
    → IsReady s
    → IsReady (remove_all namespace name sps s)
unfolding remove_all
remove_all-IsReady namespace name [] s r = r
remove_all-IsReady namespace name (sp ∷ sps) s r =
    remove_all-IsReady namespace name sps _
      (remove_service_port_mapping-IsReady namespace name sp s r)

-- A step that fails leaves nothing to check.
abbrev pub Gives : (Manager → Type 0) → Option (ℕ × Manager) → Type 0
Gives P none = Unit
Gives P (some (_, s)) = P s

pub Gives-some :
    (P : Manager → Type 0) (o : Option (ℕ × Manager)) {q : ℕ} {s : Manager}
    → Gives P o
    → o ≡ some (q, s)
    → P s
Gives-some P none g e = cc
Gives-some P (some (r, t)) g e = subst P (ground arith) g

with_tcp-IsReady :
    (s : Manager) (name namespace : String) (port : ℕ)
    → IsReady s
    → Gives IsReady (with_tcp s (get_mapped_port s.tcp name namespace port))
with_tcp-IsReady s name namespace port r =
    elim (Option-cases (get_mapped_port s.tcp name namespace port)) [
      | inl e ↦ rw e tt
      | inr ((q, p'), e) ↦ rw e (record {
        tcp_sound = (get_mapped_port-IsMapped s.tcp name namespace port r.tcp_sound e).sound;
        udp_sound = r.udp_sound;
      })
    ]

with_udp-IsReady :
    (s : Manager) (name namespace : String) (port : ℕ)
    → IsReady s
    → Gives IsReady (with_udp s (get_mapped_port s.udp name namespace port))
with_udp-IsReady s name namespace port r =
    elim (Option-cases (get_mapped_port s.udp name namespace port)) [
      | inl e ↦ rw e tt
      | inr ((q, p'), e) ↦ rw e (record {
        tcp_sound = r.tcp_sound;
        udp_sound = (get_mapped_port-IsMapped s.udp name namespace port r.udp_sound e).sound;
      })
    ]

with_http-IsReady : (s : Manager) (o : Option ℕ) → IsReady s → Gives IsReady (with_http s o)
with_http-IsReady s none r = tt
with_http-IsReady s (some q) r = r

get_target_port-Gives :
    (s : Manager) (traffic_type : String) (i : ℕ) (name namespace : String) (port : ℕ)
    → IsReady s
    → Gives IsReady (get_target_port s traffic_type i name namespace port)
unfolding get_target_port
get_target_port-Gives s traffic_type i name namespace port r =
    elim (Bool-cases (traffic_type == service_type_http)) [
      | inl t ↦ rw t (with_http-IsReady s (get_http_port s i) r)
      | inr f ↦ elim (Bool-cases (traffic_type == service_type_tcp)) [
        | inl t ↦ rw (f, t) (with_tcp-IsReady s name namespace port r)
        | inr g ↦ elim (Bool-cases (traffic_type == service_type_udp)) [
          | inl t ↦ rw (f, g, t) (with_udp-IsReady s name namespace port r)
          | inr h ↦ rw (f, g, h) tt
        ]
      ]
    ]

pub get_target_port-IsReady :
    (s : Manager) (traffic_type : String) (i : ℕ) (name namespace : String) (port : ℕ) {q : ℕ}
    {s' : Manager}
    → IsReady s
    → get_target_port s traffic_type i name namespace port ≡ some (q, s')
    → IsReady s'
get_target_port-IsReady s traffic_type i name namespace port r e =
    Gives-some IsReady _ (get_target_port-Gives s traffic_type i name namespace port r) e

shadow_ports-IsReady :
    (traffic_type : String) (svc : Service) (i : ℕ) (sps out : List ServicePort) (s : Manager)
    → IsReady s
    → IsReady (shadow_ports traffic_type svc i sps out s).1
unfolding shadow_ports
shadow_ports-IsReady traffic_type svc i [] out s r = r
shadow_ports-IsReady traffic_type svc i (sp ∷ sps) out s r =
    elim (Bool-cases (is_port_suitable traffic_type sp)) [
      | inr unfit ↦ rw unfit (shadow_ports-IsReady traffic_type svc (suc i) sps out s r)
      | inl fits ↦
          elim (Option-cases (get_target_port s traffic_type i svc.name svc.namespace sp.port)) [
            | inl e ↦ rw (fits, e) (shadow_ports-IsReady traffic_type svc (suc i) sps out s r)
            | inr ((q, s'), e) ↦
                rw (fits, e)
                  (shadow_ports-IsReady traffic_type svc (suc i) sps _ s'
                    (get_target_port-IsReady s traffic_type i svc.name svc.namespace sp.port r e))
          ]
    ]

get_shadow_service_ports-IsReady :
    (svc : Service) (s : Manager) → IsReady s → IsReady (get_shadow_service_ports svc s).1
unfolding get_shadow_service_ports
get_shadow_service_ports-IsReady svc s r =
    elim (Result-cases (get_traffic_type s.default_traffic_type svc.annotations)) [
      | inl (t, e) ↦
          rw (e, get_shadow_service_ports) (shadow_ports-IsReady t svc 0 svc.ports [] s r)
      | inr (x, e) ↦ rw (e, get_shadow_service_ports) r
    ]

finish-IsReady :
    (shadow : Option Service) (supported : Bool) (svc : Service)
    (r : Option (List ServicePort) × Manager)
    → IsReady r.1
    → IsReady (finish_create_or_update shadow supported svc r).1
unfolding finish_create_or_update
finish-IsReady shadow supported svc (none, s) r = r
finish-IsReady none supported svc (some ports, s) r = r
finish-IsReady (some old) supported svc (some ports, s) r =
    cleanup_port_mappings-IsReady svc.namespace svc.name old.ports ports s r

pub delete_shadow-IsReady :
    (answer : Lookup Service) (namespace name : String) (s : Manager)
    → IsReady s
    → IsReady (delete_shadow answer namespace name s).1
unfolding delete_shadow
delete_shadow-IsReady failed namespace name s r = r
delete_shadow-IsReady missing namespace name s r = r
delete_shadow-IsReady (found shadow) namespace name s r =
    remove_all-IsReady namespace name shadow.ports s r

-- Creating, updating or deleting a shadow service, whatever the lister answers and whether it succeeds
-- or stops with an error, keeps both tables sound: no port for two service ports, none out of range.
pub create_or_update-IsReady :
    (answer : Lookup Service) (supported : Bool) (svc : Service) (s : Manager)
    → IsReady s
    → IsReady (create_or_update answer supported svc s).1
      × IsReady (delete_shadow answer svc.namespace svc.name s).1
unfolding create_or_update delete_shadow
create_or_update-IsReady failed supported svc s r =
    (r, delete_shadow-IsReady failed svc.namespace svc.name s r)
create_or_update-IsReady missing supported svc s r = (
  finish-IsReady none supported svc _
      (get_shadow_service_ports-IsReady svc _ (remove_unused_port_mappings-IsReady none svc s r)),
  delete_shadow-IsReady missing svc.namespace svc.name s r,
)
create_or_update-IsReady (found shadow) supported svc s r = (
  finish-IsReady (some shadow) supported svc _ (
      get_shadow_service_ports-IsReady svc _
        (remove_unused_port_mappings-IsReady (some shadow) svc s r)),
  delete_shadow-IsReady (found shadow) svc.namespace svc.name s r,
)
