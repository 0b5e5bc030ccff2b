-- ===== src/Controller/Shadow/Release.antt =====
-- Delete gives the mesh ports of the service back.
use maesh.Common.{
  ℕ, false, String, List, [], ◌∷◌, ◌≡◌, inl, inr, sym, ◌∙◌, none, arith, Option-cases, Bool-cases,
  string_eq, subst, ◌⊎◌, In,
}
use maesh.Common.Int32.{le32}
use maesh.Kube.{Service, ServicePort, found, protocol_tcp, protocol_udp}
use maesh.Controller.PortMapping.{PortMapping, is_for}
use maesh.Controller.PortMapping
use maesh.Controller.PortMapping.Find.{mapped_port, is_for_iff}
use maesh.Controller.PortMapping.Valid.{find-remove, find-remove_self, remove-eq-none}
use maesh.Controller.Shadow.{
  Manager, or_same, remove_service_port_mapping, remove_all, delete_shadow,
}
use maesh.Controller.Shadow.State.{IsReady, IsSound, remove_service_port_mapping-IsReady}

-- The service port has no mesh port.
abbrev pub Free : PortMapping → String → String → ℕ → Type 0
Free p namespace name port = PortMapping.find p namespace name port ≡ none

remove-Free_self :
    (p : PortMapping) (namespace name : String) (port : ℕ)
    → IsSound p
    → Free (or_same p (PortMapping.remove p namespace name port)) namespace name port
remove-Free_self p namespace name port s =
    elim (Option-cases (PortMapping.remove p namespace name port)) [
      | inl e ↦ rw e (remove-eq-none p namespace name port e)
      | inr ((q, p'), e) ↦ rw e (find-remove_self p namespace name port s.valid e)
    ]

remove-Free :
    (p : PortMapping) (namespace name namespace' name' : String) (port port' : ℕ)
    → IsSound p
    → Free p namespace' name' port'
    → Free (or_same p (PortMapping.remove p namespace name port)) namespace' name' port'
remove-Free p namespace name namespace' name' port port' s free =
    elim (Bool-cases (is_for namespace name port (mapped_port namespace' name' port'))) [
      | inl same ↦
          let eq = (is_for_iff namespace name port (mapped_port namespace' name' port')).0 same in
          subst
            (λ v.
              Free (or_same p (PortMapping.remove p namespace name port)) v.namespace v.name v.port)
            (sym eq) (remove-Free_self p namespace name port s)
      | inr differ ↦ elim (Option-cases (PortMapping.remove p namespace name port)) [
        | inl e ↦ rw e free
        | inr ((q, p'), e) ↦ rw e (
            sym (
              find-remove p namespace name port namespace' name' port'
                (λ eq. cc (
                  differ,
                  (is_for_iff namespace name port (mapped_port namespace' name' port')).1 eq,
                ))
                s.valid e)
            ∙ free)
      ]
    ]

-- A port of a shadow service that takes part in the TCP table, or in the UDP table.
abbrev pub UsesTable : String → Manager → ServicePort → Type 0
UsesTable protocol s sp =
    (le32 sp.target_port.int_val s.max_http_port ≡ false) × (sp.protocol ≡ protocol)

module _ (namespace name : String) where
  module _ (sp : ServicePort) (s : Manager) (r : IsReady s) where
    step-Free_tcp :
        UsesTable protocol_tcp s sp
        → Free (remove_service_port_mapping namespace name sp s).tcp namespace name sp.port
    unfolding remove_service_port_mapping
    step-Free_tcp (above, tcp) =
        rw (above, tcp, remove_service_port_mapping)
          (remove-Free_self s.tcp namespace name sp.port r.tcp_sound)

    step-Free_udp :
        UsesTable protocol_udp s sp
        → Free (remove_service_port_mapping namespace name sp s).udp namespace name sp.port
    unfolding remove_service_port_mapping
    step-Free_udp (above, udp) =
        rw (above, udp, remove_service_port_mapping)
          (remove-Free_self s.udp namespace name sp.port r.udp_sound)

    step_keeps_Free :
        (port : ℕ)
        → (Free s.tcp namespace name port
            → Free (remove_service_port_mapping namespace name sp s).tcp namespace name port)
          × (Free s.udp namespace name port
              → Free (remove_service_port_mapping namespace name sp s).udp namespace name port)
          × ((remove_service_port_mapping namespace name sp s).max_http_port ≡ s.max_http_port)
    unfolding remove_service_port_mapping
    step_keeps_Free port = (
      λ f.
          ground
            (arith, remove-Free s.tcp namespace name namespace name sp.port port r.tcp_sound f),
      λ f.
          ground
            (arith, remove-Free s.udp namespace name namespace name sp.port port r.udp_sound f),
      ground arith,
    )

  remove_all_keeps_Free :
      (sps : List ServicePort) (s : Manager) (port : ℕ)
      → IsReady s
      → (Free s.tcp namespace name port
          → Free (remove_all namespace name sps s).tcp namespace name port)
        × (Free s.udp namespace name port
            → Free (remove_all namespace name sps s).udp namespace name port)
  unfolding remove_all
  remove_all_keeps_Free [] s port r = (λ f. f, λ f. f)
  remove_all_keeps_Free (sp ∷ sps) s port r =
      let step = step_keeps_Free sp s r port in
      let rest =
        remove_all_keeps_Free sps (remove_service_port_mapping namespace name sp s) port
          (remove_service_port_mapping-IsReady namespace name sp s r) in
      (λ f. rest.0 (step.0 f), λ f. rest.1 (step.1 f))

  -- The table of the port's protocol has no entry for it.
  abbrev pub IsReleased : ServicePort → Manager → Type 0
  IsReleased sp s =
      ((sp.protocol ≡ protocol_tcp) × Free s.tcp namespace name sp.port)
      ⊎ ((sp.protocol ≡ protocol_udp) × Free s.udp namespace name sp.port)

  remove_all-IsReleased :
      (sps : List ServicePort) (s : Manager) (sp : ServicePort)
      → IsReady s
      → In sp sps
      → le32 sp.target_port.int_val s.max_http_port ≡ false
      → (sp.protocol ≡ protocol_tcp) ⊎ (sp.protocol ≡ protocol_udp)
      → IsReleased sp (remove_all namespace name sps s)
  unfolding remove_all
  remove_all-IsReleased [] s sp r listed above kind = absurd listed
  remove_all-IsReleased (one ∷ sps) s sp r (inr later) above kind =
      remove_all-IsReleased sps (remove_service_port_mapping namespace name one s) sp
        (remove_service_port_mapping-IsReady namespace name one s r) later
        (rw (step_keeps_Free one s r sp.port).2 above) kind
  remove_all-IsReleased (one ∷ sps) s sp r (inl here) above (inl tcp) = inl (
    tcp,
    (remove_all_keeps_Free sps (remove_service_port_mapping namespace name one s) sp.port
          (remove_service_port_mapping-IsReady namespace name one s r)).0
        (rw (← here) (step-Free_tcp sp s r (above, tcp))),
  )
  remove_all-IsReleased (one ∷ sps) s sp r (inl here) above (inr udp) = inr (
    udp,
    (remove_all_keeps_Free sps (remove_service_port_mapping namespace name one s) sp.port
          (remove_service_port_mapping-IsReady namespace name one s r)).1
        (rw (← here) (step-Free_udp sp s r (above, udp))),
  )

-- Deleting a service whose shadow service exists releases each of its TCP and UDP ports whose target
-- lies above the HTTP range: the table of the port's protocol has no mesh port for it afterwards.
pub delete_shadow-IsReleased :
    (shadow : Service) (namespace name : String) (s : Manager) (sp : ServicePort)
    → IsReady s
    → In sp shadow.ports
    → le32 sp.target_port.int_val s.max_http_port ≡ false
    → (sp.protocol ≡ protocol_tcp) ⊎ (sp.protocol ≡ protocol_udp)
    → IsReleased namespace name sp (delete_shadow (found shadow) namespace name s).1
unfolding delete_shadow
delete_shadow-IsReleased shadow namespace name s sp r listed above kind =
    remove_all-IsReleased namespace name shadow.ports s sp r listed above kind
