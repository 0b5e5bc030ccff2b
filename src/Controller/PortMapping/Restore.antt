-- ===== src/Controller/PortMapping/Restore.antt =====
-- What LoadState reads back from the shadow services.
use maesh.Common.{
  ℕ, true, String, List, [], ◌∷◌, ◌≡◌, ◌≢◌, ◌⊎◌, inl, inr, refl, sym, ◌∙◌, some, none, arith,
  Option-cases, Bool-cases, In, lookup, insert, nat_eq, nat_beq_iff, lookup-insert,
  lookup-insert_self, Unique, insert-Unique, nat_beq, ap, subst,
}
use maesh.Kube.{Service, ServicePort}
use maesh.Controller.PortMapping.{PortMapping, MappedPort, Table, new}
use maesh.Controller.PortMapping.Load.{
  parse_service_namespace_and_name, entry, in_range, load_ports, load_service, load_services,
  load_state,
}

module _ (p : PortMapping) where
  module _ (namespace name : String) where
    -- A port of the list whose target is `q` and lies in the range, and what it stands for.
    abbrev pub ListedPort : List ServicePort → ℕ → MappedPort → Type 0
    ListedPort sps q v =
        (sp : ServicePort) × In sp sps
        × (in_range p sp ≡ true)
        × (q ≡ sp.target_port.int_val)
        × (v ≡ entry namespace name sp)

    insert-cases :
        (sp : ServicePort) (t : Table) (q : ℕ) (v : MappedPort) (sps : List ServicePort)
        → in_range p sp ≡ true
        → lookup q (insert sp.target_port.int_val (entry namespace name sp) t) ≡ some v
        → (lookup q t ≡ some v) ⊎ ListedPort (sp ∷ sps) q v
    insert-cases sp t q v sps fits h =
        let law = lookup-insert sp.target_port.int_val q (entry namespace name sp) t in
        elim (Bool-cases (nat_beq sp.target_port.int_val q)) [
          | inl same ↦ inr (
            sp,
            inl refl,
            fits,
            sym ((nat_beq_iff sp.target_port.int_val q).0 same),
            ground (arith, law),
          )
          | inr differ ↦ inl (ground (arith, law))
        ]

    load_ports-ListedPort :
        (sps : List ServicePort) (t : Table) (q : ℕ) (v : MappedPort)
        → lookup q (load_ports p namespace name sps t) ≡ some v
        → (lookup q t ≡ some v) ⊎ ListedPort sps q v
    unfolding load_ports
    load_ports-ListedPort [] t q v h = inl h
    load_ports-ListedPort (sp ∷ sps) t q v h = elim (load_ports-ListedPort sps _ q v h) [
      | inr (one, listed, fits, at, what) ↦ inr (one, inr listed, fits, at, what)
      | inl at_once ↦ elim (Bool-cases (in_range p sp)) [
        | inr out ↦ inl (rw out at at_once)
        | inl fits ↦ insert-cases sp t q v sps fits (rw fits at at_once)
      ]
    ]

    load_ports_keeps :
        (sps : List ServicePort) (t : Table) (q : ℕ)
        → lookup q t ≢ none
        → lookup q (load_ports p namespace name sps t) ≢ none
    unfolding load_ports
    load_ports_keeps [] t q h = h
    load_ports_keeps (sp ∷ sps) t q h = load_ports_keeps sps _ q (
        ground (
          arith,
          h,
          lookup-insert sp.target_port.int_val q (entry namespace name sp) t,
          nat_beq_iff sp.target_port.int_val q,
        ))

    load_ports_lists :
        (sps : List ServicePort) (t : Table) (sp : ServicePort)
        → In sp sps
        → in_range p sp ≡ true
        → lookup sp.target_port.int_val (load_ports p namespace name sps t) ≢ none
    unfolding load_ports
    load_ports_lists [] t sp listed fits = absurd listed
    load_ports_lists (one ∷ sps) t sp (inr later) fits = load_ports_lists sps _ sp later fits
    load_ports_lists (one ∷ sps) t sp (inl here) fits =
        rw (← here, fits)
          (load_ports_keeps sps _ sp.target_port.int_val
            (λ e. cc (e, lookup-insert_self sp.target_port.int_val (entry namespace name sp) t)))

    load_ports-Unique :
        (sps : List ServicePort) (t : Table) → Unique t → Unique (load_ports p namespace name sps t)
    unfolding load_ports
    load_ports-Unique [] t u = u
    load_ports-Unique (sp ∷ sps) t u =
        load_ports-Unique sps _
          (ground (arith, insert-Unique sp.target_port.int_val (entry namespace name sp) t u))

  -- A shadow service whose name parses lists the service port for the mesh port `q`.
  abbrev pub Lists : Service → ℕ → MappedPort → Type 0
  Lists svc q v =
      (parse_service_namespace_and_name p.namespace svc.name ≡ some (v.namespace, v.name))
      × ListedPort v.namespace v.name svc.ports q v

  abbrev pub Listed : List Service → ℕ → MappedPort → Type 0
  Listed svcs q v = (svc : Service) × In svc svcs × Lists svc q v

  load_service-Lists :
      (svc : Service) (t : Table) (q : ℕ) (v : MappedPort)
      → lookup q (load_service p svc t) ≡ some v
      → (lookup q t ≡ some v) ⊎ Lists svc q v
  unfolding load_service
  load_service-Lists svc t q v h =
      elim (Option-cases (parse_service_namespace_and_name p.namespace svc.name)) [
        | inl skipped ↦ inl (rw (skipped, load_service) at h)
        | inr ((namespace, name), parsed) ↦
            elim (load_ports-ListedPort namespace name svc.ports t q v
              (rw (parsed, load_service) at h)) [
                | inl old ↦ inl old
                | inr (sp, listed, fits, at, what) ↦ inr (
                  rw (what, parsed) refl,
                  (
                    sp,
                    listed,
                    fits,
                    at,
                    what ∙ ap (λ (w : MappedPort). entry w.namespace w.name sp) (sym what),
                  ),
                )
              ]
      ]

  load_service_keeps :
      (svc : Service) (t : Table) (q : ℕ)
      → lookup q t ≢ none
      → lookup q (load_service p svc t) ≢ none
  unfolding load_service
  load_service_keeps svc t q h =
      elim (Option-cases (parse_service_namespace_and_name p.namespace svc.name)) [
        | inl skipped ↦ rw (skipped, load_service) h
        | inr ((namespace, name), parsed) ↦
            rw (parsed, load_service) (load_ports_keeps namespace name svc.ports t q h)
      ]

  load_service-Unique : (svc : Service) (t : Table) → Unique t → Unique (load_service p svc t)
  unfolding load_service
  load_service-Unique svc t u =
      elim (Option-cases (parse_service_namespace_and_name p.namespace svc.name)) [
        | inl skipped ↦ rw (skipped, load_service) u
        | inr ((namespace, name), parsed) ↦
            rw (parsed, load_service) (load_ports-Unique namespace name svc.ports t u)
      ]

  load_services_keeps :
      (svcs : List Service) (t : Table) (q : ℕ)
      → lookup q t ≢ none
      → lookup q (load_services p svcs t) ≢ none
  unfolding load_services
  load_services_keeps [] t q h = h
  load_services_keeps (svc ∷ svcs) t q h =
      load_services_keeps svcs (load_service p svc t) q (load_service_keeps svc t q h)

  load_services-Listed :
      (svcs : List Service) (t : Table) (q : ℕ) (v : MappedPort)
      → lookup q (load_services p svcs t) ≡ some v
      → (lookup q t ≡ some v) ⊎ Listed svcs q v
  unfolding load_services
  load_services-Listed [] t q v h = inl h
  load_services-Listed (svc ∷ svcs) t q v h =
      elim (load_services-Listed svcs (load_service p svc t) q v h) [
        | inr (one, listed, there) ↦ inr (one, inr listed, there)
        | inl before ↦ elim (load_service-Lists svc t q v before) [
          | inl old ↦ inl old
          | inr here ↦ inr (svc, inl refl, here)
        ]
      ]

  load_services_lists :
      (svcs : List Service) (t : Table) (q : ℕ) (v : MappedPort)
      → Listed svcs q v
      → lookup q (load_services p svcs t) ≢ none
  unfolding load_services load_service
  load_services_lists [] t q v (svc, listed, _) = absurd listed
  load_services_lists (one ∷ svcs) t q v (svc, inr later, there) =
      load_services_lists svcs (load_service p one t) q v (svc, later, there)
  load_services_lists (one ∷ svcs) t q v (svc, inl here, (parsed, (sp, listed, fits, at, what))) =
      load_services_keeps svcs (load_service p one t) q (
        subst (λ w. lookup q (load_service p w t) ≢ none) here
          (rw (parsed, load_service, at)
            (load_ports_lists v.namespace v.name svc.ports t sp listed fits)))

  load_services-Unique :
      (svcs : List Service) (t : Table) → Unique t → Unique (load_services p svcs t)
  unfolding load_services
  load_services-Unique [] t u = u
  load_services-Unique (svc ∷ svcs) t u =
      load_services-Unique svcs (load_service p svc t) (load_service-Unique svc t u)

-- LoadState on a new mapping: the table maps a port only to a service port that some listed shadow
-- service has for it, with a name that parses and a target in the range; and every mesh port that a
-- shadow service lists so is taken afterwards, so that `Add` does not hand it out again.
pub load_state-Listed :
    (namespace : String) (min_port max_port : ℕ) (svcs : List Service) {p : PortMapping}
    → load_state (new namespace min_port max_port) (some svcs) ≡ some p
    → Unique p.table
      × ((q : ℕ) (v : MappedPort)
          → lookup q p.table ≡ some v
          → Listed (new namespace min_port max_port) svcs q v)
      × ((q : ℕ) (v : MappedPort)
          → Listed (new namespace min_port max_port) svcs q v
          → lookup q p.table ≢ none)
unfolding load_state new lookup
load_state-Listed namespace min_port max_port svcs {p} e = (
  rw same (load_services-Unique start svcs [] tt),
  λ q v h. elim (load_services-Listed start svcs [] q v (rw same at h)) [
    | inl impossible ↦ cc
    | inr listed ↦ listed
  ],
  λ q v listed. rw same (load_services_lists start svcs [] q v listed),
)
  where
    start : PortMapping
    start = new namespace min_port max_port

    same : p.table ≡ load_services start svcs []
    same = ground arith
