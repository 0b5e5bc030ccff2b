-- ===== src/Dns/Client/Restored.antt =====
-- ConfigureCoreDNS run again, and its restoration, on a cluster that keeps what is written.
use maesh.Common.{
  Bool, true, false, String, ◌≡◌, refl, sym, ap, ◌∙◌, arith, Option, none, some, inl, inr,
  Option-cases, ok, err, insert, lookup, lookup-insert_self, string_eq,
}
use maesh.Common.Text.Laws.{◌⧺◌}
use maesh.Kube.{found}
use maesh.Dns.{
  add_stub_domain, remove_stub_domain, stub_domain, stub_domain_body, joined_config,
  traefik_mesh_block_header, traefik_mesh_block_trailer,
}
use maesh.Dns.Text.{IsPlain, remove_stub_domain-add_stub_domain}
use maesh.Dns.Exec.{no_config_map}
use maesh.Dns.Client.{
  KubeApi, Libraries, Deployment, ConfigMap, VolumeSource, core_dns_tag, get_core_dns_version,
  get_config_map, get_config_map_volume_source, add_to, patch_found, patch_core_dns_config,
  restart_pods, store_patch, configure_core_dns, or_empty, namespace_system,
  unpatch_core_dns_config, unpatch_found,
}

-- The cluster keeps what is written: a read after a write gives the value written, and writing a deployment
-- leaves the config maps alone.
pub record IsKeeping (api : KubeApi) : Type 0 where
  pub config_written :
      (cm : ConfigMap) (s s' : api.State)
      → api.update_config_map cm s ≡ some s'
      → api.get_config_map cm.namespace cm.name s' ≡ found cm
  pub deployment_written :
      (d : Deployment) (s s' : api.State)
      → api.update_deployment d s ≡ some s'
      → api.get_deployment d.namespace d.name s' ≡ found d
  pub deployment_keeps :
      (d : Deployment) (namespace name : String) (s s' : api.State)
      → api.update_deployment d s ≡ some s'
      → api.get_config_map namespace name s' ≡ api.get_config_map namespace name s

module _ (api : KubeApi) (lib : Libraries api.State) where
  -- CoreDNS as a cluster runs it that has no config map coredns-custom: a version that go-version reads,
  -- and a volume with the config map coredns.
  pub record IsCoreDns (d : Deployment) (version : lib.Version) : Type 0 where
    pub tag : String
    pub source : VolumeSource
    pub name_eq : d.name ≡ "coredns"
    pub namespace_eq : d.namespace ≡ namespace_system
    pub tag_eq : core_dns_tag d.containers ≡ some tag
    pub version_eq : lib.new_version tag ≡ some version
    pub no_custom : get_config_map_volume_source d.volumes "coredns-custom" ≡ none
    pub volume_eq : get_config_map_volume_source d.volumes "coredns" ≡ some source
    pub source_eq : source.name ≡ "coredns"

  get_config_map-coredns :
      (d : Deployment) (v : lib.Version) (cm : ConfigMap) (s : api.State)
      → IsCoreDns d v
      → api.get_config_map namespace_system "coredns" s ≡ found cm
      → get_config_map api lib d "coredns" s ≡ (ok cm, s)
  unfolding get_config_map
  get_config_map-coredns d v cm s h e =
      rw (get_config_map, h.volume_eq, h.source_eq, h.namespace_eq, e) refl

  get_config_map-custom :
      (d : Deployment) (v : lib.Version) (s : api.State)
      → IsCoreDns d v
      → get_config_map api lib d "coredns-custom" s ≡ (err no_config_map, s)
  unfolding get_config_map
  get_config_map-custom d v s h = rw (get_config_map, h.no_custom) refl

  get_core_dns_version_lem :
      (d : Deployment) (v : lib.Version) (s : api.State)
      → IsCoreDns d v
      → get_core_dns_version api lib d s ≡ (ok v, s)
  unfolding get_core_dns_version
  get_core_dns_version_lem d v s h = rw (get_core_dns_version, h.tag_eq, h.version_eq) refl

  patch_core_dns_config_lem :
      (domain mesh : String) (d : Deployment) (v : lib.Version) (cm : ConfigMap) (s : api.State)
      → IsCoreDns d v
      → api.get_config_map namespace_system "coredns" s ≡ found cm
      → patch_core_dns_config api lib d domain mesh s ≡ add_to api lib "Corefile" domain mesh v cm s
  unfolding patch_core_dns_config patch_found
  patch_core_dns_config_lem domain mesh d v cm s h e =
      rw
        (
          patch_core_dns_config,
          get_core_dns_version_lem d v s h,
          get_config_map-custom d v s h,
          get_config_map-coredns d v cm s h e,
        )
        refl

  abbrev pub stored : ConfigMap → String → ConfigMap
  stored cm text = record cm { entries = insert "Corefile" text cm.entries }

  abbrev pub restarted : String → Deployment → Deployment
  restarted uuid d = record d {
    template_annotations = insert "traefik-mesh-hash" uuid d.template_annotations;
  }

  restarted-IsCoreDns :
      (uuid : String) (d : Deployment) (v : lib.Version)
      → IsCoreDns d v
      → IsCoreDns (restarted uuid d) v
  restarted-IsCoreDns uuid d v h = record {
    tag = h.tag;
    source = h.source;
    name_eq = h.name_eq;
    namespace_eq = h.namespace_eq;
    tag_eq = h.tag_eq;
    version_eq = h.version_eq;
    no_custom = h.no_custom;
    volume_eq = h.volume_eq;
    source_eq = h.source_eq;
  }

  abbrev corefile : ConfigMap → String
  corefile cm = or_empty (lookup "Corefile" cm.entries)

  corefile-stored : (cm : ConfigMap) (text : String) → corefile (stored cm text) ≡ text
  corefile-stored cm text = rw (lookup-insert_self "Corefile" text cm.entries) refl

  abbrev patch_of : String → String → lib.Version → String → Option (String × Bool)
  patch_of domain mesh v config =
      add_stub_domain config traefik_mesh_block_header traefik_mesh_block_trailer domain mesh
        (lib.is_below_1_7 v)

  configure_core_dns_lem :
      (uuid domain mesh : String) (d : Deployment) (v : lib.Version) (cm : ConfigMap)
      (s : api.State) (text : String) (changed : Bool)
      → api.get_deployment namespace_system "coredns" s ≡ found d
      → IsCoreDns d v
      → api.get_config_map namespace_system "coredns" s ≡ found cm
      → patch_of domain mesh v (corefile cm) ≡ some (text, changed)
      → configure_core_dns api lib uuid namespace_system domain mesh s
        ≡ store_patch api lib uuid d (stored cm text, changed) s
  unfolding configure_core_dns add_to
  configure_core_dns_lem uuid domain mesh d v cm s text changed e h f p =
      rw (configure_core_dns, e, patch_core_dns_config_lem domain mesh d v cm s h f, add_to, p) refl

  -- The two writes of a run that changes the map.
  store_patch-ok :
      (uuid : String) (d : Deployment) (cm : ConfigMap) (s s'' : api.State)
      → store_patch api lib uuid d (cm, true) s ≡ (ok tt, s'')
      → (s' : api.State) × (api.update_config_map cm s ≡ some s')
        × (api.update_deployment (restarted uuid d) s' ≡ some s'')
  unfolding store_patch restart_pods
  store_patch-ok uuid d cm s s'' e = elim (Option-cases (api.update_config_map cm s)) [
    | inl f ↦ absurd (ground arith)
    | inr (s', f) ↦ elim (Option-cases (api.update_deployment (restarted uuid d) s')) [
      | inl g ↦ absurd (ground arith)
      | inr (t, g) ↦ (s', f, ground arith)
    ]
  ]

  -- What a cluster looks like on which ConfigureCoreDNS is about to change the configuration `config`.
  pub record IsUnpatched (domain mesh : String) (d : Deployment) (v : lib.Version) (cm : ConfigMap)
      (s : api.State) : Type 0 where
    pub keeping : IsKeeping api
    pub deployed : api.get_deployment namespace_system "coredns" s ≡ found d
    pub core_dns : IsCoreDns d v
    pub configured : api.get_config_map namespace_system "coredns" s ≡ found cm
    pub name_eq : cm.name ≡ "coredns"
    pub namespace_eq : cm.namespace ≡ namespace_system
    pub plain :
        IsPlain "#" "### Begin Traefik Mesh Block" "#" "### End Traefik Mesh Block"
          (corefile cm)
          (stub_domain_body domain mesh (lib.is_below_1_7 v))

  -- After a run of ConfigureCoreDNS that succeeded on CoreDNS without the stub domain, a second run
  -- changes nothing, and unpatchCoreDNSConfig finds the config map whose Corefile it restores to the old
  -- one with a line break behind it.
  module _ (uuid uuid' domain mesh : String) (d : Deployment) (v : lib.Version) (cm : ConfigMap)
      (s s'' : api.State) (h : IsUnpatched domain mesh d v cm s)
      (e : configure_core_dns api lib uuid namespace_system domain mesh s ≡ (ok tt, s'')) where
    stub : String
    stub =
        stub_domain traefik_mesh_block_header traefik_mesh_block_trailer domain mesh
          (lib.is_below_1_7 v)

    patched : String
    patched = joined_config (corefile cm) stub

    text_laws :
        (patch_of domain mesh v (corefile cm) ≡ some (patched, true))
        × (remove_stub_domain patched traefik_mesh_block_header traefik_mesh_block_trailer
            ≡ corefile cm ⧺ "\n")
        × (patch_of domain mesh v patched ≡ some (joined_config (corefile cm ⧺ "\n") stub, false))
    unfolding patched stub
    text_laws =
        remove_stub_domain-add_stub_domain "#" "### Begin Traefik Mesh Block" "#"
          "### End Traefik Mesh Block" (corefile cm) domain mesh (lib.is_below_1_7 v) h.plain

    writes :
        (s' : api.State) × (api.update_config_map (stored cm patched) s ≡ some s')
        × (api.update_deployment (restarted uuid d) s' ≡ some s'')
    writes = store_patch-ok uuid d (stored cm patched) s s'' (
        sym (
          configure_core_dns_lem uuid domain mesh d v cm s patched true h.deployed h.core_dns
            h.configured text_laws.0)
        ∙ e)

    map_after : api.get_config_map namespace_system "coredns" s'' ≡ found (stored cm patched)
    map_after =
        let (s', f, g) = writes in
        let named =
          ap (λ (n : String). api.get_config_map n cm.name s') h.namespace_eq
          ∙ ap (λ (n : String). api.get_config_map namespace_system n s') h.name_eq in
        h.keeping.deployment_keeps (restarted uuid d) namespace_system "coredns" s' s'' g
        ∙ sym named
        ∙ h.keeping.config_written (stored cm patched) s s' f

    deployment_after : api.get_deployment namespace_system "coredns" s'' ≡ found (restarted uuid d)
    deployment_after =
        let (s', f, g) = writes in
        let named =
          ap (λ (n : String). api.get_deployment n d.name s'') h.core_dns.namespace_eq
          ∙ ap (λ (n : String). api.get_deployment namespace_system n s'') h.core_dns.name_eq in
        sym named ∙ h.keeping.deployment_written (restarted uuid d) s' s'' g

    again : configure_core_dns api lib uuid' namespace_system domain mesh s'' ≡ (ok tt, s'')
    unfolding store_patch
    again =
        configure_core_dns_lem uuid' domain mesh (restarted uuid d) v (stored cm patched) s''
          (joined_config (corefile cm ⧺ "\n") stub) false deployment_after
          (restarted-IsCoreDns uuid d v h.core_dns) map_after
          (ap (patch_of domain mesh v) (corefile-stored cm patched) ∙ text_laws.2)

    unpatched :
        unpatch_core_dns_config api lib (restarted uuid d) s''
        ≡ (ok (stored (stored cm patched) (corefile cm ⧺ "\n")), s'')
    unfolding unpatch_core_dns_config unpatch_found
    unpatched =
        let fit = restarted-IsCoreDns uuid d v h.core_dns in
        rw
          (
            unpatch_core_dns_config,
            get_config_map-custom (restarted uuid d) v s'' fit,
            get_config_map-coredns (restarted uuid d) v (stored cm patched) s'' fit map_after,
          )
          (ap (λ (t : String). (ok (stored (stored cm patched) t), s''))
            (ap
                (λ (c : String).
                  remove_stub_domain c traefik_mesh_block_header traefik_mesh_block_trailer)
                (corefile-stored cm patched)
              ∙ text_laws.1))

  -- Where ConfigureCoreDNS succeeds on a cluster that keeps what is written and runs CoreDNS, with no config
  -- map coredns-custom and a Corefile without the mesh's block, a second run succeeds and writes nothing,
  -- and unpatchCoreDNSConfig, on the deployment as it then is, gives the map with the old Corefile and a
  -- line break behind it.
  pub configure_core_dns-unpatch_core_dns_config :
      (uuid uuid' domain mesh : String) (d : Deployment) (v : lib.Version) (cm : ConfigMap)
      (s s' : api.State)
      → IsUnpatched domain mesh d v cm s
      → configure_core_dns api lib uuid namespace_system domain mesh s ≡ (ok tt, s')
      → (configure_core_dns api lib uuid' namespace_system domain mesh s' ≡ (ok tt, s'))
        × ((d' : Deployment) × (cm' : ConfigMap) × (api.get_deployment namespace_system "coredns" s'
              ≡ found d')
            × (unpatch_core_dns_config api lib d' s' ≡ (ok cm', s'))
            × (lookup "Corefile" cm'.entries
                ≡ some (or_empty (lookup "Corefile" cm.entries) ⧺ "\n")))
  configure_core_dns-unpatch_core_dns_config uuid uuid' domain mesh d v cm s s' h e = (
    again uuid uuid' domain mesh d v cm s s' h e,
    (
      restarted uuid d,
      stored (stored cm (patched uuid uuid' domain mesh d v cm s s' h e)) (corefile cm ⧺ "\n"),
      deployment_after uuid uuid' domain mesh d v cm s s' h e,
      unpatched uuid uuid' domain mesh d v cm s s' h e,
      lookup-insert_self "Corefile" (corefile cm ⧺ "\n") _,
    ),
  )
