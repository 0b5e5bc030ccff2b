-- ===== src/Dns/Client.antt =====
-- pkg/dns/dns.go: the calls that detect, patch and restore the cluster's DNS. The Kubernetes API, the
-- versions, the JSON form of stub domains and the retries are parameters.
pub mod Detected
mod Reads
mod Patched
pub mod Configured
pub mod Restored
use maesh.Common.{
  ℕ, Bool, true, false, not, String, List, [], ◌∷◌, Option, none, some, ◌==◌, string_eq,
  if◌then◌else◌, lookup, insert, erase, Result, ok, err,
}
use maesh.Common.Text.{cut_last}
use maesh.Kube.{Lookup, found, missing, failed}
use maesh.Dns.{
  Provider, unknown_dns, core_dns, kube_dns, traefik_mesh_block_header, traefik_mesh_block_trailer,
  add_stub_domain, remove_stub_domain,
}
use maesh.Dns.Exec.{
  DnsError, api_failed, no_container, bad_version, unsupported_version, no_provider, no_config_map,
  bad_stub_domains, no_cluster_ip, panic, Exec, pure, raise, ◌>>=◌, ◌>>◌,
}

-- corev1.ConfigMapVolumeSource
pub record VolumeSource : Type 0 where
  pub name : String
  pub optional : Option Bool

-- corev1.Container
pub record Container : Type 0 where
  pub name : String
  pub image : String

-- appsv1.Deployment, with the containers, the volumes and the annotations of its pods; `none` is a
-- volume without a config map.
pub record Deployment : Type 0 where
  pub name : String
  pub namespace : String
  pub containers : List Container
  pub volumes : List (Option VolumeSource)
  pub template_annotations : List (String × String)

-- corev1.ConfigMap; no data is the empty map.
pub record ConfigMap : Type 0 where
  pub name : String
  pub namespace : String
  pub entries : List (String × String)

-- The calls of the Kubernetes API, on a state of the cluster. A write that fails gives `none`.
pub record KubeApi : Type 1 where
  pub State : Type 0
  pub get_deployment : String → String → State → Lookup Deployment
  pub update_deployment : Deployment → State → Option State
  pub get_config_map : String → String → State → Lookup ConfigMap
  pub create_config_map : ConfigMap → State → Option (ConfigMap × State)
  pub update_config_map : ConfigMap → State → Option State
  pub cluster_ip : String → String → State → Lookup String

-- The other libraries: go-version, encoding/json, and backoff, whose `retry` takes the number of
-- retries.
pub record Libraries (State : Type 0) : Type 1 where
  pub Version : Type 0
  pub new_version : String → Option Version
  pub is_supported : Version → Bool
  pub is_below_1_7 : Version → Bool
  pub unmarshal : String → Option (List (String × List String))
  pub marshal : List (String × List String) → String
  pub retry : ℕ → Exec State String → Exec State String

abbrev pub namespace_system : String
namespace_system = "kube-system"

-- The text behind the last colon.
abbrev pub image_tag : String → String
image_tag image = elim (cut_last ":" image) [ none ↦ image | some (_, tag) ↦ tag ]

-- The loop of getCoreDNSVersion: the tag of the first container of that name.
unfoldable pub core_dns_tag : List Container → Option String
core_dns_tag [] = none
core_dns_tag (c ∷ cs) =
    if not (c.name == "coredns") then core_dns_tag cs else some (image_tag c.image)

-- getConfigMapVolumeSource
unfoldable pub get_config_map_volume_source :
    List (Option VolumeSource) → String → Option VolumeSource
get_config_map_volume_source [] name = none
get_config_map_volume_source (none ∷ volumes) name = get_config_map_volume_source volumes name
get_config_map_volume_source (some source ∷ volumes) name =
    if not (source.name == name) then get_config_map_volume_source volumes name else some source

abbrev pub or_empty : Option String → String
or_empty none = ""
or_empty (some s) = s

module _ (api : KubeApi) (lib : Libraries api.State) where
  abbrev pub Call : Type 0 → Type 0
  Call A = Exec api.State A

  -- A `Get` whose every error is passed on.
  abbrev pub got : {A : Type 0} → Lookup A → Call A
  got (found a) = pure a
  got missing = raise api_failed
  got failed = raise api_failed

  abbrev pub get_deployment : String → String → Call Deployment
  get_deployment namespace name s = got (api.get_deployment namespace name s) s

  abbrev pub written : Option api.State → Call Unit
  written none s = (err api_failed, s)
  written (some s') s = (ok tt, s')

  abbrev pub update_config_map : ConfigMap → Call Unit
  update_config_map cm s = written (api.update_config_map cm s) s

  -- getCoreDNSVersion
  unfoldable pub get_core_dns_version : Deployment → Call lib.Version
  get_core_dns_version d = elim (core_dns_tag d.containers) [
    | none ↦ raise no_container
    | some tag ↦ elim (lib.new_version tag) [ none ↦ raise bad_version | some v ↦ pure v ]
  ]

  -- coreDNSMatch behind its `Get`.
  unfoldable pub core_dns_matched : Lookup Deployment → Call Bool
  unfolding get_core_dns_version
  core_dns_matched missing = pure false
  core_dns_matched failed = raise api_failed
  core_dns_matched (found d) = do
    version ← get_core_dns_version d
    if not (lib.is_supported version) then raise unsupported_version else pure true

  -- coreDNSMatch
  unfoldable pub core_dns_match : Call Bool
  unfolding core_dns_matched
  core_dns_match s = core_dns_matched (api.get_deployment namespace_system "coredns" s) s

  -- kubeDNSMatch behind its `Get`.
  unfoldable pub kube_dns_matched : Lookup Deployment → Call Bool
  kube_dns_matched missing = pure false
  kube_dns_matched failed = raise api_failed
  kube_dns_matched (found d) = pure true

  -- kubeDNSMatch
  unfoldable pub kube_dns_match : Call Bool
  unfolding kube_dns_matched
  kube_dns_match s = kube_dns_matched (api.get_deployment namespace_system "kube-dns" s) s

  -- CheckDNSProvider
  unfoldable pub check_dns_provider : Call Provider
  unfolding core_dns_match kube_dns_match
  check_dns_provider = do
    core ← core_dns_match
    if core
        then pure core_dns
        else do kube ← kube_dns_match; if kube then pure kube_dns else raise no_provider

  -- getConfigMap
  unfoldable pub get_config_map : Deployment → String → Call ConfigMap
  unfolding get_config_map_volume_source
  get_config_map d name s = elim (get_config_map_volume_source d.volumes name) [
    | none ↦ (err no_config_map, s)
    | some source ↦ got (api.get_config_map d.namespace source.name s) s
  ]

  abbrev pub is_optional : Option Bool → Bool
  is_optional none = false
  is_optional (some optional) = optional

  abbrev pub created : Option (ConfigMap × api.State) → Call ConfigMap
  created none s = (err api_failed, s)
  created (some (cm, s')) s = (ok cm, s')

  -- getOrCreateConfigMap behind its `Get`.
  unfoldable pub or_create : Deployment → String → Bool → Lookup ConfigMap → Call ConfigMap
  or_create d name optional (found cm) s = (ok cm, s)
  or_create d name optional failed s = (err api_failed, s)
  or_create d name optional missing s =
      let cm : ConfigMap = record { name = name; namespace = d.namespace; entries = [] } in
      if optional then created (api.create_config_map cm s) s else (err api_failed, s)

  -- getOrCreateConfigMap
  unfoldable pub get_or_create_config_map : Deployment → String → Call ConfigMap
  unfolding get_config_map_volume_source or_create
  get_or_create_config_map d name s = elim (get_config_map_volume_source d.volumes name) [
    | none ↦ (err no_config_map, s)
    | some source ↦
        or_create d name (is_optional source.optional)
          (api.get_config_map d.namespace source.name s) s
  ]

  -- The stub domain put under a key of a config map.
  unfoldable pub add_to :
      String → String → String → lib.Version → ConfigMap → Call (ConfigMap × Bool)
  add_to key cluster_domain mesh version cm =
      elim (add_stub_domain (or_empty (lookup key cm.entries)) traefik_mesh_block_header
        traefik_mesh_block_trailer cluster_domain mesh (lib.is_below_1_7 version)) [
          | none ↦ raise panic
          | some (text, changed) ↦
              pure (record cm { entries = insert key text cm.entries }, changed)
        ]

  -- patchCoreDNSConfig behind the attempt to get the config map coredns-custom.
  unfoldable pub patch_found :
      Deployment
      → String
      → String
      → lib.Version
      → Result DnsError ConfigMap × api.State
      → Result DnsError (ConfigMap × Bool) × api.State
  unfolding add_to get_config_map
  patch_found d cluster_domain mesh version (ok cm, s) =
      add_to "traefik.mesh.server" cluster_domain mesh version cm s
  patch_found d cluster_domain mesh version (err _, s) =
      (do cm ← get_config_map d "coredns"; add_to "Corefile" cluster_domain mesh version cm) s

  -- patchCoreDNSConfig
  unfoldable pub patch_core_dns_config : Deployment → String → String → Call (ConfigMap × Bool)
  unfolding get_core_dns_version patch_found get_config_map
  patch_core_dns_config d cluster_domain mesh = do
    version ← get_core_dns_version d
    λ s. patch_found d cluster_domain mesh version (get_config_map d "coredns-custom" s)

  -- restartPods, with the text of a fresh UUID.
  unfoldable pub restart_pods : String → Deployment → Call Unit
  restart_pods uuid d s =
      written
        (api.update_deployment
          (record d {
            template_annotations = insert "traefik-mesh-hash" uuid d.template_annotations;
          })
          s)
        s

  -- ConfigureCoreDNS behind patchCoreDNSConfig.
  unfoldable pub store_patch : String → Deployment → ConfigMap × Bool → Call Unit
  unfolding restart_pods
  store_patch uuid d (cm, changed) =
      if not changed then pure tt else (update_config_map cm >> restart_pods uuid d)

  -- ConfigureCoreDNS
  unfoldable pub configure_core_dns : String → String → String → String → Call Unit
  unfolding patch_core_dns_config store_patch
  configure_core_dns uuid namespace cluster_domain mesh = do
    d ← get_deployment namespace "coredns"
    patch ← patch_core_dns_config d cluster_domain mesh
    store_patch uuid d patch

  -- The retried operation of ConfigureKubeDNS.
  unfoldable pub core_dns_service_ip : String → Call String
  core_dns_service_ip mesh s = elim (api.cluster_ip mesh "coredns" s) [
    | missing ↦ (err api_failed, s)
    | failed ↦ (err api_failed, s)
    | found ip ↦ if ip == "" then (err no_cluster_ip, s) else (ok ip, s)
  ]

  -- The stub domains of a config map; an empty text is an empty map.
  unfoldable pub stub_domains : String → Call (List (String × List String))
  stub_domains text =
      if text == ""
      then pure []
      else elim (lib.unmarshal text) [ none ↦ raise bad_stub_domains | some m ↦ pure m ]

  -- patchKubeDNSConfig
  unfoldable pub patch_kube_dns_config : Deployment → String → Call Unit
  unfolding get_or_create_config_map stub_domains
  patch_kube_dns_config d ip = do
    cm ← get_or_create_config_map d "kube-dns"
    domains ← stub_domains (or_empty (lookup "stubDomains" cm.entries))
    update_config_map (record cm {
      entries =
          insert "stubDomains" (lib.marshal (insert "traefik.mesh" (ip ∷ []) domains)) cm.entries;
    })

  -- ConfigureKubeDNS; the two texts are the UUIDs of the two restarts.
  unfoldable pub configure_kube_dns : String → String → String → String → Call Unit
  unfolding core_dns_service_ip patch_kube_dns_config configure_core_dns restart_pods
  configure_kube_dns uuid uuid' cluster_domain mesh = do
    d ← get_deployment namespace_system "kube-dns"
    ip ← lib.retry 12 (core_dns_service_ip mesh)
    patch_kube_dns_config d ip
    configure_core_dns uuid mesh cluster_domain mesh
    restart_pods uuid' d

  -- unpatchCoreDNSConfig behind the attempt to get the config map coredns-custom.
  unfoldable pub unpatch_found :
      Deployment → Result DnsError ConfigMap × api.State → Result DnsError ConfigMap × api.State
  unfolding get_config_map
  unpatch_found d (ok cm, s) =
      (ok (record cm { entries = erase "traefik.mesh.server" cm.entries }), s)
  unpatch_found d (err _, s) =
      (do
        cm ← get_config_map d "coredns"
        pure (record cm {
          entries =
              insert "Corefile"
                (remove_stub_domain (or_empty (lookup "Corefile" cm.entries))
                  traefik_mesh_block_header traefik_mesh_block_trailer)
                cm.entries;
        }))
        s

  -- unpatchCoreDNSConfig
  unfoldable pub unpatch_core_dns_config : Deployment → Call ConfigMap
  unfolding unpatch_found
  unpatch_core_dns_config d s = unpatch_found d (get_config_map d "coredns-custom" s)

  -- RestoreCoreDNS
  unfoldable pub restore_core_dns : String → Call Unit
  unfolding unpatch_core_dns_config restart_pods
  restore_core_dns uuid = do
    d ← get_deployment namespace_system "coredns"
    cm ← unpatch_core_dns_config d
    update_config_map cm
    restart_pods uuid d

  -- RestoreKubeDNS behind its look at the stub domains.
  unfoldable pub restore_stub_domains : String → Deployment → ConfigMap → Call Unit
  unfolding restart_pods
  restore_stub_domains uuid d cm =
      let text = or_empty (lookup "stubDomains" cm.entries) in
      if text == "" then pure tt else elim (lib.unmarshal text) [
        | none ↦ raise bad_stub_domains
        | some domains ↦
            update_config_map (record cm {
              entries =
                  insert "stubDomains" (lib.marshal (erase "traefik.mesh" domains)) cm.entries;
            })
            >> restart_pods uuid d
      ]

  -- RestoreKubeDNS
  unfoldable pub restore_kube_dns : String → Call Unit
  unfolding restore_stub_domains
  restore_kube_dns uuid = do
    d ← get_deployment namespace_system "kube-dns"
    cm ← get_config_map d "kube-dns"
    restore_stub_domains uuid d cm
