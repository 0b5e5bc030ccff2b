-- ===== src/Dns/Client/Reads.antt =====
-- The calls of ConfigureCoreDNS that only read the cluster.
use maesh.Common.{
  String, ◌≡◌, refl, ◌∙◌, inl, inr, Option-cases, Result, ok, err, insert, lookup, string_eq,
}
use maesh.Kube.{Lookup, found, missing, failed}
use maesh.Dns.{add_stub_domain, traefik_mesh_block_header, traefik_mesh_block_trailer}
use maesh.Dns.Exec.{
  DnsError, api_failed, no_container, bad_version, panic, Exec, pure, raise, continue, ◌>>=◌,
}
use maesh.Dns.Client.{
  KubeApi, Libraries, Deployment, ConfigMap, got, core_dns_tag, get_core_dns_version,
  get_config_map, get_config_map_volume_source, add_to, patch_found, patch_core_dns_config,
  or_empty,
}

-- A call that leaves the cluster as it is.
pub record Reads {S A : Type 0} (m : Exec S A) : Type 0 where
  pub same : (s : S) → (m s).1 ≡ s

pub Reads-pure : {S A : Type 0} (a : A) → Reads {S = S} (pure a)
Reads-pure a = record { same = λ s. refl }

pub Reads-raise : {S A : Type 0} (e : DnsError) → Reads {S = S} {A = A} (raise e)
Reads-raise e = record { same = λ s. refl }

Reads-continue :
    {S A B : Type 0} (r : Result DnsError A × S) (f : A → Exec S B)
    → ((a : A) → Reads (f a))
    → (continue r f).1 ≡ r.1
Reads-continue (ok a, s) f h = (h a).same s
Reads-continue (err e, s) f h = refl

pub Reads-bind :
    {S A B : Type 0} (m : Exec S A) (f : A → Exec S B)
    → Reads m
    → ((a : A) → Reads (f a))
    → Reads (m >>= f)
Reads-bind m f h k = record { same = λ s. Reads-continue (m s) f k ∙ h.same s }

module _ (api : KubeApi) (lib : Libraries api.State) where
  pub get_core_dns_version-Reads : (d : Deployment) → Reads (get_core_dns_version api lib d)
  unfolding get_core_dns_version
  get_core_dns_version-Reads d = elim (Option-cases (core_dns_tag d.containers)) [
    | inl e ↦ rw (get_core_dns_version, e) (Reads-raise no_container)
    | inr (tag, e) ↦ elim (Option-cases (lib.new_version tag)) [
      | inl f ↦ rw (get_core_dns_version, e, f) (Reads-raise bad_version)
      | inr (v, f) ↦ rw (get_core_dns_version, e, f) (Reads-pure v)
    ]
  ]

  got-Reads : {A : Type 0} (l : Lookup A) → Reads (got api lib l)
  got-Reads (found a) = Reads-pure a
  got-Reads missing = Reads-raise api_failed
  got-Reads failed = Reads-raise api_failed

  pub get_config_map-Reads :
      (d : Deployment) (name : String) → Reads (get_config_map api lib d name)
  unfolding get_config_map
  get_config_map-Reads d name = record {
    same = λ s. elim (Option-cases (get_config_map_volume_source d.volumes name)) [
      | inl e ↦ rw (get_config_map, e) refl
      | inr (source, e) ↦
          rw (get_config_map, e) ((got-Reads (api.get_config_map d.namespace source.name s)).same s)
    ];
  }

  add_to-Reads :
      (key domain mesh : String) (v : lib.Version) (cm : ConfigMap)
      → Reads (add_to api lib key domain mesh v cm)
  unfolding add_to
  add_to-Reads key domain mesh v cm =
      let text = or_empty (lookup key cm.entries) in
      elim (Option-cases (
        add_stub_domain text traefik_mesh_block_header traefik_mesh_block_trailer domain mesh
          (lib.is_below_1_7 v))) [
            | inl e ↦ rw (add_to, e) (Reads-raise panic)
            | inr ((patched, changed), e) ↦
                rw (add_to, e)
                  (Reads-pure (record cm { entries = insert key patched cm.entries }, changed))
          ]

  patch_found-Reads :
      (d : Deployment) (domain mesh : String) (v : lib.Version)
      (r : Result DnsError ConfigMap × api.State)
      → (patch_found api lib d domain mesh v r).1 ≡ r.1
  unfolding patch_found
  patch_found-Reads d domain mesh v (ok cm, s) =
      (add_to-Reads "traefik.mesh.server" domain mesh v cm).same s
  patch_found-Reads d domain mesh v (err e, s) =
      (Reads-bind (get_config_map api lib d "coredns") (add_to api lib "Corefile" domain mesh v)
          (get_config_map-Reads d "coredns") (add_to-Reads "Corefile" domain mesh v)).same
        s

  pub patch_core_dns_config-Reads :
      (d : Deployment) (domain mesh : String) → Reads (patch_core_dns_config api lib d domain mesh)
  unfolding patch_core_dns_config
  patch_core_dns_config-Reads d domain mesh =
      Reads-bind (get_core_dns_version api lib d) _ (get_core_dns_version-Reads d) (λ v. record {
        same = λ s.
            patch_found-Reads d domain mesh v _ ∙ (get_config_map-Reads d "coredns-custom").same s;
      })
