-- ===== src/Dns/Client/Patched.antt =====
-- What patchCoreDNSConfig makes of the config map that it reads.
use maesh.Common.{
  Bool, true, false, not, String, ◌≡◌, ◌⊎◌, refl, sym, ap, subst, ◌∙◌, Option, none, some, inl, inr,
  Option-cases, Bool-cases, Result, ok, err, insert, lookup, string_eq, eq_iff, ◌==◌, if◌then◌else◌,
}
use maesh.Dns.{
  Sliced, panicked, sliced, get_stub_domain, remove_stub_domain, stub_domain, joined_config,
  add_stub_domain, replace_stub_domain, traefik_mesh_block_header, traefik_mesh_block_trailer,
}
use maesh.Dns.Exec.{DnsError, panic, continue}
use maesh.Dns.Client.{
  KubeApi, Libraries, Deployment, ConfigMap, get_core_dns_version, get_config_map, add_to,
  patch_found, patch_core_dns_config, or_empty,
}
use maesh.Dns.Client.Reads.{get_core_dns_version-Reads, get_config_map-Reads}

-- What a stub domain does to a text: it holds this stub domain already, or it is put behind the text,
-- or behind the text without the stub domain that was there; or the text has its block in the wrong
-- order.
abbrev pub Stubbed : String → String → Option (String × Bool) → Type 0
Stubbed text stub none =
    get_stub_domain text traefik_mesh_block_header traefik_mesh_block_trailer ≡ panicked
Stubbed text stub (some (text', false)) =
    get_stub_domain text traefik_mesh_block_header traefik_mesh_block_trailer ≡ sliced stub
Stubbed text stub (some (text', true)) =
    (before : String) × (text' ≡ joined_config before stub)
    × ((before ≡ text)
        ⊎ (before ≡ remove_stub_domain text traefik_mesh_block_header traefik_mesh_block_trailer))

base-cases : (b : Bool) (x y : String) → ((if b then x else y) ≡ y) ⊎ ((if b then x else y) ≡ x)
base-cases true x y = inr refl
base-cases false x y = inl refl

replace_stub_domain-Stubbed :
    (text stub : String) (s : Sliced)
    → get_stub_domain text traefik_mesh_block_header traefik_mesh_block_trailer ≡ s
    → Stubbed text stub
        (replace_stub_domain text traefik_mesh_block_header traefik_mesh_block_trailer stub s)
unfolding replace_stub_domain
replace_stub_domain-Stubbed text stub panicked e = e
replace_stub_domain-Stubbed text stub (sliced existing) e = elim (Bool-cases (existing == stub)) [
  | inl b ↦ rw b (e ∙ ap sliced ((eq_iff existing stub).0 b))
  | inr b ↦ rw b (_, refl, base-cases (not (existing == "")) _ text)
]

add_stub_domain-Stubbed :
    (text domain mesh : String) (old : Bool)
    → Stubbed text
        (stub_domain traefik_mesh_block_header traefik_mesh_block_trailer domain mesh old)
        (add_stub_domain text traefik_mesh_block_header traefik_mesh_block_trailer domain mesh old)
unfolding add_stub_domain
add_stub_domain-Stubbed text domain mesh old = replace_stub_domain-Stubbed text _ _ refl

module _ (api : KubeApi) (lib : Libraries api.State) (d : Deployment) (domain mesh : String) where
  abbrev pub stub_for : lib.Version → String
  stub_for v =
      stub_domain traefik_mesh_block_header traefik_mesh_block_trailer domain mesh
        (lib.is_below_1_7 v)

  -- The result of a patch of the text under a key of a config map.
  abbrev pub Written :
      String → lib.Version → ConfigMap → Result DnsError (ConfigMap × Bool) → Type 0
  Written key v cm (err e) =
      (e ≡ panic) × Stubbed (or_empty (lookup key cm.entries)) (stub_for v) none
  Written key v cm (ok (cm', changed)) =
      (text : String) × (cm' ≡ record cm { entries = insert key text cm.entries })
      × Stubbed (or_empty (lookup key cm.entries)) (stub_for v) (some (text, changed))

  -- The config map that is patched, and the key: coredns-custom, or else the one with the Corefile.
  abbrev pub Chosen : api.State → String → ConfigMap → Type 0
  Chosen s key cm =
      ((key ≡ "traefik.mesh.server") × ((get_config_map api lib d "coredns-custom" s).0 ≡ ok cm))
      ⊎ ((key ≡ "Corefile")
          × ((e : DnsError) × ((get_config_map api lib d "coredns-custom" s).0 ≡ err e))
          × ((get_config_map api lib d "coredns" s).0 ≡ ok cm))

  -- No patch is tried: the version or both config maps cannot be read.
  abbrev pub Unread : api.State → Result DnsError (ConfigMap × Bool) → Type 0
  Unread s r =
      ((e : DnsError) × (r ≡ err e) × ((get_core_dns_version api lib d s).0 ≡ err e))
      ⊎ ((e e' : DnsError) × (r ≡ err e)
          × ((get_config_map api lib d "coredns-custom" s).0 ≡ err e')
          × ((get_config_map api lib d "coredns" s).0 ≡ err e))

  -- What patchCoreDNSConfig gives.
  abbrev pub Patched : api.State → Result DnsError (ConfigMap × Bool) → Type 0
  Patched s r =
      Unread s r
      ⊎ ((v : lib.Version) × (key : String) × (cm : ConfigMap) × ((get_core_dns_version api lib d
              s).0
            ≡ ok v)
          × Chosen s key cm
          × Written key v cm r)

  add_to-Written :
      (key : String) (v : lib.Version) (cm : ConfigMap) (s : api.State)
      → Written key v cm (add_to api lib key domain mesh v cm s).0
  unfolding add_to
  add_to-Written key v cm s =
      let text = or_empty (lookup key cm.entries) in
      let stubbed = add_stub_domain-Stubbed text domain mesh (lib.is_below_1_7 v) in
      elim (Option-cases (
        add_stub_domain text traefik_mesh_block_header traefik_mesh_block_trailer domain mesh
          (lib.is_below_1_7 v))) [
            | inl e ↦ rw (add_to, e) (refl, (rw e at stubbed))
            | inr ((text', changed), e) ↦ rw (add_to, e) (text', refl, (rw e at stubbed))
          ]

  corefile-Patched :
      (s : api.State) (v : lib.Version) (e : DnsError) (r : Result DnsError ConfigMap × api.State)
      → (get_core_dns_version api lib d s).0 ≡ ok v
      → (get_config_map api lib d "coredns-custom" s).0 ≡ err e
      → get_config_map api lib d "coredns" s ≡ r
      → Patched s (continue r (add_to api lib "Corefile" domain mesh v)).0
  corefile-Patched s v e (ok cm, t) f g h = inr (
    v,
    "Corefile",
    cm,
    f,
    inr (refl, (e, g), ap (λ (x : Result DnsError ConfigMap × api.State). x.0) h),
    add_to-Written "Corefile" v cm t,
  )
  corefile-Patched s v e (err e', t) f g h =
      inl (inr (e', e, refl, g, ap (λ (x : Result DnsError ConfigMap × api.State). x.0) h))

  found-Patched :
      (s : api.State) (v : lib.Version) (r : Result DnsError ConfigMap × api.State)
      → (get_core_dns_version api lib d s).0 ≡ ok v
      → (get_config_map api lib d "coredns-custom" s).0 ≡ r.0
      → r.1 ≡ s
      → Patched s (patch_found api lib d domain mesh v r).0
  unfolding patch_found
  found-Patched s v (ok cm, t) f g same =
      inr (v, "traefik.mesh.server", cm, f, inl (refl, g), add_to-Written _ v cm t)
  found-Patched s v (err e, t) f g same =
      subst
        (λ (u : api.State).
          Patched s
            (continue (get_config_map api lib d "coredns" u)
              (add_to api lib "Corefile" domain mesh v)).0)
        (sym same) (corefile-Patched s v e _ f g refl)

  versioned-Patched :
      (s : api.State) (r : Result DnsError lib.Version × api.State)
      → (get_core_dns_version api lib d s).0 ≡ r.0
      → r.1 ≡ s
      → Patched s
          (continue r (λ v t.
            patch_found api lib d domain mesh v (get_config_map api lib d "coredns-custom" t))).0
  versioned-Patched s (err e, t) f same = inl (inl (e, refl, f))
  versioned-Patched s (ok v, t) f same =
      subst
        (λ (u : api.State).
          Patched s
            (patch_found api lib d domain mesh v (get_config_map api lib d "coredns-custom" u)).0)
        (sym same)
        (found-Patched s v (get_config_map api lib d "coredns-custom" s) f refl
          ((get_config_map-Reads api lib d "coredns-custom").same s))

  pub patch_core_dns_config-Patched :
      (s : api.State) → Patched s (patch_core_dns_config api lib d domain mesh s).0
  unfolding patch_core_dns_config
  patch_core_dns_config-Patched s =
      versioned-Patched s (get_core_dns_version api lib d s) refl
        ((get_core_dns_version-Reads api lib d).same s)
