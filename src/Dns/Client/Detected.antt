-- ===== src/Dns/Client/Detected.antt =====
-- Which DNS provider is detected.
use maesh.Common.{
  ◌∙◌, Bool, true, false, String, ◌≡◌, ◌↔◌, refl, subst, if◌then◌else◌, arith, some, inl, inr,
  Bool-cases, Option-cases, Result-cases, Result, ok, err,
}
use maesh.Kube.{Lookup, found, missing, failed}
use maesh.Dns.{Provider, unknown_dns, core_dns, kube_dns}
use maesh.Dns.Exec.{DnsError, no_provider, pure, raise, continue}
use maesh.Dns.Client.{
  KubeApi, Libraries, Deployment, core_dns_tag, get_core_dns_version, core_dns_matched,
  core_dns_match, kube_dns_match, kube_dns_matched, check_dns_provider, namespace_system,
}

module _ (api : KubeApi) (lib : Libraries api.State) where
  -- The deployment's container coredns has a tag that is a supported version.
  pub record IsSupported (d : Deployment) : Type 0 where
    pub tag : String
    pub version : lib.Version
    pub tag_eq : core_dns_tag d.containers ≡ some tag
    pub version_eq : lib.new_version tag ≡ some version
    pub supported : lib.is_supported version ≡ true

  IsSupported-by :
      (d : Deployment) (tag : String) (version : lib.Version)
      → core_dns_tag d.containers ≡ some tag
      → lib.new_version tag ≡ some version
      → lib.is_supported version ≡ true
      → IsSupported d
  IsSupported-by d tag version e f g = record {
    tag = tag;
    version = version;
    tag_eq = e;
    version_eq = f;
    supported = g;
  }

  -- What stands in the cluster when a provider is detected.
  abbrev pub Deployed : Provider → api.State → Type 0
  Deployed unknown_dns s = ⊥
  Deployed core_dns s =
      (d : Deployment) × (api.get_deployment namespace_system "coredns" s ≡ found d) × IsSupported d
  Deployed kube_dns s =
      (api.get_deployment namespace_system "coredns" s ≡ missing)
      × ((d : Deployment) × (api.get_deployment namespace_system "kube-dns" s ≡ found d))

  CoreMatched : Lookup Deployment → Result DnsError Bool → Type 0
  CoreMatched l (ok true) = (d : Deployment) × (l ≡ found d) × IsSupported d
  CoreMatched l (ok false) = l ≡ missing
  CoreMatched l (err e) = Unit

  core_dns_matched-CoreMatched :
      (l : Lookup Deployment) (s : api.State)
      → CoreMatched l (core_dns_matched api lib l s).0 × ((core_dns_matched api lib l s).1 ≡ s)
  unfolding core_dns_matched get_core_dns_version CoreMatched
  core_dns_matched-CoreMatched missing s = (refl, refl)
  core_dns_matched-CoreMatched failed s = (tt, refl)
  core_dns_matched-CoreMatched (found d) s = elim (Option-cases (core_dns_tag d.containers)) [
    | inl e ↦ rw (e, get_core_dns_version) (tt, refl)
    | inr (tag, e) ↦ elim (Option-cases (lib.new_version tag)) [
      | inl f ↦ rw (e, f, get_core_dns_version) (tt, refl)
      | inr (version, f) ↦ elim (Bool-cases (lib.is_supported version)) [
        | inl g ↦
            rw (e, f, g, get_core_dns_version) ((d, refl, IsSupported-by d tag version e f g), refl)
        | inr g ↦ rw (e, f, g, get_core_dns_version) (tt, refl)
      ]
    ]
  ]

  -- What check_dns_provider gives tells what is deployed.
  Answer : Result DnsError Provider → api.State → Type 0
  Answer (ok p) s = Deployed p s
  Answer (err e) s = Unit

  -- CheckDNSProvider behind coreDNSMatch, and behind kubeDNSMatch.
  abbrev kube_then : Result DnsError Bool × api.State → Result DnsError Provider × api.State
  kube_then r = continue r (λ kube. if kube then pure kube_dns else raise no_provider)

  abbrev core_then : Result DnsError Bool × api.State → Result DnsError Provider × api.State
  core_then r =
      continue r
        (λ core. if core then pure core_dns else (λ s. kube_then (kube_dns_match api lib s)))

  same_answer :
      (q p : Provider) (t s : api.State)
      → ◌≡◌ {A = Result DnsError Provider × api.State} (ok q, t) (ok p, s)
      → q ≡ p
  same_answer q p t s h = ground arith

  kube_found :
      (l : Lookup Deployment) (p : Provider) (s : api.State)
      → api.get_deployment namespace_system "coredns" s ≡ missing
      → api.get_deployment namespace_system "kube-dns" s ≡ l
      → kube_then (kube_dns_matched api lib l s) ≡ (ok p, s)
      → Deployed p s
  unfolding kube_dns_matched
  kube_found missing p s e f h = absurd (ground arith)
  kube_found failed p s e f h = absurd (ground arith)
  kube_found (found d) p s e f h =
      subst (λ q. Deployed q s) (same_answer kube_dns p s s h) (e, (d, f))

  core_found :
      (r : Result DnsError Bool × api.State) (p : Provider) (s : api.State)
      → CoreMatched (api.get_deployment namespace_system "coredns" s) r.0
      → r.1 ≡ s
      → core_then r ≡ (ok p, s)
      → Deployed p s
  unfolding CoreMatched kube_dns_match
  core_found (err x, t) p s m same h = absurd (ground arith)
  core_found (ok true, t) p s m same h = subst (λ q. Deployed q s) (same_answer core_dns p t s h) m
  core_found (ok false, t) p s m same h =
      kube_found (api.get_deployment namespace_system "kube-dns" s) p s m refl
        (subst (λ u. kube_then (kube_dns_match api lib u) ≡ (ok p, s)) same h)

  kube_then_same :
      (l : Lookup Deployment) (s : api.State) → (kube_then (kube_dns_matched api lib l s)).1 ≡ s
  unfolding kube_dns_matched
  kube_then_same missing s = refl
  kube_then_same failed s = refl
  kube_then_same (found d) s = refl

  core_then_same : (r : Result DnsError Bool × api.State) → (core_then r).1 ≡ r.1
  unfolding kube_dns_match
  core_then_same (err e, s) = refl
  core_then_same (ok true, s) = refl
  core_then_same (ok false, s) = kube_then_same (api.get_deployment namespace_system "kube-dns" s) s

  -- CheckDNSProvider leaves the cluster as it is.
  pub check_dns_provider_same : (s : api.State) → (check_dns_provider api lib s).1 ≡ s
  unfolding check_dns_provider core_dns_match
  check_dns_provider_same s =
      let l = api.get_deployment namespace_system "coredns" s in
      core_then_same (core_dns_matched api lib l s) ∙ (core_dns_matched-CoreMatched l s).1

  -- The provider that is found is the one that is deployed.
  pub check_dns_provider-Deployed :
      (p : Provider) (s : api.State) → (check_dns_provider api lib s ≡ (ok p, s)) ↔ Deployed p s
  unfolding check_dns_provider core_dns_match kube_dns_match core_dns_matched kube_dns_matched
      get_core_dns_version CoreMatched
  check_dns_provider-Deployed p s = (forward, backward p)
    where
      backward : (p : Provider) → Deployed p s → check_dns_provider api lib s ≡ (ok p, s)
      backward unknown_dns b = absurd b
      backward core_dns (d, e, h) =
          rw (e, core_dns_matched, get_core_dns_version, h.tag_eq, h.version_eq, h.supported) refl
      backward kube_dns (e, (d, f)) = rw (e, f) refl

      forward : check_dns_provider api lib s ≡ (ok p, s) → Deployed p s
      forward e =
          let l = api.get_deployment namespace_system "coredns" s in
          let (matched, same) = core_dns_matched-CoreMatched l s in
          core_found (core_dns_matched api lib l s) p s matched same e

  -- CheckDNSProvider always leaves the cluster as it is. It finds CoreDNS exactly when kube-system has a
  -- deployment coredns whose container coredns has a supported version, and KubeDNS exactly when it has
  -- no deployment coredns, but one kube-dns; and it gives an error exactly when neither is so.
  pub check_dns_provider_iff :
      (p : Provider) (s : api.State)
      → ((check_dns_provider api lib s).1 ≡ s)
        × ((check_dns_provider api lib s ≡ (ok p, s)) ↔ Deployed p s)
        × (((e : DnsError) × (check_dns_provider api lib s ≡ (err e, s)))
            ↔ ((q : Provider) → ¬ Deployed q s))
  check_dns_provider_iff p s =
      let r = check_dns_provider api lib s in
      let same = check_dns_provider_same s in
      (
        same,
        check_dns_provider-Deployed p s,
        (
          (λ (e, refused) q d. cc (refused, (check_dns_provider-Deployed q s).1 d)),
          λ undeployed. elim (Result-cases r.0) [
            | inl (q, found_q) ↦
                absurd (undeployed q ((check_dns_provider-Deployed q s).0 (cc (found_q, same))))
            | inr (e, refused) ↦ (e, cc (refused, same))
          ],
        ),
      )
