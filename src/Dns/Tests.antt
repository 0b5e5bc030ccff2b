-- ===== src/Dns/Tests.antt =====
-- Runs of the DNS client on a cluster with one deployment and one config map.
use maesh.Common.{
  true, false, String, [], ◌∷◌, ◌≡◌, ◌↔◌, refl, none, some, ◌==◌, string_eq, if◌then◌else◌, ok, err,
  arith, lookup,
}
use maesh.Common.Text.{cut, cut_last, strip_prefix, join, replace_dots}
use maesh.Common.Text.Laws.{◌⧺◌}
use maesh.Kube.{found, missing}
use maesh.Dns.Exec.{DnsError}
use maesh.Dns.{
  Provider, core_dns, add_stub_domain, remove_stub_domain, stub_domain, stub_domain_body,
  joined_config, get_stub_domain, panicked,
}
use maesh.Dns.Text.{IsPlain, remove_stub_domain-add_stub_domain}
use maesh.Dns.Client.{
  KubeApi, Libraries, Deployment, ConfigMap, check_dns_provider, configure_core_dns,
}
use maesh.Dns.Client.Detected.{Deployed, check_dns_provider_iff}
use maesh.Dns.Client.{core_dns_tag, get_config_map_volume_source, unpatch_core_dns_config, or_empty}
use maesh.Dns.Client.Restored.{IsKeeping, IsUnpatched, configure_core_dns-unpatch_core_dns_config}
use maesh.Dns.Client.Configured.{Configured}

abbrev deployment : Deployment
deployment = record {
  name = "coredns";
  namespace = "kube-system";
  containers = record { name = "coredns"; image = "k8s.gcr.io/coredns:1.6.7" } ∷ [];
  volumes = none ∷ some (record { name = "coredns"; optional = none }) ∷ [];
  template_annotations = [];
}

abbrev api : KubeApi
api = record {
  State = ConfigMap;
  get_deployment = λ namespace name s. if name == "coredns" then found deployment else missing;
  update_deployment = λ d s. some s;
  get_config_map = λ namespace name s. if name == "coredns" then found s else missing;
  create_config_map = λ cm s. some (cm, cm);
  update_config_map = λ cm s. some cm;
  cluster_ip = λ namespace name s. found "10.0.0.10";
}

abbrev libraries : Libraries ConfigMap
libraries = record {
  Version = String;
  new_version = λ tag. some tag;
  is_supported = λ version. true;
  is_below_1_7 = λ version. true;
  unmarshal = λ text. some [];
  marshal = λ domains. "{}";
  retry = λ n operation. operation;
}

abbrev corefile : ConfigMap
corefile = record {
  name = "coredns";
  namespace = "kube-system";
  entries = ("Corefile", ".:53 {\n}\n") ∷ [];
}

check_dns_provider_iff_example :
    ((check_dns_provider api libraries corefile).1 ≡ corefile)
    × ((check_dns_provider api libraries corefile ≡ (ok core_dns, corefile))
        ↔ Deployed api libraries core_dns corefile)
    × (((e : DnsError) × (check_dns_provider api libraries corefile ≡ (err e, corefile)))
        ↔ ((q : Provider) → ¬ Deployed api libraries q corefile))
check_dns_provider_iff_example = check_dns_provider_iff api libraries core_dns corefile

corefile-IsPlain :
    IsPlain "#" "### Begin Traefik Mesh Block" "#" "### End Traefik Mesh Block" ".:53 {\n}\n"
      (stub_domain_body "cluster.local" "maesh" true)
unfolding cut strip_prefix stub_domain_body join replace_dots
corefile-IsPlain = record {
  one_line_header = refl;
  one_line_trailer = refl;
  no_header = refl;
  no_trailer = refl;
  header_plain = refl;
  body_plain = refl;
}

abbrev header : String
header = "#### Begin Traefik Mesh Block"

abbrev trailer : String
trailer = "#### End Traefik Mesh Block"

abbrev stub : String
stub = stub_domain header trailer "cluster.local" "maesh" true

remove_stub_domain-add_stub_domain_example :
    (add_stub_domain ".:53 {\n}\n" header trailer "cluster.local" "maesh" true
      ≡ some (joined_config ".:53 {\n}\n" stub, true))
    × (remove_stub_domain (joined_config ".:53 {\n}\n" stub) header trailer
        ≡ (".:53 {\n}\n" ⧺ "\n"))
    × (add_stub_domain
          (joined_config ".:53 {\n}\n" stub)
          header
          trailer
          "cluster.local"
          "maesh"
          true
        ≡ some (joined_config (".:53 {\n}\n" ⧺ "\n") stub, false))
remove_stub_domain-add_stub_domain_example =
    remove_stub_domain-add_stub_domain "#" "### Begin Traefik Mesh Block" "#"
      "### End Traefik Mesh Block" ".:53 {\n}\n" "cluster.local" "maesh" true corefile-IsPlain

-- A trailer in front of the header makes the bounds of the slice run backwards.
trailer_first : get_stub_domain "B\nA\n" "A" "B" ≡ panicked
unfolding get_stub_domain cut strip_prefix
trailer_first = refl

-- A cluster that keeps one deployment and one config map.
record Kept : Type 0 where
  map : ConfigMap
  deployment : Deployment

abbrev keeping_api : KubeApi
keeping_api = record {
  State = Kept;
  get_deployment = λ namespace name s. found s.deployment;
  update_deployment = λ d s. some (record s { deployment = d });
  get_config_map = λ namespace name s. found s.map;
  create_config_map = λ cm s. some (cm, record s { map = cm });
  update_config_map = λ cm s. some (record s { map = cm });
  cluster_ip = λ namespace name s. found "10.0.0.10";
}

abbrev keeping_libraries : Libraries Kept
keeping_libraries = record {
  Version = String;
  new_version = λ tag. some tag;
  is_supported = λ version. true;
  is_below_1_7 = λ version. true;
  unmarshal = λ text. some [];
  marshal = λ domains. "{}";
  retry = λ n operation. operation;
}

keeping_api-IsKeeping : IsKeeping keeping_api
keeping_api-IsKeeping = record {
  config_written = λ cm s s' e. ground arith;
  deployment_written = λ d s s' e. ground arith;
  deployment_keeps = λ d namespace name s s' e. ground arith;
}

abbrev kept : Kept
kept = record { map = corefile; deployment = deployment }

kept-IsUnpatched :
    IsUnpatched keeping_api keeping_libraries "cluster.local" "maesh" deployment "1.6.7" corefile
      kept
unfolding lookup core_dns_tag cut_last strip_prefix get_config_map_volume_source
kept-IsUnpatched = record {
  keeping = keeping_api-IsKeeping;
  deployed = refl;
  core_dns = record {
    tag = "1.6.7";
    source = record { name = "coredns"; optional = none };
    name_eq = refl;
    namespace_eq = refl;
    tag_eq = refl;
    version_eq = refl;
    no_custom = refl;
    volume_eq = refl;
    source_eq = refl;
  };
  configured = refl;
  name_eq = refl;
  namespace_eq = refl;
  plain = corefile-IsPlain;
}

abbrev configured : Kept
configured =
    (configure_core_dns keeping_api keeping_libraries "a" "kube-system" "cluster.local" "maesh"
      kept).1

configure_runs :
    configure_core_dns keeping_api keeping_libraries "a" "kube-system" "cluster.local" "maesh" kept
    ≡ (ok tt, configured)
unfolding configure_core_dns core_dns_tag add_stub_domain cut lookup strip_prefix stub_domain_body
    join replace_dots
configure_runs = refl

configure_core_dns-unpatch_core_dns_config_example :
    (configure_core_dns keeping_api keeping_libraries "b" "kube-system" "cluster.local" "maesh"
        configured
      ≡ (ok tt, configured))
    × ((d' : Deployment) × (cm' : ConfigMap) × (keeping_api.get_deployment "kube-system" "coredns"
            configured
          ≡ found d')
        × (unpatch_core_dns_config keeping_api keeping_libraries d' configured
            ≡ (ok cm', configured))
        × (lookup "Corefile" cm'.entries
            ≡ some (or_empty (lookup "Corefile" corefile.entries) ⧺ "\n")))
configure_core_dns-unpatch_core_dns_config_example =
    configure_core_dns-unpatch_core_dns_config keeping_api keeping_libraries "a" "b" "cluster.local"
      "maesh" deployment "1.6.7" corefile kept configured kept-IsUnpatched configure_runs
