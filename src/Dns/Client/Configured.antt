-- ===== src/Dns/Client/Configured.antt =====
-- What ConfigureCoreDNS writes, and what stays when it fails.
use maesh.Common.{true, false, String, ◌≡◌, ◌⊎◌, none, some, Result, ok, err, insert, string_eq}
use maesh.Kube.{found, missing, failed}
use maesh.Dns.Exec.{DnsError, api_failed}
use maesh.Dns.Client.{KubeApi, Libraries, Deployment, ConfigMap}
use maesh.Dns.Client.Patched.{Patched}

-- The deployment with the annotation that makes its pods restart.
abbrev pub annotated : String → Deployment → Deployment
annotated uuid d = record d {
  template_annotations = insert "traefik-mesh-hash" uuid d.template_annotations;
}

module _ (api : KubeApi) (lib : Libraries api.State) (uuid namespace domain mesh : String)
    (s : api.State) where
  abbrev Deployed : Deployment → Type 0
  Deployed d = api.get_deployment namespace "coredns" s ≡ found d

  -- The ways in which ConfigureCoreDNS ends, each with the cluster as it is then. `Patched` says which
  -- map is patched and with what, or why there is no patch.
  pub data Configured : Result {0, 0} DnsError Unit × api.State → Type 0 where
    undeployed :
        (api.get_deployment namespace "coredns" s ≡ missing)
          ⊎ (api.get_deployment namespace "coredns" s ≡ failed)
        → Configured (err api_failed, s)
    unpatched :
        (d : Deployment) (e : DnsError)
        → Deployed d
        → Patched api lib d domain mesh s (err e)
        → Configured (err e, s)
    already :
        (d : Deployment) (cm : ConfigMap)
        → Deployed d
        → Patched api lib d domain mesh s (ok (cm, false))
        → Configured (ok tt, s)
    unstored :
        (d : Deployment) (cm : ConfigMap)
        → Deployed d
        → Patched api lib d domain mesh s (ok (cm, true))
        → api.update_config_map cm s ≡ none
        → Configured (err api_failed, s)
    unrestarted :
        (d : Deployment) (cm : ConfigMap) (s' : api.State)
        → Deployed d
        → Patched api lib d domain mesh s (ok (cm, true))
        → api.update_config_map cm s ≡ some s'
        → api.update_deployment (annotated uuid d) s' ≡ none
        → Configured (err api_failed, s')
    restarted :
        (d : Deployment) (cm : ConfigMap) (s' s'' : api.State)
        → Deployed d
        → Patched api lib d domain mesh s (ok (cm, true))
        → api.update_config_map cm s ≡ some s'
        → api.update_deployment (annotated uuid d) s' ≡ some s''
        → Configured (ok tt, s'')
