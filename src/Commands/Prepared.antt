-- ===== src/Commands/Prepared.antt =====
-- What a successful run of prepare tells.
use maesh.Common.{true, String, List, ◌≡◌, Option, ◌||◌, Result, ok}
use maesh.Kube.Versions.{SchemeGroups, ApiGroup, IsAccepted}
use maesh.Dns.{Provider}
use maesh.Dns.Exec.{DnsError, continue}
use maesh.Dns.Client.{KubeApi, Libraries, check_dns_provider}
use maesh.Dns.Client.Detected.{Deployed}
use maesh.Commands.{PrepareConfiguration, Started, configure_provider}

module _ (api : KubeApi) (lib : Libraries api.State) (uuid uuid' : String)
    (config : PrepareConfiguration) where
  -- The cluster was fit for the mesh, and the calls that configure its provider succeeded.
  pub record IsPrepared (started : Started) (scheme : SchemeGroups)
      (groups : Option (List ApiGroup)) (s s' : api.State) : Type 0 where
    pub logged : started.logger ≡ true
    pub connected : started.clients ≡ true
    pub accepted : IsAccepted scheme groups (config.acl || config.smi)
    pub provider : Provider
    pub deployed : Deployed api lib provider s
    pub configured : configure_provider api lib uuid uuid' config provider s ≡ (ok tt, s')

  work : api.State → Result {0, 0} DnsError Unit × api.State
  work s = continue (check_dns_provider api lib s) (configure_provider api lib uuid uuid' config)
