-- ===== src/Cleanup.antt =====
-- pkg/cleanup/cleanup.go: the removal of the mesh from a cluster.
pub mod Shadows
mod Tests
use maesh.Common.{String, List, [], ◌∷◌, Option, none, some, Result, ok, err, Bool, true, false}
use maesh.Dns.{Provider, unknown_dns, core_dns, kube_dns}
use maesh.Dns.Exec.{DnsError, api_failed, Exec, pure, ◌>>=◌, ◌>>◌}
use maesh.Dns.Client.{
  KubeApi, Libraries, check_dns_provider, restore_core_dns, restore_kube_dns, written,
}

-- The calls on services: the list of those that have the labels of a shadow service in a namespace, each
-- with its namespace and its name, and the deletion.
pub record ServiceApi (State : Type 0) : Type 0 where
  pub list_shadow_services : String → State → Option (List (String × String))
  pub delete_service : String → String → State → Option State

module _ (api : KubeApi) (services : ServiceApi api.State) where
  -- The loop of CleanShadowServices.
  unfoldable pub delete_services : List (String × String) → Exec api.State Unit
  delete_services [] s = (ok tt, s)
  delete_services ((namespace, name) ∷ others) s = elim (services.delete_service namespace name s) [
    | none ↦ (err api_failed, s)
    | some s' ↦ delete_services others s'
  ]

  -- CleanShadowServices
  unfoldable pub clean_shadow_services : String → Exec api.State Unit
  unfolding delete_services
  clean_shadow_services namespace s = elim (services.list_shadow_services namespace s) [
    | none ↦ (err api_failed, s)
    | some shadows ↦ delete_services shadows s
  ]

module _ (api : KubeApi) (lib : Libraries api.State) where
  -- The `switch` of RestoreDNSConfig.
  unfoldable pub restore_provider : String → Provider → Exec api.State Unit
  restore_provider uuid unknown_dns = pure tt
  restore_provider uuid core_dns = restore_core_dns api lib uuid
  restore_provider uuid kube_dns = restore_kube_dns api lib uuid

  -- RestoreDNSConfig
  unfoldable pub restore_dns_config : String → Exec api.State Unit
  unfolding restore_provider
  restore_dns_config uuid = do provider ← check_dns_provider api lib; restore_provider uuid provider
