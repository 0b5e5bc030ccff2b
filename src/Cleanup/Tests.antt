-- ===== src/Cleanup/Tests.antt =====
-- A cleanup of two shadow services, the second of which the API refuses to delete.
use maesh.Common.{String, List, [], ◌∷◌, none, some, ◌≡◌, refl, ◌==◌, string_eq, if◌then◌else◌, err}
use maesh.Kube.{missing}
use maesh.Dns.Exec.{api_failed}
use maesh.Dns.Client.{KubeApi}
use maesh.Cleanup.{ServiceApi, clean_shadow_services}
use maesh.Cleanup.Shadows.{Cleaned, clean_shadow_services-Cleaned}

-- A cluster that is the list of its services.
abbrev api : KubeApi
api = record {
  State = List (String × String);
  get_deployment = λ namespace name s. missing;
  update_deployment = λ d s. some s;
  get_config_map = λ namespace name s. missing;
  create_config_map = λ cm s. some (cm, s);
  update_config_map = λ cm s. some s;
  cluster_ip = λ namespace name s. missing;
}

abbrev tail : List (String × String) → List (String × String)
tail [] = []
tail (_ ∷ others) = others

abbrev services : ServiceApi (List (String × String))
services = record {
  list_shadow_services = λ namespace s. some s;
  delete_service = λ namespace name s. if name == "kept" then none else some (tail s);
}

abbrev shadows : List (String × String)
shadows = ("maesh", "gone") ∷ ("maesh", "kept") ∷ []

clean_shadow_services-Cleaned_example :
    Cleaned api services shadows shadows (clean_shadow_services api services "maesh" shadows)
clean_shadow_services-Cleaned_example =
    clean_shadow_services-Cleaned api services "maesh" shadows shadows refl

stops_at_kept :
    clean_shadow_services api services "maesh" shadows ≡ (err api_failed, ("maesh", "kept") ∷ [])
unfolding clean_shadow_services
stops_at_kept = refl
