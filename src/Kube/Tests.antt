-- ===== src/Kube/Tests.antt =====
-- Runs of the resource filter.
use maesh.Common.{String, [], ◌∷◌, ◌≡◌, ◌↔◌, refl, true, false, lookup, string_eq}
use maesh.Kube.Types.{Service}
use maesh.Kube.Filter.{
  ResourceFilter, new_resource_filter, apply_options, watch_namespaces, ignore_namespaces,
  ignore_apps, ignore_service, service, object, no_metadata, is_ignored, is_ignored_metadata,
  contains, contains_namespace_name,
}
use maesh.Kube.Filter.Accepts.{Accepts, is_ignored_iff}

abbrev filter : ResourceFilter
filter = new_resource_filter (
    watch_namespaces ("apps" ∷ "kube" ∷ [])
    ∷ ignore_namespaces ("kube" ∷ [])
    ∷ ignore_apps ("maesh" ∷ [])
    ∷ ignore_service "apps" "hidden"
    ∷ [])

abbrev of_type : String → String → Service
of_type name type = record {
  name = name;
  namespace = "apps";
  labels = [];
  annotations = [];
  type = type;
  selector = [];
  ports = [];
  cluster_ip = "10.0.0.1";
  topology_keys = [];
}

is_ignored_tests :
    (is_ignored filter no_metadata ≡ true)
    × (is_ignored filter (object "apps" []) ≡ false)
    × (is_ignored filter (object "other" []) ≡ true)
    × (is_ignored filter (object "kube" []) ≡ true)
    × (is_ignored filter (object "apps" (("app", "maesh") ∷ [])) ≡ true)
    × (is_ignored filter (service (of_type "web" "ClusterIP")) ≡ false)
    × (is_ignored filter (service (of_type "hidden" "ClusterIP")) ≡ true)
    × (is_ignored filter (service (of_type "web" "ExternalName")) ≡ true)
unfolding is_ignored is_ignored_metadata new_resource_filter apply_options watch_namespaces
    ignore_namespaces ignore_apps ignore_service contains contains_namespace_name lookup
is_ignored_tests = (refl, refl, refl, refl, refl, refl, refl, refl)

is_ignored_iff_example :
    (is_ignored filter (service (of_type "web" "ClusterIP")) ≡ false)
    ↔ Accepts filter (service (of_type "web" "ClusterIP"))
is_ignored_iff_example = is_ignored_iff filter (service (of_type "web" "ClusterIP"))
