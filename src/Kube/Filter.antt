-- ===== src/Kube/Filter.antt =====
-- pkg/k8s/filter.go: which resources the controller ignores.
pub mod Accepts
use maesh.Common.{
  Bool, true, false, not, String, List, [], ◌∷◌, ◌++◌, Option, none, some, ◌==◌, ◌&&◌, ◌||◌, lookup,
  string_eq,
}
use maesh.Kube.Types.{Service, service_type_external_name}

-- namespaceName
pub record NamespaceName : Type 0 where
  pub name : String
  pub namespace : String

pub record ResourceFilter : Type 0 where
  pub watched_namespaces : List String
  pub ignored_namespaces : List String
  pub ignored_services : List NamespaceName
  pub ignored_apps : List String

-- ResourceFilterOption
abbrev pub FilterOption : Type 0
FilterOption = ResourceFilter → ResourceFilter

unfoldable pub watch_namespaces : List String → FilterOption
watch_namespaces namespaces filter = record filter {
  watched_namespaces = filter.watched_namespaces ++ namespaces;
}

unfoldable pub ignore_namespaces : List String → FilterOption
ignore_namespaces namespaces filter = record filter {
  ignored_namespaces = filter.ignored_namespaces ++ namespaces;
}

unfoldable pub ignore_apps : List String → FilterOption
ignore_apps apps filter = record filter { ignored_apps = filter.ignored_apps ++ apps }

unfoldable pub ignore_service : String → String → FilterOption
ignore_service namespace name filter = record filter {
  ignored_services = filter.ignored_services ++ record { name = name; namespace = namespace } ∷ [];
}

-- The loop of NewResourceFilter.
unfoldable pub apply_options : List FilterOption → ResourceFilter → ResourceFilter
apply_options [] filter = filter
apply_options (opt ∷ opts) filter = apply_options opts (opt filter)

-- NewResourceFilter
unfoldable pub new_resource_filter : List FilterOption → ResourceFilter
unfolding apply_options
new_resource_filter opts = apply_options opts (record {
  watched_namespaces = [];
  ignored_namespaces = [];
  ignored_services = [];
  ignored_apps = [];
})

-- contains
unfoldable pub contains : List String → String → Bool
contains [] str = false
contains (item ∷ slice) str = item == str || contains slice str

-- containsNamespaceName
unfoldable pub contains_namespace_name : List NamespaceName → NamespaceName → Bool
contains_namespace_name [] nn = false
contains_namespace_name (item ∷ slice) nn =
    (item.namespace == nn.namespace && item.name == nn.name) || contains_namespace_name slice nn

-- What the filter sees: an object without metadata, a service, or any other object.
pub data Resource : Type 0 where
  no_metadata : Resource
  service : Service → Resource
  object : String → List (String × String) → Resource

abbrev pub or_empty : Option String → String
or_empty none = ""
or_empty (some s) = s

-- `len(f.watchedNamespaces) > 0`
abbrev pub is_some_watched : List String → Bool
is_some_watched [] = false
is_some_watched (_ ∷ _) = true

-- The tests on the metadata.
unfoldable pub is_ignored_metadata : ResourceFilter → String → List (String × String) → Bool
is_ignored_metadata f namespace labels =
    (is_some_watched f.watched_namespaces && not (contains f.watched_namespaces namespace))
    || contains f.ignored_namespaces namespace
    || contains f.ignored_apps (or_empty (lookup "app" labels))

-- IsIgnored
unfoldable pub is_ignored : ResourceFilter → Resource → Bool
unfolding is_ignored_metadata
is_ignored f no_metadata = true
is_ignored f (object namespace labels) = is_ignored_metadata f namespace labels
is_ignored f (service svc) =
    is_ignored_metadata f svc.namespace svc.labels
    || contains_namespace_name f.ignored_services
        (record { name = svc.name; namespace = svc.namespace })
    || svc.type == service_type_external_name
