-- ===== src/Kube/Filter/Accepts.antt =====
-- pkg/k8s/filter.go: the resources that pass a filter, by membership in its lists.
use maesh.Common.{
  true, false, String, List, [], ◌∷◌, ◌≡◌, ◌≢◌, ◌↔◌, ◌⊎◌, In, lookup, arith, eq_iff, string_eq,
}
use maesh.Kube.Types.{service_type_external_name}
use maesh.Kube.Filter.{
  ResourceFilter, NamespaceName, Resource, service, object, no_metadata, contains,
  contains_namespace_name, is_ignored, is_ignored_metadata, or_empty, is_some_watched,
}

contains_iff : (xs : List String) (s : String) → (contains xs s ≡ true) ↔ In s xs
unfolding contains
contains_iff [] s = ground arith
contains_iff (x ∷ xs) s = ground (arith, eq_iff x s, contains_iff xs s)

contains_namespace_name_iff :
    (xs : List NamespaceName) (n : NamespaceName) → (contains_namespace_name xs n ≡ true) ↔ In n xs
unfolding contains_namespace_name
contains_namespace_name_iff [] n = ground arith
contains_namespace_name_iff (x ∷ xs) n =
    ground (
      arith,
      eq_iff x.namespace n.namespace,
      eq_iff x.name n.name,
      contains_namespace_name_iff xs n,
    )

-- What the lists of a filter say of an object with this namespace and these labels: its namespace is
-- watched, if only some are, and not ignored, and neither is its app; no label counts as the empty app.
pub record AcceptsMetadata (f : ResourceFilter) (namespace app : String) : Type 0 where
  pub watched : (f.watched_namespaces ≡ []) ⊎ In namespace f.watched_namespaces
  pub namespace_allowed : In namespace f.ignored_namespaces → ⊥
  pub app_allowed : In app f.ignored_apps → ⊥

abbrev pub Accepts : ResourceFilter → Resource → Type 0
Accepts f no_metadata = ⊥
Accepts f (object namespace labels) = AcceptsMetadata f namespace (or_empty (lookup "app" labels))
Accepts f (service svc) =
    AcceptsMetadata f svc.namespace (or_empty (lookup "app" svc.labels))
    × (In (record { name = svc.name; namespace = svc.namespace }) f.ignored_services → ⊥)
    × (svc.type ≢ service_type_external_name)

is_some_watched_iff : (xs : List String) → (is_some_watched xs ≡ false) ↔ (xs ≡ [])
is_some_watched_iff [] = ground arith
is_some_watched_iff (x ∷ xs) = ground arith

is_ignored_metadata_iff :
    (f : ResourceFilter) (namespace : String) (labels : List (String × String))
    → (is_ignored_metadata f namespace labels ≡ false)
      ↔ AcceptsMetadata f namespace (or_empty (lookup "app" labels))
unfolding is_ignored_metadata
is_ignored_metadata_iff f namespace labels = ground (
  arith,
  contains_iff f.watched_namespaces namespace,
  contains_iff f.ignored_namespaces namespace,
  contains_iff f.ignored_apps (or_empty (lookup "app" labels)),
  is_some_watched_iff f.watched_namespaces,
)

-- A resource passes the filter exactly when it has metadata, its namespace is among the watched ones
-- (if any are named) and not among the ignored ones, its app label is not ignored, and, if it is a
-- service, it is not an ignored service and not of type ExternalName.
pub is_ignored_iff : (f : ResourceFilter) (r : Resource) → (is_ignored f r ≡ false) ↔ Accepts f r
unfolding is_ignored
is_ignored_iff f no_metadata = ground arith
is_ignored_iff f (object namespace labels) = is_ignored_metadata_iff f namespace labels
is_ignored_iff f (service svc) = ground (
  arith,
  is_ignored_metadata_iff f svc.namespace svc.labels,
  contains_namespace_name_iff f.ignored_services
      (record { name = svc.name; namespace = svc.namespace }),
  eq_iff svc.type service_type_external_name,
)
