-- ===== src/Controller/Worker/Watched.antt =====
-- Which resources the filter of NewMeshController lets through.
use maesh.Common.{
  Bool, true, false, not, [], ◌∷◌, ◌≡◌, ◌≢◌, ◌↔◌, ◌⊎◌, inl, inr, arith, In, In-append, lookup,
  string_eq, ap,
}
use maesh.Kube.{Service, service_type_external_name}
use maesh.Kube.Filter.{
  NamespaceName, service, is_ignored, or_empty, new_resource_filter, apply_options,
  watch_namespaces, ignore_namespaces, ignore_service, ignore_apps,
}
use maesh.Kube.Filter.Accepts.{is_ignored_iff, Accepts}
use maesh.Api.{Api}
use maesh.Controller.Worker.{Config, mesh_filter, new_mesh_controller, is_watched_resource}

-- A service that the mesh takes care of.
pub record IsMeshed (cfg : Config) (svc : Service) : Type 0 where
  pub watched : (cfg.watch_namespaces ≡ []) ⊎ In svc.namespace cfg.watch_namespaces
  pub not_ignored : In svc.namespace cfg.ignore_namespaces → ⊥
  pub not_system : svc.namespace ≢ "kube-system"
  pub not_kubernetes : svc.namespace ≡ "default" → svc.name ≢ "kubernetes"
  pub not_maesh : or_empty (lookup "app" svc.labels) ≢ "maesh"
  pub not_jaeger : or_empty (lookup "app" svc.labels) ≢ "jaeger"
  pub not_external : svc.type ≢ service_type_external_name

mesh_filter-Accepts_iff :
    (cfg : Config) (svc : Service) → Accepts (mesh_filter cfg) (service svc) ↔ IsMeshed cfg svc
unfolding mesh_filter new_resource_filter apply_options watch_namespaces ignore_namespaces
    ignore_service ignore_apps
mesh_filter-Accepts_iff cfg svc =
    let nn : NamespaceName = record { name = svc.name; namespace = svc.namespace } in
    let spaces = In-append svc.namespace cfg.ignore_namespaces ("kube-system" ∷ []) in
    (
      (λ (m, allowed, type). record {
        watched = m.watched;
        not_ignored = λ i. m.namespace_allowed (spaces.1 (inl i));
        not_system = λ e. m.namespace_allowed (spaces.1 (inr (inl e)));
        not_kubernetes = λ e e'. allowed (inl (cc (e, e')));
        not_maesh = λ e. m.app_allowed (inl e);
        not_jaeger = λ e. m.app_allowed (inr (inl e));
        not_external = type;
      }),
      λ h. (
        record {
          watched = h.watched;
          namespace_allowed = λ i. elim (spaces.0 i) [
            | inl j ↦ h.not_ignored j
            | inr (inl e) ↦ h.not_system e
            | inr (inr b) ↦ b
          ];
          app_allowed = λ i. elim i [
            | inl e ↦ h.not_maesh e
            | inr (inl e) ↦ h.not_jaeger e
            | inr (inr b) ↦ b
          ];
        },
        (λ i. elim i [
          | inl e ↦
              h.not_kubernetes (ap (λ (n : NamespaceName). n.namespace) e)
                (ap (λ (n : NamespaceName). n.name) e)
          | inr b ↦ b
        ]),
        h.not_external,
      ),
    )

not-true_iff : (b : Bool) → (not b ≡ true) ↔ (b ≡ false)
not-true_iff b = ground arith

-- Under a controller as NewMeshController makes it, a service is watched exactly when its namespace is
-- a watched one (if any are named), neither ignored nor kube-system, the service is not
-- default/kubernetes, its app is neither maesh nor jaeger, and it is not of type ExternalName.
pub is_watched_resource_iff :
    {Queue : Type 0} (cfg : Config) (queue : Queue) (store : Api) (svc : Service)
    → (is_watched_resource (new_mesh_controller cfg queue store) (service svc) ≡ true)
      ↔ IsMeshed cfg svc
unfolding is_watched_resource new_mesh_controller
is_watched_resource_iff cfg queue store svc =
    let ignored = not-true_iff (is_ignored (mesh_filter cfg) (service svc)) in
    let accepts = is_ignored_iff (mesh_filter cfg) (service svc) in
    let meshed = mesh_filter-Accepts_iff cfg svc in
    ((λ e. meshed.0 (accepts.0 (ignored.0 e))), λ h. ignored.1 (accepts.1 (meshed.1 h)))
