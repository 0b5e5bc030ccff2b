-- ===== src/Controller/Handler.antt =====
-- pkg/controller/handler.go: which key a change of an object puts into the work queue.
use maesh.Common.{String, Bool, false, ◌==◌, Option, some, if◌then◌else◌, string_eq}
use maesh.Kube.{Service}
use maesh.Controller.Queue.{WorkQueue, ObjectKeys}

-- An object of the informers' caches: a service, or any other object. `none` is an object without
-- metadata, such as the tombstone of a deletion that was missed; else its resource version.
pub data Object : Type 0 where
  service : Service → String → Object
  other : Option String → Object

-- configRefreshKey
abbrev pub config_refresh_key : String
config_refresh_key = "refresh"

-- `obj.(metav1.Object)`, as far as the resource version goes.
abbrev pub resource_version : Object → Option String
resource_version (service svc version) = some version
resource_version (other version) = version

-- The test of OnUpdate for a resync.
unfoldable pub is_resync : Option String → Option String → Bool
is_resync (some old) (some new) = old == new
is_resync _ _ = false

module _ (wq : WorkQueue) (keys : ObjectKeys) where
  -- enqueueWork; MetaNamespaceKeyFunc has no error on a service.
  unfoldable pub enqueue_work : Object → wq.Queue → wq.Queue
  enqueue_work (other _) q = wq.add config_refresh_key q
  enqueue_work (service svc _) q = wq.add (keys.meta_key svc.namespace svc.name) q

  -- OnAdd
  unfoldable pub on_add : Object → wq.Queue → wq.Queue
  unfolding enqueue_work
  on_add obj q = enqueue_work obj q

  -- OnUpdate
  unfoldable pub on_update : Object → Object → wq.Queue → wq.Queue
  unfolding enqueue_work is_resync
  on_update old_obj new_obj q =
      if is_resync (resource_version old_obj) (resource_version new_obj)
      then q
      else enqueue_work new_obj q

  -- OnDelete
  unfoldable pub on_delete : Object → wq.Queue → wq.Queue
  unfolding enqueue_work
  on_delete obj q = enqueue_work obj q
