-- ===== src/Controller/Worker/Events.antt =====
-- From an event on a service to the work on its shadow service.
use maesh.Common.{
  Bool, true, false, String, ◌≡◌, ◌≢◌, ◌↔◌, ◌⊎◌, refl, ap, ◌∙◌, arith, Option, some, none,
  string_eq, eq_iff, inl, inr, Bool-cases, ◌==◌,
}
use maesh.Common.Text.{has_infix, cut, strip_prefix}
use maesh.Kube.{Service}
use maesh.Controller.Shadow.{Manager}
use maesh.Controller.Queue.{WorkQueue, ObjectKeys, item}
use maesh.Controller.Handler.{
  Object, service, on_add, on_update, on_delete, enqueue_work, is_resync, resource_version,
  config_refresh_key,
}
use maesh.Controller.Worker.{
  Controller, World, SyncError, sync_shadow_service, sync_named, process_next_work_item,
}
use maesh.Controller.Worker.Outcome.{
  Outcome, quit, published, panicked, unprepared, unbuilt, prepared, process_next_work_item-Outcome,
}

-- The name and the namespace of a service as Kubernetes allows them.
pub record IsNamed (svc : Service) : Type 0 where
  pub namespaced : svc.namespace ≢ ""
  pub namespace_plain : has_infix svc.namespace "/" ≡ false
  pub name_plain : has_infix svc.name "/" ≡ false

is_resync_iff :
    (old : Option String) (version : String)
    → (is_resync old (some version) ≡ true) ↔ (old ≡ some version)
unfolding is_resync
is_resync_iff none version = ground arith
is_resync_iff (some old) version = ground (arith, string_eq.same_iff old version)

refresh_plain : has_infix config_refresh_key "/" ≡ false
unfolding has_infix cut strip_prefix
refresh_plain = refl

module _ (wq : WorkQueue) (keys : ObjectKeys) where
  -- No service has the key that only asks for a new configuration.
  meta_key-ne-config_refresh_key :
      (svc : Service) → IsNamed svc → keys.meta_key svc.namespace svc.name ≢ config_refresh_key
  meta_key-ne-config_refresh_key svc h e =
      let of_key = keys.split_meta svc.namespace svc.name h.namespace_plain h.name_plain in
      let of_refresh = keys.split_plain config_refresh_key refresh_plain in
      let same = ap keys.split_key e in h.namespaced (cc (of_key, of_refresh, same))

  -- The manager that a round leaves is the one that stands before the configuration is built.
  Outcome-prepared :
      (w : World) (c : Controller wq.Queue) (key : String) (q : wq.Queue)
      {r : Bool × Controller wq.Queue}
      → wq.get c.queue ≡ item key q
      → Outcome wq keys w c r
      → r.1.manager ≡ (prepared wq keys w key c.manager).1
  Outcome-prepared w c key q g (quit g') = absurd (ground arith)
  Outcome-prepared w c key q g (published key' q' s topo conf g' p b n) = ground (arith, g, g', p)
  Outcome-prepared w c key q g (panicked key' q' s topo g' p b n) = ground (arith, g, g', p)
  Outcome-prepared w c key q g (unprepared key' q' s x g' p) = ground (arith, g, g', p)
  Outcome-prepared w c key q g (unbuilt key' q' s x g' p b) = ground (arith, g, g', p)

  prepared-sync_named :
      (w : World) (svc : Service) (s : Manager)
      → IsNamed svc
      → prepared wq keys w (keys.meta_key svc.namespace svc.name) s
        ≡ sync_named w svc.namespace svc.name s
  unfolding sync_shadow_service
  prepared-sync_named w svc s h =
      let key = keys.meta_key svc.namespace svc.name in
      elim (Bool-cases (key == config_refresh_key)) [
        | inl e ↦
            absurd (meta_key-ne-config_refresh_key svc h ((eq_iff key config_refresh_key).0 e))
        | inr e ↦
            rw
              (
                e,
                sync_shadow_service,
                keys.split_meta svc.namespace svc.name h.namespace_plain h.name_plain,
              )
              refl
      ]

  -- Adding and deleting a service, and updating it to another version, put one key into the queue, and
  -- an update to the same version none. A worker that takes this key synchronises the shadow service of
  -- this very service: whatever else comes of the round, the state tables are afterwards those that the
  -- synchronisation of its namespace and name leaves. The service has a namespace, and neither the
  -- namespace nor the name has a slash.
  pub on_update-process_next_work_item :
      (old_obj : Object) (svc : Service) (version : String) (q : wq.Queue) (w : World)
      (c : Controller wq.Queue) (rest : wq.Queue)
      → IsNamed svc
      → wq.get c.queue ≡ item (keys.meta_key svc.namespace svc.name) rest
      → (on_add wq keys (service svc version) q ≡ wq.add (keys.meta_key svc.namespace svc.name) q)
        × (on_delete wq keys (service svc version) q
            ≡ wq.add (keys.meta_key svc.namespace svc.name) q)
        × (((resource_version old_obj ≡ some version)
              × (on_update wq keys old_obj (service svc version) q ≡ q))
            ⊎ ((resource_version old_obj ≢ some version)
                × (on_update wq keys old_obj (service svc version) q
                    ≡ wq.add (keys.meta_key svc.namespace svc.name) q)))
        × ((process_next_work_item wq keys w c).1.manager
            ≡ (sync_named w svc.namespace svc.name c.manager).1)
  unfolding on_add on_update on_delete enqueue_work is_resync
  on_update-process_next_work_item old_obj svc version q w c rest h taken =
      let resync = is_resync_iff (resource_version old_obj) version in
      (
        refl,
        refl,
        (elim (Bool-cases (is_resync (resource_version old_obj) (some version))) [
          | inl e ↦ inl (resync.0 e, rw e refl)
          | inr e ↦ inr ((λ same. cc (e, resync.1 same)), rw e refl)
        ]),
        Outcome-prepared w c (keys.meta_key svc.namespace svc.name) rest taken
              (process_next_work_item-Outcome wq keys w c)
            ∙ ap (λ (x : Option SyncError × Manager). x.1) (prepared-sync_named w svc c.manager h),
      )
