-- ===== src/Controller/Worker/Steps.antt =====
-- The controller as a system: events of the informers, work items and the shutdown, in any order.
-- A panic ends the process; the steps that the relation allows behind it do not happen.

use maesh.Controller.Queue.{WorkQueue, ObjectKeys}
use maesh.Controller.Handler.{Object, on_add, on_update, on_delete}
use maesh.Controller.Worker.{Controller, World, process_next_work_item, shutdown}

module _ (wq : WorkQueue) (keys : ObjectKeys) where
  pub data Step (c : Controller wq.Queue) : Controller wq.Queue → Type 0 where
    added : (obj : Object) → Step c (record c { queue = on_add wq keys obj c.queue })
    updated :
        (old_obj new_obj : Object)
        → Step c (record c { queue = on_update wq keys old_obj new_obj c.queue })
    deleted : (obj : Object) → Step c (record c { queue = on_delete wq keys obj c.queue })
    worked : (w : World) → Step c (process_next_work_item wq keys w c).1
    closed : Step c (shutdown c)

  -- From the state in which Run starts the worker.
  pub data Reach (c : Controller wq.Queue) : Controller wq.Queue → Type 0 where
    start : Reach c c
    later : {d e : Controller wq.Queue} → Reach c d → Step d e → Reach c e
