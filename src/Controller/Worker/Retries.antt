-- ===== src/Controller/Worker/Retries.antt =====
-- How often the worker tries a key.
use maesh.Common.{ℕ, zero, suc, ◌≤◌, ◌<◌, Bool, String, ◌≡◌, refl, arith, string_eq}
use maesh.Controller.Queue.{WorkQueue, ObjectKeys, item}
use maesh.Controller.Handler.{Object, service, other, on_add, on_update, on_delete, enqueue_work}
use maesh.Controller.Worker.{Controller, World, max_retries, handle_err, shutdown}
use maesh.Controller.Worker.Outcome.{
  Outcome, quit, published, panicked, unprepared, unbuilt, process_next_work_item-Outcome,
}
use maesh.Controller.Worker.Steps.{
  Step, added, updated, deleted, worked, closed, Reach, start, later,
}

module _ (wq : WorkQueue) where
  -- No key has been re-queued more often than the limit since it was last forgotten.
  pub record IsCapped (q : wq.Queue) : Type 0 where
    pub capped : (key : String) → wq.num_requeues key q ≤ max_retries

  forget-IsCapped : (key : String) (q : wq.Queue) → IsCapped q → IsCapped (wq.forget key q)
  forget-IsCapped key q h = record {
    capped = λ k. ground (arith, wq.forget_requeues k key q, h.capped k);
  }

  done-IsCapped : (key : String) (q : wq.Queue) → IsCapped q → IsCapped (wq.done key q)
  done-IsCapped key q h = record {
    capped = λ k. ground (arith, wq.done_requeues k key q, h.capped k);
  }

  add-IsCapped : (key : String) (q : wq.Queue) → IsCapped q → IsCapped (wq.add key q)
  add-IsCapped key q h = record {
    capped = λ k. ground (arith, wq.add_requeues k key q, h.capped k);
  }

  get-IsCapped :
      (key : String) (q q' : wq.Queue) → wq.get q ≡ item key q' → IsCapped q → IsCapped q'
  get-IsCapped key q q' e h = record {
    capped = λ k. ground (arith, wq.get_requeues k key q q' e, h.capped k);
  }

module _ (wq : WorkQueue) (keys : ObjectKeys) where
  -- `handleErr` for the same key, `n` times.
  unfoldable pub failures : ℕ → String → wq.Queue → wq.Queue
  failures zero key q = q
  failures (suc n) key q = handle_err wq keys key (failures n key q)

  handle_err-IsCapped :
      (key : String) (q : wq.Queue) → IsCapped wq q → IsCapped wq (handle_err wq keys key q)
  unfolding handle_err
  handle_err-IsCapped key q h = record {
    capped = λ k. ground (
      arith,
      h.capped k,
      string_eq.same_iff key k,
      wq.add_rate_limited_requeues k key q,
      wq.forget_requeues k key q,
    );
  }

  requeues-failures :
      (n : ℕ) (key : String) (q : wq.Queue)
      → wq.num_requeues key q ≡ 0
      → n ≤ max_retries
      → wq.num_requeues key (failures n key q) ≡ n
  unfolding handle_err failures
  requeues-failures zero key q fresh few = fresh
  requeues-failures (suc n) key q fresh few = ground (
    arith,
    requeues-failures n key q fresh (omega arith),
    wq.add_rate_limited_requeues key key (failures n key q),
    string_eq.same_iff key key,
  )

  handle_err_retry :
      (key : String) (q : wq.Queue)
      → wq.num_requeues key q < max_retries
      → handle_err wq keys key q ≡ wq.add_rate_limited key q
  unfolding handle_err
  handle_err_retry key q few = ground arith

  handle_err_drop :
      (key : String) (q : wq.Queue)
      → wq.num_requeues key q ≡ max_retries
      → handle_err wq keys key q ≡ wq.forget key q
  unfolding handle_err
  handle_err_drop key q many = ground arith

  -- A key that starts without a failure and then fails again and again is re-queued after each of the
  -- first twelve failures, and the thirteenth forgets it.
  pub failures-gives_up :
      (key : String) (q : wq.Queue)
      → wq.num_requeues key q ≡ 0
      → ((n : ℕ)
          → n < max_retries
          → failures (suc n) key q ≡ wq.add_rate_limited key (failures n key q))
        × (failures (suc max_retries) key q ≡ wq.forget key (failures max_retries key q))
        × (wq.num_requeues key (failures (suc max_retries) key q) ≡ 0)
  unfolding failures
  failures-gives_up key q fresh =
      let full = requeues-failures max_retries key q fresh (omega arith) in
      let dropped = handle_err_drop key (failures max_retries key q) full in
      (
        (λ n few.
            handle_err_retry key (failures n key q)
              (omega (arith, few, requeues-failures n key q fresh (omega arith)))),
        dropped,
        rw
            (
              dropped,
              wq.forget_requeues key key (failures max_retries key q),
              (string_eq.same_iff key key).1 refl,
            )
            refl,
      )

  enqueue_work-IsCapped :
      (obj : Object) (q : wq.Queue) → IsCapped wq q → IsCapped wq (enqueue_work wq keys obj q)
  unfolding enqueue_work
  enqueue_work-IsCapped (service svc version) q h = add-IsCapped wq _ q h
  enqueue_work-IsCapped (other version) q h = add-IsCapped wq _ q h

  Outcome-IsCapped :
      (w : World) (c : Controller wq.Queue) {r : Bool × Controller wq.Queue}
      → Outcome wq keys w c r
      → IsCapped wq c.queue
      → IsCapped wq r.1.queue
  Outcome-IsCapped w c (quit g) h = h
  Outcome-IsCapped w c (published key q s topo conf g p b n) h =
      done-IsCapped wq key _ (forget-IsCapped wq key q (get-IsCapped wq key c.queue q g h))
  Outcome-IsCapped w c (panicked key q s topo g p b n) h =
      done-IsCapped wq key q (get-IsCapped wq key c.queue q g h)
  Outcome-IsCapped w c (unprepared key q s x g p) h =
      done-IsCapped wq key _ (handle_err-IsCapped key q (get-IsCapped wq key c.queue q g h))
  Outcome-IsCapped w c (unbuilt key q s x g p b) h =
      done-IsCapped wq key _ (handle_err-IsCapped key q (get-IsCapped wq key c.queue q g h))

  Step-IsCapped :
      {c d : Controller wq.Queue} → Step wq keys c d → IsCapped wq c.queue → IsCapped wq d.queue
  unfolding on_add on_update on_delete shutdown
  Step-IsCapped {c} (added obj) h = enqueue_work-IsCapped obj c.queue h
  Step-IsCapped {c} (updated old_obj new_obj) h =
      ground (arith, enqueue_work-IsCapped new_obj c.queue h)
  Step-IsCapped {c} (deleted obj) h = enqueue_work-IsCapped obj c.queue h
  Step-IsCapped {c} (worked w) h =
      Outcome-IsCapped w c (process_next_work_item-Outcome wq keys w c) h
  Step-IsCapped {c} closed h = ground arith

  -- In every state that the controller reaches by events of the informers, work items and shutdowns,
  -- each key has been re-queued at most twelve times since it was last forgotten.
  pub Reach-IsCapped :
      {c d : Controller wq.Queue} → IsCapped wq c.queue → Reach wq keys c d → IsCapped wq d.queue
  Reach-IsCapped h start = h
  Reach-IsCapped h (later r st) = Step-IsCapped st (Reach-IsCapped h r)
