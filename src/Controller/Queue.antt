-- ===== src/Controller/Queue.antt =====
-- What pkg/controller uses of client-go: the rate-limited work queue and the keys of objects.
use maesh.Common.{ℕ, suc, false, String, Option, some, ◌≡◌, ◌==◌, string_eq, if◌then◌else◌}
use maesh.Common.Text.{has_infix}

-- What `Get` gives when it returns.
pub data Got (Queue : Type 0) : Type 0 where
  shut_down : Got Queue
  item : String → Queue → Got Queue

-- workqueue.RateLimitingInterface; `NumRequeues` counts the calls of `AddRateLimited` since the last
-- `Forget` of the same key, and nothing else changes it. `shut` is ShutDown.
pub record WorkQueue : Type 1 where
  pub Queue : Type 0
  pub get : Queue → Got Queue
  pub add : String → Queue → Queue
  pub add_rate_limited : String → Queue → Queue
  pub num_requeues : String → Queue → ℕ
  pub forget : String → Queue → Queue
  pub done : String → Queue → Queue
  pub shut : Queue → Queue
  pub get_requeues :
      (k l : String) (q q' : Queue) → get q ≡ item l q' → num_requeues k q' ≡ num_requeues k q
  pub add_requeues : (k l : String) (q : Queue) → num_requeues k (add l q) ≡ num_requeues k q
  pub done_requeues : (k l : String) (q : Queue) → num_requeues k (done l q) ≡ num_requeues k q
  pub add_rate_limited_requeues :
      (k l : String) (q : Queue)
      → num_requeues k (add_rate_limited l q)
        ≡ (if l == k then suc (num_requeues k q) else num_requeues k q)
  pub forget_requeues :
      (k l : String) (q : Queue)
      → num_requeues k (forget l q) ≡ (if l == k then 0 else num_requeues k q)

-- cache.MetaNamespaceKeyFunc and cache.SplitMetaNamespaceKey, on a namespace and a name; splitting a
-- key gives back the two, as no name of an object has a slash; a key without a slash has no namespace.
pub record ObjectKeys : Type 0 where
  pub meta_key : String → String → String
  pub split_key : String → Option (String × String)
  pub split_meta :
      (namespace name : String)
      → has_infix namespace "/" ≡ false
      → has_infix name "/" ≡ false
      → split_key (meta_key namespace name) ≡ some (namespace, name)
  pub split_plain : (name : String) → has_infix name "/" ≡ false → split_key name ≡ some ("", name)
