-- ===== src/Bounded.antt =====
-- boundedqueue/workqueue.py: a work queue of bounded capacity between producers and consumers.
pub mod System
pub mod Invariant
pub mod Handoff
mod Tests
use python_concurrency_examp.Prelude.{ℕ, Bool, Option, length}
use python_concurrency_examp.Prelude.Int.{ℤ, pos, pos_part, leb_ℤ}
use python_concurrency_examp.Python.{Result, ok, value_error, check}
use python_concurrency_examp.Python.Queue
use python_concurrency_examp.Python.Queue.{Queue, new_queue, Attempt}

pub record BoundedQueue (T : Type 0) : Type 0 where
  pub queue : Queue T

module _ {T : Type 0} where
  -- `__init__`
  pub create : ℤ → Result (BoundedQueue T)
  create capacity =
      check (leb_ℤ capacity (pos 0)) (value_error "capacity must be greater than zero")
        (ok (record { queue = new_queue (pos_part capacity) }))

  unfoldable pub put : T → Option ℤ → BoundedQueue T → Attempt (Unit {0}) × BoundedQueue T
  put item timeout b =
      let (r, q) = Queue.put_within item timeout b.queue in (r, record { queue = q })

  unfoldable pub get : Option ℤ → BoundedQueue T → Attempt T × BoundedQueue T
  get timeout b = let (r, q) = Queue.get_within timeout b.queue in (r, record { queue = q })

  unfoldable pub task_done : BoundedQueue T → Result (Unit {0}) × BoundedQueue T
  task_done b = let (r, q) = Queue.task_done b.queue in (r, record { queue = q })

  -- `join` that returns
  abbrev pub joined : BoundedQueue T → Bool
  joined b = Queue.joined b.queue

  unfoldable pub shutdown : Bool → BoundedQueue T → BoundedQueue T
  shutdown immediate b = record { queue = Queue.shutdown immediate b.queue }

  pub size : BoundedQueue T → ℕ
  size b = length b.queue.items
