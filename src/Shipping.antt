-- ===== src/Shipping.antt =====
-- asyncshippingqueue/queue.py: shipments in an asyncio.PriorityQueue. Tasks run one at a time between
-- awaits, and `submit` never waits: nothing awaits under its lock, and the queue has no capacity.
pub mod Order
pub mod System
mod Tests
use python_concurrency_examp.Prelude.{
  ℕ, zero, suc, String, Bool, true, false, Option, none, some, List, [], ◌∷◌, ◌==◌, length,
  if◌then◌else◌,
}
use python_concurrency_examp.Prelude.Int.{ℤ, pos, ltb_ℤ, leb_ℤ}
use python_concurrency_examp.Python.{Result, ok, err, value_error, Exec, check}
use python_concurrency_examp.Python.PriorityQueue.{Entry, PriorityQueue, put, get_nowait}
use python_concurrency_examp.Python.PriorityQueue
use python_concurrency_examp.Python.Queue.{Attempt, waits, ends}

pub record ShipmentJob : Type 0 where
  pub shipment_id : String
  pub order_id : String
  pub priority : ℤ
  pub carrier : String

-- `ShipmentJob(...)` with its `__post_init__`
pub create_job : String → String → ℤ → String → Result ShipmentJob
create_job shipment_id order_id priority carrier =
    check (shipment_id == "") (value_error "shipment_id must not be empty") (
      check (order_id == "") (value_error "order_id must not be empty") (
        check (ltb_ℤ priority (pos 0)) (value_error "priority must not be negative") (
          check (carrier == "") (value_error "carrier must not be empty") (
            ok (record {
              shipment_id = shipment_id;
              order_id = order_id;
              priority = priority;
              carrier = carrier;
            })))))

pub record AsyncShippingQueue : Type 0 where
  pub queue : PriorityQueue ShipmentJob
  pub next_sequence : ℕ

-- `__init__`
abbrev pub create : AsyncShippingQueue
create = record { queue = record { entries = []; unfinished = 0 }; next_sequence = 0 }

abbrev pub numbered : ℕ → ShipmentJob → Entry ShipmentJob
numbered sequence job = record { priority = job.priority; sequence = sequence; value = job }

unfoldable pub submit : ShipmentJob → AsyncShippingQueue → AsyncShippingQueue
submit job s = record {
  queue = put (numbered s.next_sequence job) s.queue;
  next_sequence = suc s.next_sequence;
}

-- `await self._queue.get()`, at its start and whenever it is woken
unfoldable pub await_get : AsyncShippingQueue → Attempt (Option ShipmentJob) × AsyncShippingQueue
await_get s =
    let (found, q) = get_nowait s.queue in
    elim found [ none ↦ (waits, s) | some e ↦ (ends (ok (some e.value)), record s { queue = q }) ]

-- `asyncio.wait_for(self._queue.get(), timeout)`: with a timeout of 0 the coroutine is cancelled
-- before it has started, and so takes nothing from the queue.
unfoldable pub wait_for_get :
    Option ℤ → AsyncShippingQueue → Attempt (Option ShipmentJob) × AsyncShippingQueue
wait_for_get none s = await_get s
wait_for_get (some t) s =
    let found = await_get s in if leb_ℤ t (pos 0) then (ends (ok none), s) else found

abbrev pub negative : Option ℤ → Bool
negative none = false
negative (some t) = ltb_ℤ t (pos 0)

-- `dispatch_next`, where `waits` may end in None when the timeout expires
unfoldable pub dispatch_next :
    Option ℤ → AsyncShippingQueue → Attempt (Option ShipmentJob) × AsyncShippingQueue
dispatch_next timeout s =
    if negative timeout
    then (ends (err (value_error "timeout must not be negative")), s)
    else wait_for_get timeout s

pub task_done : Exec AsyncShippingQueue (Unit {0})
task_done s = let (r, q) = PriorityQueue.task_done s.queue in (r, record s { queue = q })

-- Whether `join` returns, or is still suspended.
pub joined : AsyncShippingQueue → Bool
joined s = elim s.queue.unfinished [ zero ↦ true | suc n ↦ false ]

pub size : AsyncShippingQueue → ℕ
size s = length s.queue.entries
