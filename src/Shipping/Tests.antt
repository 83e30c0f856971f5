-- ===== src/Shipping/Tests.antt =====
-- Two shipments, of which the later one is express.
use python_concurrency_examp.Prelude.{◌≡◌, refl, none, some, List, [], ◌∷◌, Star, here, next}
use python_concurrency_examp.Prelude.Int.{pos}
use python_concurrency_examp.Python.{ok}
use python_concurrency_examp.Python.PriorityQueue.{extract, take_least, get_nowait, comes_before}
use python_concurrency_examp.Python.Queue.{ends}
use python_concurrency_examp.Shipping.{
  ShipmentJob, AsyncShippingQueue, create, numbered, submit, await_get, wait_for_get, dispatch_next,
}
use python_concurrency_examp.Shipping.System.{
  System, Step, submits, dispatches, gets_none, fresh, dispatch_next-zero,
}

abbrev economy : ShipmentJob
economy = record { shipment_id = "s1"; order_id = "o1"; priority = pos 5; carrier = "slow" }

abbrev express : ShipmentJob
express = record { shipment_id = "s2"; order_id = "o2"; priority = pos 1; carrier = "fast" }

abbrev one_left : System
one_left = record {
  shipping = record {
    queue = record { entries = numbered 0 economy ∷ []; unfinished = 2 };
    next_sequence = 2;
  };
  submitted = economy ∷ express ∷ [];
  dispatched = express ∷ [];
}

to_one_left : Star Step fresh one_left
unfolding submit dispatch_next wait_for_get await_get get_nowait take_least extract comes_before
to_one_left =
    next
      (next (next (next here (submits economy)) (submits express))
        (gets_none (some (pos 0)) _ tt refl))
      (dispatches (some (pos 3)) express refl)

dispatch_next-zero_example :
    (dispatch_next (some (pos 0)) (submit express create) ≡ (ends (ok none), submit express create))
    × ((j : ShipmentJob) × (q : AsyncShippingQueue) × (dispatch_next none (submit express create)
          ≡ (ends (ok (some j)), q)))
dispatch_next-zero_example = dispatch_next-zero express create
