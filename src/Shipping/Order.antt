-- ===== src/Shipping/Order.antt =====
-- asyncshippingqueue/queue.py: the order in which shipments are dispatched.
use python_concurrency_examp.Prelude.{ℕ, zero, suc, Option, none, some, List, [], ◌∷◌}
use python_concurrency_examp.Python.{ok}
use python_concurrency_examp.Python.PriorityQueue.{Entry}
use python_concurrency_examp.Python.Queue.{Attempt, waits, ends}
use python_concurrency_examp.Shipping.{
  ShipmentJob, AsyncShippingQueue, numbered, submit, dispatch_next,
}

-- The jobs submitted one after another.
abbrev pub submit_all : List ShipmentJob → AsyncShippingQueue → AsyncShippingQueue
submit_all [] s = s
submit_all (j ∷ js) s = submit_all js (submit j s)

abbrev dispatched : Attempt (Option ShipmentJob) → List ShipmentJob → List ShipmentJob
dispatched waits rest = []
dispatched (ends (ok (some j))) rest = j ∷ rest
dispatched (ends _) rest = []

-- The jobs that n calls of `dispatch_next` without a timeout return, up to the first that waits.
unfoldable pub dispatch_all : ℕ → AsyncShippingQueue → List ShipmentJob
dispatch_all zero s = []
dispatch_all (suc n) s =
    let (found, left) = dispatch_next none s in
    let rest = dispatch_all n left in dispatched found rest

-- The entries of jobs that are submitted from the number k on.
abbrev pub numbered_from : ℕ → List ShipmentJob → List (Entry ShipmentJob)
numbered_from k [] = []
numbered_from k (j ∷ js) = numbered k j ∷ numbered_from (suc k) js
