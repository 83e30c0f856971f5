-- ===== src/Payment/Idempotence.antt =====
-- Duplicate deliveries of one event.
use python_concurrency_examp.Prelude.{String, ◌≡◌, true, false, List, [], ◌∷◌, arith, ◌==◌, eq_refl}
use python_concurrency_examp.Prelude.Int.{ℤ, pos, ◌<ℤ◌}
use python_concurrency_examp.Python.{ok}
use python_concurrency_examp.Python.StrSet.{mem, mem-add}
use python_concurrency_examp.Payment.{PaymentWebhookProcessor, process, Delivery, run}

process-keeps :
    (k j : String) (a : ℤ) (p : PaymentWebhookProcessor)
    → mem k p.processed_event_ids ≡ true
    → mem k (process j a p).1.processed_event_ids ≡ true
unfolding process
process-keeps k j a p h = ground (arith, mem-add j k p.processed_event_ids)

run-keeps :
    (k : String) (ds : List Delivery) (p : PaymentWebhookProcessor)
    → mem k p.processed_event_ids ≡ true
    → mem k (run ds p).processed_event_ids ≡ true
unfolding run
run-keeps k [] p h = h
run-keeps k ((j, a) ∷ ds) p h = run-keeps k ds (process j a p).1 (process-keeps k j a p h)

process-applied :
    (k : String) (a : ℤ) (p : PaymentWebhookProcessor)
    → (process k a p).0 ≡ ok true
    → ((k == "") ≡ false) × (mem k (process k a p).1.processed_event_ids ≡ true)
unfolding process
process-applied k a p h = ground (arith, mem-add k k p.processed_event_ids, eq_refl k)

process-again :
    (k : String) (a : ℤ) (p : PaymentWebhookProcessor)
    → (k == "") ≡ false
    → mem k p.processed_event_ids ≡ true
    → pos 0 <ℤ a
    → process k a p ≡ (ok false, p)
unfolding process
process-again k a p named seen positive = ground arith

-- Once a delivery of an event was applied, every later delivery of it, after any other deliveries
-- and with any positive amount, returns False and changes nothing.
process-once :
    (k : String) (a a' : ℤ) (ds : List Delivery) (p : PaymentWebhookProcessor)
    → (process k a p).0 ≡ ok true
    → pos 0 <ℤ a'
    → process k a' (run ds (process k a p).1) ≡ (ok false, run ds (process k a p).1)
process-once k a a' ds p applied positive =
    let (named, seen) = process-applied k a p applied in
    process-again k a' (run ds (process k a p).1) named (run-keeps k ds _ seen) positive
