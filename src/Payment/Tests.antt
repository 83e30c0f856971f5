-- ===== src/Payment/Tests.antt =====
-- Runs of the processor, and its theorems at inputs that meet their hypotheses.
use python_concurrency_examp.Prelude.{◌≡◌, refl, true, List, [], ◌∷◌, length}
use python_concurrency_examp.Prelude.Int.{pos, negsuc, ◌+ℤ◌}
use python_concurrency_examp.Python.{ok, err, value_error}
use python_concurrency_examp.Python.StrSet.{mem, add}
use python_concurrency_examp.Payment.{create, process, summary, Delivery, run}
use python_concurrency_examp.Payment.Totals.{firsts, amounts, run-summary}

-- The second delivery of evt-1 and the refund of evt-3 do not count.
abbrev deliveries : List Delivery
deliveries = ("evt-1", pos 500) ∷ ("evt-2", pos 20) ∷ ("evt-1", pos 500) ∷ ("evt-3", negsuc 4) ∷ []

deliveries-run :
    (summary (run deliveries create)).0
    ≡ ok (record { processed_events = 2; total_cents = pos 520 })
unfolding summary run process mem add ◌+ℤ◌
deliveries-run = refl

refund_refused :
    (process "evt-3" (negsuc 4) create).0
    ≡ err (value_error "amount_cents must be greater than zero")
unfolding process
refund_refused = refl

first_applied : (process "evt-1" (pos 500) create).0 ≡ ok true
unfolding process mem
first_applied = refl

run-summary_example :
    (summary (run deliveries create)).0
    ≡ ok (record {
      processed_events = length (firsts deliveries);
      total_cents = amounts (firsts deliveries);
    })
run-summary_example = run-summary deliveries
