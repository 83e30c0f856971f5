-- ===== src/Status/Tests.antt =====
-- Runs of the payment status, and its theorems at inputs that meet their hypotheses.
use python_concurrency_examp.Prelude.{◌≡◌, refl, subst, true, none, some, List, [], ◌∷◌, arith}
use python_concurrency_examp.Prelude.Int.{ℤ, pos, ◌≤ℤ◌}
use python_concurrency_examp.Python.{ok, err, value_error, timeout_error}
use python_concurrency_examp.Python.Dict.{lookup, insert}
use python_concurrency_examp.Status.{
  AsyncPaymentStatus, PaymentResult, succeeded, failed, create, mark_succeeded, mark_failed,
  state_for, found_state, begin_wait, negative, result_for, found_result, Call, succeeds, fails,
  waits, step, run, held_state, read_result, sleep, await_event, wait_for_result, pending,
}
use python_concurrency_examp.Status.Results.{IsSound, create-run-IsSound}
use python_concurrency_examp.Status.Waiting.{wait_for_result_lem, wait_for_result-zero, answer}

-- One payment has failed, and another one is awaited.
abbrev calls : List Call
calls = fails "p1" "card declined" ∷ waits "p2" ∷ []

abbrev declined : PaymentResult
declined = record { payment_id = "p1"; outcome = failed; reason = some "card declined" }

abbrev after_calls : AsyncPaymentStatus
after_calls = record {
  states = ("p1", record { event = true; result = some declined }) ∷ ("p2", pending) ∷ [];
}

calls_run : run calls create ≡ after_calls
unfolding run step mark_failed begin_wait state_for found_state lookup insert negative
calls_run = refl

no_reason : (mark_failed "p1" "" create).0 ≡ err (value_error "reason must not be empty")
unfolding mark_failed
no_reason = refl

woken :
    wait_for_result "p2" none (fails "p1" "late" ∷ succeeds "p2" ∷ []) after_calls
    ≡ some (ok (record { payment_id = "p2"; outcome = succeeded; reason = none }))
unfolding wait_for_result await_event sleep begin_wait state_for found_state lookup insert step
    mark_failed mark_succeeded held_state read_result negative
woken = refl

after_calls-IsSound : IsSound after_calls
unfolding run step mark_failed begin_wait state_for found_state lookup insert negative
after_calls-IsSound = create-run-IsSound calls

is_declined : (result_for "p1" after_calls).0 ≡ ok (some declined)
unfolding result_for found_result lookup
is_declined = refl

minute_positive : (t : ℤ) → some (pos 60) ≡ some t → pos 1 ≤ℤ t
minute_positive t e = let same : pos 60 ≡ t = cc in subst (λ u. pos 1 ≤ℤ u) same (omega arith)

wait_for_result_lem_example :
    wait_for_result "p2" (some (pos 60)) (succeeds "p2" ∷ []) after_calls
    ≡ answer
        (some (pos 60))
        (result_for "p2"
          (run (succeeds "p2" ∷ []) (begin_wait "p2" (some (pos 60)) after_calls).1)).0
wait_for_result_lem_example =
    wait_for_result_lem (some (pos 60)) "p2" (succeeds "p2" ∷ []) after_calls after_calls-IsSound
      minute_positive

wait_for_result-zero_example :
    (wait_for_result "p1" (some (pos 0)) [] after_calls ≡ some (err (timeout_error "")))
    × (wait_for_result "p1" none [] after_calls ≡ some (ok declined))
wait_for_result-zero_example =
    wait_for_result-zero "p1" declined [] after_calls after_calls-IsSound is_declined
