-- ===== src/Status/Waiting.antt =====
-- What waiters get, whatever is called while they wait.
use python_concurrency_examp.Prelude.{
  String, ◌≡◌, refl, ap, ◌∙◌, inl, inr, false, Option, some, none, List, [], ◌∷◌, arith, ◌==◌,
  is_some, Option-cases, Bool-cases,
}
use python_concurrency_examp.Prelude.Int.{ℤ, pos, ◌≤ℤ◌}
use python_concurrency_examp.Python.{Result, ok, err, timeout_error}
use python_concurrency_examp.Python.Dict.{lookup}
use python_concurrency_examp.Status.{
  AsyncPaymentStatus, PaymentResult, found_state, state_for, result_for, found_result, begin_wait,
  negative, Call, step, run, held_state, read_result, sleep, await_event, wait_for_result,
}
use python_concurrency_examp.Status.Results.{
  IsSound, known, run-known, step-Moves, Moves-IsSound, Moves-known, begin_wait-Moves,
  result_for-known, known-result_for,
}

held-event :
    (k : String) (s : AsyncPaymentStatus) → IsSound s → (held_state k s).event ≡ is_some (known k s)
unfolding held_state
held-event k s h = elim (Option-cases (lookup k s.states)) [
  | inl free ↦ ground arith
  | inr (st, e) ↦ ground (arith, (h k st e).0)
]

-- What a wait that is not answered by its end gives.
abbrev pub expired : Option ℤ → Option (Result PaymentResult)
expired none = none
expired (some t) = some (err (timeout_error ""))

sleep_lem :
    (timeout : Option ℤ) (k : String) (cs : List Call) (s : AsyncPaymentStatus)
    → IsSound s
    → sleep timeout k cs s
      ≡ elim (known k (run cs s)) [ some r ↦ some (ok r) | none ↦ expired timeout ]
unfolding sleep run held_state read_result
sleep_lem none k [] s h = ground (arith, held-event k s h)
sleep_lem (some t) k [] s h = ground (arith, held-event k s h)
sleep_lem timeout k (c ∷ cs) s h = elim (Option-cases (known k s)) [
  | inl free ↦ ground (
    arith,
    held-event k s h,
    sleep_lem timeout k cs (step c s) (Moves-IsSound s (step c s) (step-Moves c s) h),
  )
  | inr (r, e) ↦ ground (arith, held-event k s h, run-known (c ∷ cs) s k r e)
]

-- The answer to a waiter who reads the result at the end of the wait.
abbrev pub answer : Option ℤ → Result (Option PaymentResult) → Option (Result PaymentResult)
answer timeout (err e) = some (err e)
answer timeout (ok (some r)) = some (ok r)
answer timeout (ok none) = expired timeout

begin_wait-IsSound :
    (k : String) (t : Option ℤ) (s : AsyncPaymentStatus) → IsSound s → IsSound (begin_wait k t s).1
begin_wait-IsSound k t s h = Moves-IsSound s (begin_wait k t s).1 (begin_wait-Moves k t s) h

read-answer :
    (timeout : Option ℤ) (k : String) (s : AsyncPaymentStatus)
    → k == "" ≡ false
    → (elim (known k s) [ some r ↦ some (ok r) | none ↦ expired timeout ])
      ≡ answer timeout (result_for k s).0
unfolding result_for found_result
read-answer timeout k s named = elim (Option-cases (lookup k s.states)) [
  | inl free ↦ ground arith
  | inr (st, e) ↦ elim (Option-cases st.result) [
    | inl free ↦ ground arith
    | inr (r, e') ↦ ground arith
  ]
]

begun :
    (timeout : Option ℤ) (k : String) (cs : List Call) (s : AsyncPaymentStatus)
    → k == "" ≡ false
    → negative timeout ≡ false
    → wait_for_result k timeout cs s ≡ await_event timeout k cs (begin_wait k timeout s).1
unfolding wait_for_result begin_wait state_for found_state
begun timeout k cs s named valid = elim (Option-cases (lookup k s.states)) [
  | inl free ↦ ground arith
  | inr (st, e) ↦ ground arith
]

await_event_lem :
    (timeout : Option ℤ) (k : String) (cs : List Call) (s : AsyncPaymentStatus)
    → IsSound s
    → ((t : ℤ) → timeout ≡ some t → pos 1 ≤ℤ t)
    → k == "" ≡ false
    → (negative timeout ≡ false)
      × (await_event timeout k cs s ≡ answer timeout (result_for k (run cs s)).0)
unfolding negative await_event
await_event_lem none k cs s h positive named =
    (refl, sleep_lem none k cs s h ∙ read-answer none k (run cs s) named)
await_event_lem (some t) k cs s h positive named =
    let above = positive t refl in
    let slept = sleep_lem (some t) k cs s h ∙ read-answer (some t) k (run cs s) named in
    (ground arith, ground (arith, slept))

-- In a sound tracker, with no timeout or with a positive one, a waiter gets what `result_for`
-- returns at the end of the wait, whatever was called meanwhile: the result, or without one a
-- TimeoutError if there is a timeout, and else it waits on.
pub wait_for_result_lem :
    (timeout : Option ℤ) (k : String) (cs : List Call) (s : AsyncPaymentStatus)
    → IsSound s
    → ((t : ℤ) → timeout ≡ some t → pos 1 ≤ℤ t)
    → wait_for_result k timeout cs s
      ≡ answer timeout (result_for k (run cs (begin_wait k timeout s).1)).0
unfolding wait_for_result begin_wait result_for
wait_for_result_lem timeout k cs s h positive = elim (Bool-cases (k == "")) [
  | inl empty ↦ ground arith
  | inr named ↦
      let (valid, waited) =
        await_event_lem timeout k cs (begin_wait k timeout s).1 (begin_wait-IsSound k timeout s h)
          positive named in
      begun timeout k cs s named valid ∙ waited
]

-- In a sound tracker a waiter with the timeout 0 gets a TimeoutError even when the payment has a
-- result, which a waiter without a timeout gets.
pub wait_for_result-zero :
    (k : String) (r : PaymentResult) (cs : List Call) (s : AsyncPaymentStatus)
    → IsSound s
    → (result_for k s).0 ≡ ok (some r)
    → (wait_for_result k (some (pos 0)) cs s ≡ some (err (timeout_error "")))
      × (wait_for_result k none cs s ≡ some (ok r))
unfolding await_event negative
wait_for_result-zero k r cs s h e =
    let (named, here) = result_for-known k s r e in
    let kept =
      run-known cs (begin_wait k none s).1 k r
        (Moves-known s (begin_wait k none s).1 k r (begin_wait-Moves k none s) here) in
    (
      begun (some (pos 0)) k cs s named refl,
      wait_for_result_lem none k cs s h (λ t q. cc)
          ∙ ap (answer none) (known-result_for k (run cs (begin_wait k none s).1) r named kept),
    )
