-- ===== src/Status.antt =====
-- asyncpaymentstatus/status.py: one result for each payment, and tasks that wait for it. Tasks of one
-- event loop run one at a time; `wait_for_result` lets others run while it sleeps, and no other
-- method does.
pub mod Results
pub mod Waiting
mod Tests
use python_concurrency_examp.Prelude.{
  ℕ, String, Bool, true, false, not, Option, none, some, List, [], ◌∷◌, ◌==◌, if◌then◌else◌,
  is_some,
}
use python_concurrency_examp.Prelude.Int.{ℤ, pos, ltb_ℤ, leb_ℤ}
use python_concurrency_examp.Python.{
  Result, ok, err, Exc, value_error, runtime_error, timeout_error, Exec, pure, raise, gets,
  or_raise, raise_if, modify, ◌>>=◌, ◌>>◌,
}
use python_concurrency_examp.Python.Dict.{Dict, lookup, insert}

pub data PaymentOutcome : Type 0 where
  succeeded failed : PaymentOutcome

pub record PaymentResult : Type 0 where
  pub payment_id : String
  pub outcome : PaymentOutcome
  pub reason : Option String

-- `event` is whether the asyncio.Event is set.
pub record PaymentState : Type 0 where
  pub event : Bool
  pub result : Option PaymentResult

pub record AsyncPaymentStatus : Type 0 where
  pub states : Dict PaymentState

-- `__init__`
abbrev pub create : AsyncPaymentStatus
create = record { states = [] }

-- `_validate_payment_id`
abbrev pub validate_payment_id : String → Exec AsyncPaymentStatus (Unit {0})
validate_payment_id payment_id =
    raise_if (payment_id == "") (value_error "payment_id must not be empty")

-- A new `_PaymentState`, for a payment that has none.
abbrev pub pending : PaymentState
pending = record { event = false; result = none }

pub found_state : String → Option PaymentState → Exec AsyncPaymentStatus PaymentState
found_state payment_id (some state) = pure state
found_state payment_id none = do
  modify (λ s. record s { states = insert payment_id pending s.states })
  pure pending

-- `_state_for`
pub state_for : String → Exec AsyncPaymentStatus PaymentState
unfolding found_state
state_for payment_id = do
  state ← gets (λ s. lookup payment_id s.states)
  found_state payment_id state

-- `state.result = ...; state.event.set()` on the state object of the payment
abbrev pub complete : String → PaymentResult → AsyncPaymentStatus → AsyncPaymentStatus
complete payment_id result s = record s {
  states = insert payment_id (record { event = true; result = some result }) s.states;
}

pub mark_succeeded : String → Exec AsyncPaymentStatus Bool
unfolding state_for
mark_succeeded payment_id = do
  validate_payment_id payment_id
  state ← state_for payment_id
  if is_some state.result then pure false else do
    modify (
        complete payment_id
          (record { payment_id = payment_id; outcome = succeeded; reason = none }))
    pure true

pub mark_failed : String → String → Exec AsyncPaymentStatus Bool
unfolding state_for
mark_failed payment_id reason = do
  validate_payment_id payment_id
  raise_if (reason == "") (value_error "reason must not be empty")
  state ← state_for payment_id
  if is_some state.result then pure false else do
    modify (
        complete payment_id
          (record { payment_id = payment_id; outcome = failed; reason = some reason }))
    pure true

pub found_result : Option PaymentState → Option PaymentResult
found_result none = none
found_result (some state) = state.result

pub result_for : String → Exec AsyncPaymentStatus (Option PaymentResult)
unfolding found_result
result_for payment_id = do
  validate_payment_id payment_id
  gets (λ s. found_result (lookup payment_id s.states))

pub negative : Option ℤ → Bool
negative none = false
negative (some t) = ltb_ℤ t (pos 0)

-- `wait_for_result` up to its `await`
pub begin_wait : String → Option ℤ → Exec AsyncPaymentStatus PaymentState
unfolding negative state_for
begin_wait payment_id timeout = do
  validate_payment_id payment_id
  raise_if (negative timeout) (value_error "timeout must not be negative")
  state_for payment_id

-- The calls of other tasks.
pub data Call : Type 0 where
  succeeds waits reads : String → Call
  fails : String → String → Call

pub step : Call → AsyncPaymentStatus → AsyncPaymentStatus
step (succeeds payment_id) s = (mark_succeeded payment_id s).1
step (fails payment_id reason) s = (mark_failed payment_id reason s).1
step (waits payment_id) s = (begin_wait payment_id none s).1
step (reads payment_id) s = (result_for payment_id s).1

pub run : List Call → AsyncPaymentStatus → AsyncPaymentStatus
unfolding step
run [] s = s
run (c ∷ cs) s = run cs (step c s)

-- The event and the result of the state object that the waiter holds, which stays in the dict.
unfoldable pub held_state : String → AsyncPaymentStatus → PaymentState
held_state payment_id s = elim (lookup payment_id s.states) [ none ↦ pending | some state ↦ state ]

-- after the `await`
unfoldable pub read_result : PaymentState → Result PaymentResult
read_result state = elim state.result [
  | none ↦ err (runtime_error "payment event was set without a result")
  | some result ↦ ok result
]

-- The sleep on the event while other tasks make the calls `cs`; a timeout expires at their end, and
-- without one the waiter still sleeps, which is `none`.
pub sleep : Option ℤ → String → List Call → AsyncPaymentStatus → Option (Result PaymentResult)
unfolding step held_state read_result
sleep timeout payment_id [] s =
    if (held_state payment_id s).event
    then some (read_result (held_state payment_id s))
    else elim timeout [ none ↦ none | some t ↦ some (err (timeout_error "")) ]
sleep timeout payment_id (c ∷ cs) s =
    let woken = sleep timeout payment_id cs (step c s) in
    if (held_state payment_id s).event then some (read_result (held_state payment_id s)) else woken

-- `asyncio.wait_for(state.event.wait(), timeout)`: with a timeout of 0 the coroutine is cancelled
-- before it has started, and so does not see the event.
pub await_event : Option ℤ → String → List Call → AsyncPaymentStatus → Option (Result PaymentResult)
unfolding sleep
await_event none payment_id cs s = sleep none payment_id cs s
await_event (some t) payment_id cs s =
    if leb_ℤ t (pos 0) then some (err (timeout_error "")) else sleep (some t) payment_id cs s

-- What a waiter gets, where other tasks make the calls `cs` while it sleeps.
pub wait_for_result :
    String → Option ℤ → List Call → AsyncPaymentStatus → Option (Result PaymentResult)
unfolding begin_wait await_event
wait_for_result payment_id timeout cs s =
    let (started, s') = begin_wait payment_id timeout s in
    elim started [ err e ↦ some (err e) | ok state ↦ await_event timeout payment_id cs s' ]
