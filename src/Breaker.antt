-- ===== src/Breaker.antt =====
-- circuitbreaker/breaker.py: the circuit state behind a lock. `call` takes the lock twice, before
-- and after the partner operation, and other threads run in between. Times are readings of the
-- clock that the breaker is given, as integers of its resolution.
pub mod System
pub mod Invariant
pub mod Trips
pub mod Abort
mod Tests
use python_concurrency_examp.Prelude.{
  ℕ, suc, ◌+◌, String, Bool, true, false, Option, none, some, if◌then◌else◌,
}
use python_concurrency_examp.Prelude.Int.{ℤ, pos, ◌-ℤ◌, ltb_ℤ, leb_ℤ}
use python_concurrency_examp.Python.{
  Result, ok, err, value_error, runtime_error, circuit_open_error, Exc, Exec, check,
}

-- `opened` is the source's OPEN.
pub data CircuitState : Type 0 where
  closed opened half_open : CircuitState

pub record CircuitBreaker : Type 0 where
  pub failure_threshold : ℤ
  pub recovery_timeout : ℤ
  pub state : CircuitState
  pub consecutive_failures : ℕ
  pub opened_at : Option ℤ

-- `__init__`
pub create : ℤ → ℤ → Result CircuitBreaker
create failure_threshold recovery_timeout =
    check (leb_ℤ failure_threshold (pos 0))
      (value_error "failure_threshold must be greater than zero")
      (check (ltb_ℤ recovery_timeout (pos 0)) (value_error "recovery_timeout must not be negative")
        (ok (record {
          failure_threshold = failure_threshold;
          recovery_timeout = recovery_timeout;
          state = closed;
          consecutive_failures = 0;
          opened_at = none;
        })))

-- The tests of `_before_call` on the state and the opening time; `now` is the clock's reading.
admit : CircuitState → Option ℤ → ℤ → Exec CircuitBreaker CircuitState
admit closed opened_at now b = (ok closed, b)
admit half_open opened_at now b = (err (circuit_open_error "circuit is testing a trial call"), b)
admit opened none now b = (err (runtime_error "invalid circuit breaker state"), b)
admit opened (some t) now b =
    if ltb_ℤ (now -ℤ t) b.recovery_timeout
    then (err (circuit_open_error "circuit is open"), b)
    else (ok half_open, record b { state = half_open })

-- `_before_call`
pub before_call : ℤ → Exec CircuitBreaker CircuitState
unfolding admit
before_call now b = admit b.state b.opened_at now b

-- `_open`
open_circuit : ℤ → CircuitBreaker → CircuitBreaker
open_circuit now b = record b { state = opened; opened_at = some now }

close_circuit : CircuitBreaker → CircuitBreaker
close_circuit b = record b { state = closed; consecutive_failures = 0; opened_at = none }

-- `_record_success`, by the admitted and the current state
settle_success : CircuitState → CircuitState → CircuitBreaker → CircuitBreaker
unfolding close_circuit
settle_success closed closed b = close_circuit b
settle_success closed opened b = b
settle_success closed half_open b = b
settle_success opened _ b = close_circuit b
settle_success half_open _ b = close_circuit b

pub record_success : CircuitState → CircuitBreaker → CircuitBreaker
unfolding settle_success
record_success admitted_state b = settle_success admitted_state b.state b

count_failure : ℤ → CircuitBreaker → CircuitBreaker
unfolding open_circuit
count_failure now b =
    let counted = record b { consecutive_failures = b.consecutive_failures + 1 } in
    if leb_ℤ b.failure_threshold (pos (b.consecutive_failures + 1))
    then open_circuit now counted
    else counted

settle_failure : CircuitState → CircuitState → ℤ → CircuitBreaker → CircuitBreaker
unfolding open_circuit count_failure
settle_failure half_open _ now b = open_circuit now b
settle_failure closed closed now b = count_failure now b
settle_failure closed opened now b = b
settle_failure closed half_open now b = b
settle_failure opened closed now b = count_failure now b
settle_failure opened opened now b = b
settle_failure opened half_open now b = b

-- `_record_failure`
pub record_failure : CircuitState → ℤ → CircuitBreaker → CircuitBreaker
unfolding settle_failure
record_failure admitted_state now b = settle_failure admitted_state b.state now b

-- How the partner operation ends: it returns, raises an `Exception`, or is left by another
-- `BaseException` such as KeyboardInterrupt or a cancellation, which `except Exception` lets pass.
pub data Outcome {ℓ} (A : Type ℓ) : Type ℓ where
  returned : A → Outcome A
  raised aborted : Exc → Outcome A

-- The second half of `call`: what the end of the operation records.
pub complete {ℓ} : {A : Type ℓ} → CircuitState → ℤ → Outcome A → Exec CircuitBreaker A
complete admitted_state now (returned a) b = (ok a, record_success admitted_state b)
complete admitted_state now (raised e) b = (err e, record_failure admitted_state now b)
complete admitted_state now (aborted e) b = (err e, b)

-- `call`, where `operation` says how the call ends and how other threads have left the breaker by
-- then; `start` and `finish` are the clock's readings in the two halves.
pub call {ℓ} :
    {A : Type ℓ} → ℤ → ℤ → (CircuitBreaker → Outcome A × CircuitBreaker) → Exec CircuitBreaker A
unfolding complete
call start finish operation b =
    let (admission, b') = before_call start b in
    elim admission [
      | err e ↦ (err e, b')
      | ok admitted_state ↦ complete admitted_state finish (operation b').0 (operation b').1
    ]
