-- ===== src/Breaker/Trips.antt =====
-- When the circuit opens, how long it fails fast, and how it recovers.
use python_concurrency_examp.Prelude.{suc, ◌+◌, ◌≡◌, refl, some, List, [], ◌∷◌, ◌++◌, length, arith}
use python_concurrency_examp.Prelude.Int.{ℤ, pos, ◌≤ℤ◌, ◌<ℤ◌, ◌-ℤ◌}
use python_concurrency_examp.Python.{ok, err, circuit_open_error, Exc}
use python_concurrency_examp.Breaker.{
  CircuitBreaker, closed, opened, half_open, create, before_call, record_success, record_failure,
  Outcome, returned, raised, complete, call,
}

-- Calls admitted while CLOSED fail one after the other, at these clock readings.
abbrev pub fail_all : List ℤ → CircuitBreaker → CircuitBreaker
fail_all [] b = b
fail_all (t ∷ ts) b = fail_all ts (record_failure closed t b)

record_failure-below :
    (t : ℤ) (b : CircuitBreaker)
    → b.state ≡ closed
    → pos (b.consecutive_failures + 1) <ℤ b.failure_threshold
    → record_failure closed t b ≡ record b { consecutive_failures = b.consecutive_failures + 1 }
unfolding record_failure
record_failure-below t b c below = ground arith

fail_all-below :
    (ts : List ℤ) (b : CircuitBreaker)
    → b.state ≡ closed
    → pos (b.consecutive_failures + length ts) <ℤ b.failure_threshold
    → fail_all ts b ≡ record b { consecutive_failures = b.consecutive_failures + length ts }
fail_all-below [] b c below = ground arith
fail_all-below (t ∷ ts) b c below =
    let b' = record b { consecutive_failures = b.consecutive_failures + 1 } in
    rw (record_failure-below t b c (omega arith))
      (ground (arith, fail_all-below ts b' c (omega arith)))

fail_all-append :
    (ts : List ℤ) (t : ℤ) (b : CircuitBreaker)
    → fail_all (ts ++ t ∷ []) b ≡ record_failure closed t (fail_all ts b)
fail_all-append [] t b = refl
fail_all-append (x ∷ ts) t b = fail_all-append ts t (record_failure closed x b)

record_failure-trips :
    (t : ℤ) (b : CircuitBreaker)
    → b.state ≡ closed
    → b.failure_threshold ≤ℤ pos (b.consecutive_failures + 1)
    → record_failure closed t b ≡ record b {
      state = opened;
      opened_at = some t;
      consecutive_failures = b.consecutive_failures + 1;
    }
unfolding record_failure
record_failure-trips t b c above = ground arith

-- A new breaker stays CLOSED through fewer consecutive failures than its threshold, which it
-- counts, and the failure that reaches the threshold opens it at that failure's clock reading.
pub create-fail_all :
    (n r t : ℤ) (ts : List ℤ) (b : CircuitBreaker)
    → create n r ≡ ok b
    → (pos (length ts) <ℤ n
        → ((fail_all ts b).state ≡ closed) × ((fail_all ts b).consecutive_failures ≡ length ts))
      × (pos (suc (length ts)) ≡ n
          → ((fail_all (ts ++ t ∷ []) b).state ≡ opened)
            × ((fail_all (ts ++ t ∷ []) b).opened_at ≡ some t))
unfolding create
create-fail_all n r t ts b made = (
  λ below. ground (arith, fail_all-below ts b),
  λ reached.
      ground (
        arith,
        fail_all-append ts t b,
        fail_all-below ts b,
        record_failure-trips t (fail_all ts b),
      ),
)

-- While OPEN and before the recovery timeout has passed, `call` fails fast: it raises
-- CircuitOpenError and changes nothing, whatever the operation would do.
pub call-fails_fast {ℓ} :
    {A : Type ℓ} (start finish t : ℤ) (b : CircuitBreaker)
    (operation : CircuitBreaker → Outcome A × CircuitBreaker)
    → b.state ≡ opened
    → b.opened_at ≡ some t
    → (start -ℤ t) <ℤ b.recovery_timeout
    → call start finish operation b ≡ (err (circuit_open_error "circuit is open"), b)
unfolding call before_call
call-fails_fast start finish t b operation is_open stamped early = ground arith

-- Once the recovery timeout has passed, `call` runs the operation as the trial: every other call
-- that begins before the trial ends is refused, and the trial decides. Success closes the circuit
-- and clears the count; failure opens it anew from the clock's reading at the end.
pub call-trial {ℓ} :
    {A : Type ℓ} (start now finish t : ℤ) (b : CircuitBreaker)
    (operation : CircuitBreaker → Outcome A × CircuitBreaker)
    → b.state ≡ opened
    → b.opened_at ≡ some t
    → b.recovery_timeout ≤ℤ (start -ℤ t)
    → let trial = record b { state = half_open } in
      (before_call now trial ≡ (err (circuit_open_error "circuit is testing a trial call"), trial))
      × ((a : A)
          → (operation trial).0 ≡ returned a
          → ((call start finish operation b).0 ≡ ok a)
            × ((call start finish operation b).1.state ≡ closed)
            × ((call start finish operation b).1.consecutive_failures ≡ 0))
      × ((e : Exc)
          → (operation trial).0 ≡ raised e
          → ((call start finish operation b).0 ≡ err e)
            × ((call start finish operation b).1.state ≡ opened)
            × ((call start finish operation b).1.opened_at ≡ some finish))
unfolding call before_call complete record_success record_failure
call-trial start now finish t b operation is_open stamped late =
    (refl, λ a ends. ground arith, λ e ends. ground arith)
