-- ===== src/Breaker/Invariant.antt =====
-- The breaker under every interleaving of callers.
use python_concurrency_examp.Prelude.{◌+◌, ◌≤◌, ◌<◌, ◌≡◌, ◌≢◌, none, arith}
use python_concurrency_examp.Prelude.Int.{ℤ, pos, ◌<ℤ◌}
use python_concurrency_examp.Python.{ok, err, runtime_error}
use python_concurrency_examp.Breaker.{
  CircuitBreaker, closed, half_open, create, before_call, record_success, record_failure,
}
use python_concurrency_examp.Breaker.System.{
  System, Step, admit_normal, admit_trial, reject, normal_success, normal_failure, normal_abort,
  trial_success, trial_failure, trial_abort, Reach, here, next, idle,
}

pub record Inv (s : System) : Type 0 where
  pub trial : s.breaker.state ≡ half_open → s.trials + s.lost ≡ 1
  pub no_trial : s.breaker.state ≢ half_open → s.trials + s.lost ≡ 0
  pub below :
      s.breaker.state ≡ closed → pos s.breaker.consecutive_failures <ℤ s.breaker.failure_threshold
  pub tripped :
      s.breaker.state ≢ closed → s.breaker.failure_threshold ≡ pos s.breaker.consecutive_failures
  pub stamped : s.breaker.state ≢ closed → s.breaker.opened_at ≢ none
  pub unstamped : s.breaker.state ≡ closed → s.breaker.opened_at ≡ none
  pub positive : pos 0 <ℤ s.breaker.failure_threshold

pub create-Inv : (n r : ℤ) (b : CircuitBreaker) → create n r ≡ ok b → Inv (idle b)
unfolding create
create-Inv n r b h = ground arith

Step-Inv : {s t : System} → Step s t → Inv s → Inv t
unfolding before_call record_success record_failure
Step-Inv (admit_normal now e) v = ground arith
Step-Inv (admit_trial now e) v = ground arith
Step-Inv (reject now x e) v = ground arith
Step-Inv (normal_success e) v = ground arith
Step-Inv (normal_failure now e) v = ground arith
Step-Inv (normal_abort e) v = ground arith
Step-Inv (trial_success e) v = ground arith
Step-Inv (trial_failure now e) v = ground arith
Step-Inv (trial_abort e) v = ground arith

pub Reach-Inv : {s t : System} → Inv s → Reach s t → Inv t
Reach-Inv v here = v
Reach-Inv v (next r st) = Step-Inv st (Reach-Inv v r)

-- However the calls of any number of threads interleave, the breaker never has two trial calls in
-- flight, it has one only in state HALF_OPEN, and while CLOSED the failures stay below the threshold.
pub Reach-single_trial :
    (n r : ℤ) (b : CircuitBreaker) {s : System}
    → create n r ≡ ok b
    → Reach (idle b) s
    → (s.trials ≤ 1)
      × (0 < s.trials → s.breaker.state ≡ half_open)
      × (s.breaker.state ≡ closed
          → pos s.breaker.consecutive_failures <ℤ s.breaker.failure_threshold)
Reach-single_trial n r b {s} made reach =
    let v = Reach-Inv (create-Inv n r b made) reach in trial_bounds s v
  where
    trial_bounds :
        (s : System)
        → Inv s
        → (s.trials ≤ 1)
          × (0 < s.trials → s.breaker.state ≡ half_open)
          × (s.breaker.state ≡ closed
              → pos s.breaker.consecutive_failures <ℤ s.breaker.failure_threshold)
    trial_bounds s v = ground arith

-- The RuntimeError of `_before_call` cannot be raised: an OPEN circuit always has its opening time.
before_call-ne-invalid :
    (n r now : ℤ) (b : CircuitBreaker) (s : System)
    → create n r ≡ ok b
    → Reach (idle b) s
    → (before_call now s.breaker).0 ≢ err (runtime_error "invalid circuit breaker state")
unfolding before_call
before_call-ne-invalid n r now b s made reach =
    let v = Reach-Inv (create-Inv n r b made) reach in ground (arith, v.stamped)
