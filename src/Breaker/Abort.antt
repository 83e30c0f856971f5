-- ===== src/Breaker/Abort.antt =====
-- A trial call that is left by a `BaseException` which is no `Exception`.
use python_concurrency_examp.Prelude.{◌≤◌, ◌<◌, ◌≡◌, arith}
use python_concurrency_examp.Prelude.Int.{ℤ}
use python_concurrency_examp.Python.{ok, err, circuit_open_error}
use python_concurrency_examp.Breaker.{CircuitBreaker, half_open, create, before_call}
use python_concurrency_examp.Breaker.System.{
  System, Step, admit_normal, admit_trial, reject, normal_success, normal_failure, normal_abort,
  trial_success, trial_failure, trial_abort, Reach, here, next, idle,
}
use python_concurrency_examp.Breaker.Invariant.{Inv, create-Inv, Reach-Inv}

Step-lost : {s t : System} → Step s t → s.lost ≤ t.lost
Step-lost (admit_normal now e) = omega arith
Step-lost (admit_trial now e) = omega arith
Step-lost (reject now x e) = omega arith
Step-lost (normal_success e) = omega arith
Step-lost (normal_failure now e) = omega arith
Step-lost (normal_abort e) = omega arith
Step-lost (trial_success e) = omega arith
Step-lost (trial_failure now e) = omega arith
Step-lost (trial_abort e) = omega arith

Reach-lost : {s t : System} → Reach s t → s.lost ≤ t.lost
Reach-lost here = omega arith
Reach-lost (next r st) = omega (arith, Reach-lost r, Step-lost st)

lost-half_open : (s : System) → Inv s → 0 < s.lost → s.breaker.state ≡ half_open
lost-half_open s v gone = ground (arith, v.no_trial)

-- Once a trial call has ended by a `BaseException` that is no `Exception`, every later call is
-- refused for good, at any clock reading and whatever the callers do meanwhile.
pub abort-locks_out :
    (n r now : ℤ) (b : CircuitBreaker) {s t : System}
    → create n r ≡ ok b
    → Reach (idle b) s
    → 0 < s.lost
    → Reach s t
    → before_call now t.breaker
      ≡ (err (circuit_open_error "circuit is testing a trial call"), t.breaker)
unfolding before_call
abort-locks_out n r now b {s} {t} made before gone after =
    let v = Reach-Inv (Reach-Inv (create-Inv n r b made) before) after in
    rw (lost-half_open t v (omega (arith, Reach-lost after)))
