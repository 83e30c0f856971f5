-- ===== src/Breaker/Tests.antt =====
-- Runs of the breaker, and its theorems at inputs that meet their hypotheses. The concrete breaker
-- opens at the second failure and cools down for ten ticks.
use python_concurrency_examp.Prelude.{
  ℕ, suc, ◌≤◌, ◌<◌, ◌≡◌, refl, some, none, [], ◌∷◌, length, arith,
}
use python_concurrency_examp.Prelude.Int.{pos, ◌-ℤ◌, ◌<ℤ◌}
use python_concurrency_examp.Python.{ok, err, app_error, value_error, circuit_open_error}
use python_concurrency_examp.Breaker.{
  CircuitBreaker, closed, opened, half_open, create, before_call, record_failure, Outcome, returned,
  raised, call,
}
use python_concurrency_examp.Breaker.System.{
  System, admit_normal, admit_trial, normal_failure, trial_abort, Reach, here, next, idle,
}
use python_concurrency_examp.Breaker.Invariant.{Reach-single_trial}
use python_concurrency_examp.Breaker.Trips.{fail_all, create-fail_all}
use python_concurrency_examp.Breaker.Abort.{abort-locks_out}

abbrev fresh : CircuitBreaker
fresh = record {
  failure_threshold = pos 2;
  recovery_timeout = pos 10;
  state = closed;
  consecutive_failures = 0;
  opened_at = none;
}

abbrev tripped : CircuitBreaker
tripped = record fresh { state = opened; consecutive_failures = 2; opened_at = some (pos 4) }

-- an operation that returns 7, with no other thread in between
abbrev answers : CircuitBreaker → Outcome ℕ × CircuitBreaker
answers b = (returned 7, b)

abbrev breaks : CircuitBreaker → Outcome ℕ × CircuitBreaker
breaks b = (raised (app_error 1), b)

created : create (pos 2) (pos 10) ≡ ok fresh
unfolding create
created = refl

bad_threshold :
    create (pos 0) (pos 10) ≡ err (value_error "failure_threshold must be greater than zero")
unfolding create
bad_threshold = refl

second_failure_opens :
    (call (pos 3) (pos 4) breaks (call (pos 1) (pos 2) breaks fresh).1).1 ≡ tripped
unfolding call before_call record_failure
second_failure_opens = refl

-- One admitted trial, from a circuit that two interleaved calls have opened.
abbrev on_trial : System
on_trial = record {
  breaker = record tripped { state = half_open };
  normals = 0;
  trials = 1;
  lost = 0;
}

Reach-trial : Reach (idle fresh) on_trial
unfolding before_call record_failure ◌-ℤ◌
Reach-trial =
    next
      (next
        (next (next (next here (admit_normal (pos 1) refl)) (admit_normal (pos 2) refl))
          (normal_failure {n = 1} (pos 3) refl))
        (normal_failure {n = 0} (pos 4) refl))
      (admit_trial (pos 14) refl)

Reach-single_trial_example :
    (on_trial.trials ≤ 1)
    × (0 < on_trial.trials → on_trial.breaker.state ≡ half_open)
    × (on_trial.breaker.state ≡ closed
        → pos on_trial.breaker.consecutive_failures <ℤ on_trial.breaker.failure_threshold)
Reach-single_trial_example = Reach-single_trial (pos 2) (pos 10) fresh created Reach-trial

create-fail_all_example :
    (pos (length (pos 3 ∷ [])) <ℤ pos 2
      → ((fail_all (pos 3 ∷ []) fresh).state ≡ closed)
        × ((fail_all (pos 3 ∷ []) fresh).consecutive_failures ≡ length (pos 3 ∷ [])))
    × (pos (suc (length (pos 3 ∷ []))) ≡ pos 2
        → ((fail_all (pos 3 ∷ pos 4 ∷ []) fresh).state ≡ opened)
          × ((fail_all (pos 3 ∷ pos 4 ∷ []) fresh).opened_at ≡ some (pos 4)))
create-fail_all_example = create-fail_all (pos 2) (pos 10) (pos 4) (pos 3 ∷ []) fresh created

-- The trial is interrupted.
abbrev interrupted : System
interrupted = record on_trial { trials = 0; lost = 1 }

abort-locks_out_example :
    before_call (pos 1000) interrupted.breaker
    ≡ (err (circuit_open_error "circuit is testing a trial call"), interrupted.breaker)
abort-locks_out_example =
    abort-locks_out (pos 2) (pos 10) (pos 1000) fresh created (next Reach-trial (trial_abort refl))
      (omega arith) here
