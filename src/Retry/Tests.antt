-- ===== src/Retry/Tests.antt =====
-- Runs of the retry executor, and its theorems at inputs that meet their hypotheses.
use mathlib.Core.Option
use python_concurrency_examp.Prelude.{
  ℕ, zero, suc, ◌≤◌, String, ◌≡◌, refl, ◌⊎◌, some, List, [], ◌∷◌, arith, is_some,
}
use python_concurrency_examp.Prelude.Int.{pos}
use python_concurrency_examp.Python.{ok, err, Exc, app_error}
use python_concurrency_examp.Python.Dict.{Dict, lookup}
use python_concurrency_examp.Python.StrSet.{mem}
use python_concurrency_examp.Retry.{RetryResult, RetryExecutor, Task, run_with_retries, run_all}
use python_concurrency_examp.Retry.Attempts.{AllFail, success, failure, run_with_retries-Settled}
use python_concurrency_examp.Retry.Batch.{run_all-lookup}

abbrev executor : RetryExecutor
executor = record { max_workers = pos 4; max_attempts = pos 3 }

-- It fails once and then answers; the other never answers.
abbrev flaky : Task ℕ
flaky zero = err (app_error 0)
flaky (suc zero) = err (app_error 1)
flaky (suc (suc n)) = ok 42

abbrev down : Task ℕ
down n = err (app_error n)

flaky_succeeds : run_with_retries executor "a" flaky ≡ success "a" 2 42
unfolding run_with_retries
flaky_succeeds = refl

down_fails : run_with_retries executor "b" down ≡ failure "b" (pos 3) (some (app_error 3))
unfolding run_with_retries
down_fails = refl

abbrev tasks : Dict (Task ℕ)
tasks = ("a", flaky) ∷ ("b", down) ∷ []

-- b completes first.
abbrev completed : List String
completed = "b" ∷ "a" ∷ []

run_with_retries-Settled_example :
    ((k : ℕ) × (a : ℕ) × (1 ≤ k)
      × (k ≤ 3)
      × (flaky k ≡ ok a)
      × AllFail flaky 1 k
      × (run_with_retries executor "a" flaky ≡ success "a" k a))
    ⊎ (AllFail flaky 1 4
        × ((e : Exc) × (flaky 3 ≡ err e)
            × (run_with_retries executor "a" flaky ≡ failure "a" (pos 3) (some e))))
run_with_retries-Settled_example = run_with_retries-Settled executor "a" flaky 2 refl

completes : (k : String) → mem k completed ≡ is_some (lookup k tasks)
unfolding mem lookup
completes k = ground arith

run_all-lookup_example :
    (results : Dict (RetryResult ℕ)) × (run_all executor completed tasks ≡ ok results)
    × ((k : String) → lookup k results ≡ Option.map (run_with_retries executor k) (lookup k tasks))
run_all-lookup_example = run_all-lookup executor completed tasks refl refl completes
