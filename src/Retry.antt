-- ===== src/Retry.antt =====
-- retryexecutor/executor.py: retries inside one worker, and one result for every submitted task.
-- A task is what its successive calls do: the outcome of the n-th call, from 1.
pub mod Attempts
pub mod Batch
mod Tests
use python_concurrency_examp.Prelude.{
  ℕ, zero, suc, ◌+◌, String, Bool, true, false, Option, none, some, List, [], ◌∷◌, map, ◌==◌,
  if◌then◌else◌, any, is_empty, is_some, not,
}
use python_concurrency_examp.Prelude.Int.{ℤ, pos, pos_part, leb_ℤ}
use python_concurrency_examp.Python.{Result, ok, err, Exc, value_error, missing_key_error, check}
use python_concurrency_examp.Python.Dict.{Dict, lookup, insert, keys}

pub record RetryResult (T : Type 0) : Type 0 where
  pub task_id : String
  pub attempts : ℤ
  pub value : Option T
  pub error : Option Exc

-- the property `succeeded`
pub succeeded : {T : Type 0} → RetryResult T → Bool
succeeded r = not (is_some r.error)

pub record RetryExecutor : Type 0 where
  pub max_workers : ℤ
  pub max_attempts : ℤ

-- `__init__`
pub create : ℤ → ℤ → Result RetryExecutor
create max_workers max_attempts =
    check (leb_ℤ max_workers (pos 0)) (value_error "max_workers must be greater than zero") (
      check (leb_ℤ max_attempts (pos 0)) (value_error "max_attempts must be greater than zero")
        (ok (record { max_workers = max_workers; max_attempts = max_attempts })))

abbrev pub Task : Type 0 → Type 0
Task T = ℕ → Result T

module _ {T : Type 0} where
  -- The loop of `_run_with_retries`: `left` rounds from round `attempt` on.
  attempt_loop : ℕ → ℕ → Option Exc → ℤ → String → Task T → RetryResult T
  attempt_loop zero attempt last_error max_attempts task_id task = record {
    task_id = task_id;
    attempts = max_attempts;
    value = none;
    error = last_error;
  }
  attempt_loop (suc left) attempt last_error max_attempts task_id task = elim (task attempt) [
    | ok value ↦ record {
      task_id = task_id;
      attempts = pos attempt;
      value = some value;
      error = none;
    }
    | err error ↦ attempt_loop left (suc attempt) (some error) max_attempts task_id task
  ]

  -- `_run_with_retries`: `range(1, self._max_attempts + 1)` has `max_attempts` rounds from 1
  unfoldable pub run_with_retries : RetryExecutor → String → Task T → RetryResult T
  unfolding attempt_loop
  run_with_retries x task_id task =
      attempt_loop (pos_part x.max_attempts) 1 none x.max_attempts task_id task

  -- The futures that are submitted, by task ID; each runs to its result in some worker thread.
  submit_all : RetryExecutor → Dict (Task T) → Dict (RetryResult T)
  submit_all x [] = []
  submit_all x ((task_id, task) ∷ tasks) =
      (task_id, run_with_retries x task_id task) ∷ submit_all x tasks

  -- The loop over `as_completed(futures)`: `completed` names the futures as they complete.
  collect : List String → Dict (RetryResult T) → Dict (RetryResult T) → Dict (RetryResult T)
  collect [] futures results = results
  collect (task_id ∷ completed) futures results = elim (lookup task_id futures) [
    | none ↦ collect completed futures results
    | some result ↦ collect completed futures (insert result.task_id result results)
  ]

  -- `_validate_tasks`, then the pool
  pub run_all : RetryExecutor → List String → Dict (Task T) → Result (Dict (RetryResult T))
  unfolding submit_all collect
  run_all x completed tasks = check (is_empty tasks) (value_error "tasks must not be empty") (
      check (any (λ task_id. task_id == "") (keys tasks)) (value_error "task IDs must not be empty")
        (ok (collect completed (submit_all x tasks) [])))

  at_key : String → Result (Dict (RetryResult T)) → Result (RetryResult T)
  at_key task_id (err e) = err e
  at_key task_id (ok results) = elim (lookup task_id results) [
    | none ↦ err (missing_key_error task_id)
    | some r ↦ ok r
  ]

  -- `run`: the one future is the one that completes
  pub run : RetryExecutor → String → Task T → Result (RetryResult T)
  unfolding run_all at_key
  run x task_id task = at_key task_id (run_all x (task_id ∷ []) ((task_id, task) ∷ []))
