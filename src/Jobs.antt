-- ===== src/Jobs.antt =====
-- asyncjobqueue/queue.py: jobs that async worker tasks handle. Tasks run one at a time between awaits.
-- A job has any type, and the handler maps it to nothing or to the exception that it raises.
pub mod System
pub mod Kept
pub mod Invariant
pub mod Drained
pub mod Handled
pub mod Stopped
pub mod Waiting
pub mod Returns
mod Tests
use python_concurrency_examp.Prelude.{
  ℕ, zero, suc, ◌+◌, ◌-◌, Bool, true, false, not, ◌&&◌, ◌||◌, List, [], ◌∷◌, ◌++◌, if◌then◌else◌,
  length,
}
use python_concurrency_examp.Prelude.Int.{ℤ, pos, pos_part, leb_ℤ}
use python_concurrency_examp.Python.{
  Result, ok, err, Exc, value_error, runtime_error, Exec, gets, raise_if, modify, ◌>>=◌, ◌>>◌,
  check,
}

-- What the queue holds: a job, or the stop token.
pub data Item (T : Type 0) : Type 0 where
  job : T → Item T
  stop_token : Item T

-- A worker task: in `await self._queue.get()`, in `await self._handler(job)`, or returned.
pub data Worker (T : Type 0) : Type 0 where
  waiting : Worker T
  handling : T → Worker T
  ended : Worker T

-- `unfinished` is the counter of the asyncio.Queue: the puts less the calls of `task_done`.
pub record AsyncJobQueue (T : Type 0) : Type 0 where
  pub worker_count : ℤ
  pub queue : List (Item T)
  pub unfinished : ℕ
  pub workers : List (Worker T)
  pub started : Bool
  pub stopping : Bool
  pub failures : List Exc

-- `except Exception as error: self._failures.append(error)`
abbrev pub failure : Result (Unit {0}) → List Exc
failure (ok u) = []
failure (err error) = error ∷ []

module _ {T : Type 0} where
  -- `__init__`; the handler is a parameter of the worker's steps
  pub create : ℤ → Result (AsyncJobQueue T)
  create worker_count =
      check (leb_ℤ worker_count (pos 0)) (value_error "worker_count must be greater than zero") (
        ok (record {
          worker_count = worker_count;
          queue = [];
          unfinished = 0;
          workers = [];
          started = false;
          stopping = false;
          failures = [];
        }))

  abbrev pub replicate : ℕ → Worker T → List (Worker T)
  replicate zero w = []
  replicate (suc n) w = w ∷ replicate n w

  pub start : Exec (AsyncJobQueue T) (Unit {0})
  start = do
    raise_if (← gets (λ q. q.started)) (runtime_error "job queue has already been started")
    modify (λ q. record q { started = true; workers = replicate (pos_part q.worker_count) waiting })

  -- `self._queue.put`
  abbrev pub put : Item T → AsyncJobQueue T → AsyncJobQueue T
  put x q = record q { queue = q.queue ++ x ∷ []; unfinished = suc q.unfinished }

  pub submit : T → Exec (AsyncJobQueue T) (Unit {0})
  submit j = do
    raise_if (not (← gets (λ q. q.started))) (runtime_error "job queue has not been started")
    raise_if (← gets (λ q. q.stopping)) (runtime_error "job queue is stopping")
    modify (put (job j))

  -- Whether `join` returns, or is still suspended.
  abbrev pub joined : AsyncJobQueue T → Bool
  joined q = elim q.unfinished [ zero ↦ true | suc n ↦ false ]

  -- `stop` up to its `await self.join()`: whether it goes on, or has returned at once
  unfoldable pub begin_stop : AsyncJobQueue T → Bool × AsyncJobQueue T
  begin_stop q =
      if not q.started || q.stopping then (false, q) else (true, record q { stopping = true })

  -- the loop `for _ in self._workers` of `stop`
  abbrev pub put_stop_tokens : List (Worker T) → AsyncJobQueue T → AsyncJobQueue T
  put_stop_tokens [] q = q
  put_stop_tokens (w ∷ ws) q = put_stop_tokens ws (put stop_token q)

  -- what `asyncio.gather(*self._workers)` waits for
  abbrev pub all_ended : List (Worker T) → Bool
  all_ended [] = true
  all_ended (ended ∷ ws) = all_ended ws
  all_ended (waiting ∷ ws) = false
  all_ended (handling j ∷ ws) = false

  pub failures : AsyncJobQueue T → List Exc
  failures q = q.failures
