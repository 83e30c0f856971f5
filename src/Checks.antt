-- ===== src/Checks.antt =====
-- taskgroup/checks.py: checks that run as the tasks of an asyncio.TaskGroup.
-- A check is what its coroutine returns or raises when it is not cancelled.
pub mod Together
mod Tests
use python_concurrency_examp.Prelude.{
  String, ◌≡◌, Bool, true, false, Option, none, some, List, [], ◌∷◌, ◌++◌, map, any, is_empty, ◌==◌,
  if◌then◌else◌,
}
use python_concurrency_examp.Python.{Result, ok, err, Exc, value_error, check}
use python_concurrency_examp.Python.Dict.{Dict}

pub record CheckoutChecks (T : Type 0) : Type 0 where
  pub checks : Dict (Result T)

-- A task of the group.
pub data Place (T : Type 0) : Type 0 where
  running cancelled : Place T
  done : Result T → Place T

pub data Task (T : Type 0) : Type 0 where
  task : String × Result T → Place T → Task T

-- The tasks, and the exceptions that the group has seen, which cancel the others.
pub record Group (T : Type 0) : Type 0 where
  pub tasks : List (Task T)
  pub errors : List Exc

-- What `run` gives: the results by name, or the exception group.
pub data Outcome (T : Type 0) : Type 0 where
  passed : Dict T → Outcome T
  failed : List Exc → Outcome T

module _ {T : Type 0} where
  abbrev pub is_nameless : String × Result T → Bool
  is_nameless c = c.0 == ""

  -- `__init__`
  pub create : Dict (Result T) → Result (CheckoutChecks T)
  create checks = check (is_empty checks) (value_error "checks must not be empty") (
      check (any is_nameless checks) (value_error "check names must not be empty")
        (ok (record { checks = checks })))

  abbrev pub create_task : String × Result T → Task T
  create_task c = task c running

  -- the body of the `async with`
  abbrev pub start : CheckoutChecks T → Group T
  start c = record { tasks = map create_task c.checks; errors = [] }

  abbrev pub error_of : Result T → List Exc
  error_of (ok v) = []
  error_of (err e) = e ∷ []

  -- A task ends with its own outcome, or is cancelled once another has failed.
  pub data Step (g : Group T) : Group T → Type 0 where
    ends :
        (before after : List (Task T)) (c : String × Result T)
        → g.tasks ≡ before ++ task c running ∷ after
        → Step g (record {
          tasks = before ++ task c (done c.1) ∷ after;
          errors = g.errors ++ error_of c.1;
        })
    is_cancelled :
        (before after : List (Task T)) (c : String × Result T)
        → g.tasks ≡ before ++ task c running ∷ after
        → is_empty g.errors ≡ false
        → Step g (record g { tasks = before ++ task c cancelled ∷ after })

  -- The `async with` is left when no task runs.
  abbrev pub all_done : List (Task T) → Bool
  all_done [] = true
  all_done (task c running ∷ ts) = false
  all_done (task c cancelled ∷ ts) = all_done ts
  all_done (task c (done r) ∷ ts) = all_done ts

  -- the dict of the `return`, of the tasks that have a result
  abbrev pub results : List (Task T) → Dict T
  results [] = []
  results (task c running ∷ ts) = results ts
  results (task c cancelled ∷ ts) = results ts
  results (task c (done (ok v)) ∷ ts) = (c.0, v) ∷ results ts
  results (task c (done (err e)) ∷ ts) = results ts

  -- the end of `run`
  unfoldable pub finish : Group T → Outcome T
  finish g = elim g.errors [ [] ↦ passed (results g.tasks) | e ∷ es ↦ failed (e ∷ es) ]
