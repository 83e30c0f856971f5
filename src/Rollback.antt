-- ===== src/Rollback.antt =====
-- deploymentrollback/rollback.py: rollback actions on a LifoQueue, run from the newest on.
-- A handler reads and writes a state of its caller and may raise; it does not register actions.
pub mod Reversed
mod Tests
use python_concurrency_examp.Prelude.{
  ℕ, zero, suc, String, Bool, true, false, List, [], ◌∷◌, ◌==◌, length,
}
use python_concurrency_examp.Python.{Result, ok, err, value_error, Exec, check}

pub record RollbackAction : Type 0 where
  pub action_id : String
  pub resource_id : String
  pub description : String

-- `RollbackAction(...)` with its `__post_init__`
pub create_action : String → String → String → Result RollbackAction
create_action action_id resource_id description =
    check (action_id == "") (value_error "action_id must not be empty") (
      check (resource_id == "") (value_error "resource_id must not be empty") (
        check (description == "") (value_error "description must not be empty") (
          ok (record {
            action_id = action_id;
            resource_id = resource_id;
            description = description;
          }))))

-- The LifoQueue, its newest item first, and its count of puts less the calls of `task_done`.
pub record DeploymentRollback : Type 0 where
  pub items : List RollbackAction
  pub unfinished : ℕ

-- `__init__`
abbrev pub create : DeploymentRollback
create = record { items = []; unfinished = 0 }

unfoldable pub register : RollbackAction → DeploymentRollback → DeploymentRollback
register action d = record { items = action ∷ d.items; unfinished = suc d.unfinished }

-- `self._queue.task_done()`
unfoldable pub task_done : Exec DeploymentRollback (Unit {0})
task_done d = elim d.unfinished [
  | zero ↦ (err (value_error "task_done() called too many times"), d)
  | suc n ↦ (ok tt, record d { unfinished = n })
]

-- The end of the try block with its `finally`: an exception of `task_done` would win.
abbrev pub try_finally : Result (Unit {0}) → Result (Unit {0}) → Result Bool
try_finally handled (err e) = err e
try_finally (err e) (ok u) = err e
try_finally (ok v) (ok u) = ok true

module _ {S : Type 0} (handler : RollbackAction → Exec S (Unit {0})) where
  unfoldable pub run_next : Exec (DeploymentRollback × S) Bool
  run_next (d, s) = elim d.items [
    | [] ↦ (ok false, (d, s))
    | action ∷ rest ↦
        let (handled, s') = handler action s in
        let (marked, d') = task_done (record d { items = rest }) in
        (try_finally handled marked, (d', s'))
  ]

  -- The loop of `drain`, with what it has counted, for as many rounds as the first argument says.
  unfoldable pub drain_loop : ℕ → ℕ → Exec (DeploymentRollback × S) ℕ
  drain_loop zero completed_count x = (ok completed_count, x)
  drain_loop (suc fuel) completed_count x =
      let (found, y) = run_next x in
      let rest = drain_loop fuel (suc completed_count) y in
      elim found [ err e ↦ (err e, y) | ok false ↦ (ok completed_count, y) | ok true ↦ rest ]

  -- Each round takes one action out, so one more round than there are actions is enough.
  unfoldable pub drain : Exec (DeploymentRollback × S) ℕ
  drain x = drain_loop (suc (length x.0.items)) 0 x

-- Whether `join` returns, or still blocks.
pub joined : DeploymentRollback → Bool
joined d = elim d.unfinished [ zero ↦ true | suc n ↦ false ]

pub size : DeploymentRollback → ℕ
size d = length d.items
