-- ===== src/Rollback/Tests.antt =====
-- A deployment of three steps, of which the second rollback fails.
use python_concurrency_examp.Prelude.{String, ◌≡◌, refl, List, [], ◌∷◌, ◌++◌, ◌==◌, if◌then◌else◌}
use python_concurrency_examp.Python.{ok, err, app_error, Exec}
use python_concurrency_examp.Rollback.{
  RollbackAction, create, register, task_done, run_next, drain_loop, drain,
}
use python_concurrency_examp.Rollback.Reversed.{
  register_all, reversed, outcome, handle_each, drain-reversed,
}

abbrev action : String → RollbackAction
action name = record { action_id = name; resource_id = "cluster"; description = name }

-- The handler logs the action, and fails on the network.
abbrev logged : RollbackAction → Exec (List String) (Unit {0})
logged a log =
    (if a.action_id == "network" then err (app_error 1) else ok tt, log ++ a.action_id ∷ [])

abbrev three : List RollbackAction
three = action "disk" ∷ action "network" ∷ action "service" ∷ []

logged-three : drain logged (register_all three create, []) ≡ (
  err (app_error 1),
  (record { items = action "disk" ∷ []; unfinished = 1 }, "service" ∷ "network" ∷ []),
)
unfolding drain drain_loop run_next task_done register
logged-three = refl

drain-reversed_example :
    drain logged (register_all three create, [])
    ≡ outcome logged (handle_each logged (reversed three) 0 [])
drain-reversed_example = drain-reversed logged three []
