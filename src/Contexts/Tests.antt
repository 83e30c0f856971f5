-- ===== src/Contexts/Tests.antt =====
-- Calls of two threads, and of a task and its child.
use python_concurrency_examp.Prelude.{◌≡◌, refl, false, none, some, List, [], ◌∷◌}
use python_concurrency_examp.Python.{ok, err, runtime_error}
use python_concurrency_examp.Contexts.{empty, update}
use python_concurrency_examp.Contexts.Threads
use python_concurrency_examp.Contexts.Threads.{sets, clears, get_request_id-own}
use python_concurrency_examp.Contexts.Tasks
use python_concurrency_examp.Contexts.Tasks.{AsyncRequestContext, resets, creates}
use python_concurrency_examp.Contexts.Restored.{reset-set_request_id}

abbrev thread_calls : List Threads.Call
thread_calls = sets 1 "a" ∷ sets 2 "b" ∷ clears 1 ∷ sets 2 "" ∷ []

get_request_id-own_example :
    Threads.get_request_id 2 (Threads.run thread_calls Threads.create)
    ≡ Threads.get_request_id 2 (Threads.run (Threads.own 2 thread_calls) Threads.create)
get_request_id-own_example = get_request_id-own 2 thread_calls

abbrev set_once : AsyncRequestContext
set_once = record {
  request_id = update 1 (some "a") empty;
  tokens = record { task = 1; old_value = none; used = false } ∷ [];
}

set_once-made : Tasks.set_request_id 1 "a" Tasks.create ≡ (ok 0, set_once)
unfolding Tasks.set_request_id
set_once-made = refl

-- A child task copies the context, cannot use the token, and sets an ID of its own.
abbrev child_calls : List Tasks.Call
child_calls = creates 2 1 ∷ resets 2 0 ∷ Tasks.sets 2 "b" ∷ []

reset-set_request_id_example :
    (Tasks.get_request_id 1 (Tasks.run child_calls set_once) ≡ some "a")
    × ((Tasks.reset 1 0 (Tasks.run child_calls set_once)).0 ≡ ok tt)
    × (Tasks.get_request_id 1 (Tasks.reset 1 0 (Tasks.run child_calls set_once)).1
        ≡ Tasks.get_request_id 1 Tasks.create)
    × ((Tasks.reset 1 0 (Tasks.reset 1 0 (Tasks.run child_calls set_once)).1).0
        ≡ err (runtime_error "token has already been used once"))
reset-set_request_id_example =
    reset-set_request_id 1 0 "a" Tasks.create set_once child_calls set_once-made
      (refl, (refl, (refl, tt)))
