-- ===== src/Retry/Batch.antt =====
-- The results of the submitted tasks, and the order in which the futures complete.
use python_concurrency_examp.Prelude.{
  ℕ, zero, suc, String, ◌≡◌, refl, Bool, true, false, inl, inr, Option, none, some, List, [], ◌∷◌,
  arith, ◌==◌, eq_iff, eq_refl, is_some, is_empty, any, Option-cases,
}
use python_concurrency_examp.Python.{ok, Exc}
use python_concurrency_examp.Python.Dict.{Dict, lookup, insert, keys, lookup-insert}
use python_concurrency_examp.Python.StrSet.{mem}
use mathlib.Core.Option
use python_concurrency_examp.Retry.{
  RetryResult, RetryExecutor, Task, attempt_loop, run_with_retries, submit_all, collect, run_all,
  run,
}
use python_concurrency_examp.Retry.Attempts.{result-cases}
use python_concurrency_examp.Prelude.Int.{ℤ}

module _ {T : Type 0} (x : RetryExecutor) where
  lookup-submit_all :
      (k : String) (tasks : Dict (Task T))
      → lookup k (submit_all x tasks) ≡ Option.map (run_with_retries x k) (lookup k tasks)
  unfolding lookup submit_all
  lookup-submit_all k [] = refl
  lookup-submit_all k ((j, t) ∷ tasks) = ground (arith, lookup-submit_all k tasks, eq_iff j k)

  task_id-attempt_loop :
      (left attempt : ℕ) (last : Option Exc) (m : ℤ) (k : String) (t : Task T)
      → (attempt_loop left attempt last m k t).task_id ≡ k
  unfolding attempt_loop
  task_id-attempt_loop zero attempt last m k t = refl
  task_id-attempt_loop (suc left) attempt last m k t = elim (result-cases (t attempt)) [
    | inl (a, e) ↦ ground arith
    | inr (e, failed) ↦ ground (arith, task_id-attempt_loop left (suc attempt) (some e) m k t)
  ]

  task_id-run_with_retries : (k : String) (t : Task T) → (run_with_retries x k t).task_id ≡ k
  unfolding run_with_retries
  task_id-run_with_retries k t = task_id-attempt_loop _ 1 none x.max_attempts k t

  -- What a dict of results has for a task once the future, if there is one, was collected.
  abbrev found : Bool → Option (RetryResult T) → Option (RetryResult T) → Option (RetryResult T)
  found false future before = before
  found true none before = before
  found true (some r) before = some r

  lookup-collect :
      (j : String) (ks : List String) (tasks : Dict (Task T)) (acc : Dict (RetryResult T))
      → lookup j (collect ks (submit_all x tasks) acc)
        ≡ found (mem j ks) (Option.map (run_with_retries x j) (lookup j tasks)) (lookup j acc)
  unfolding collect mem
  lookup-collect j [] tasks acc = refl
  lookup-collect j (k ∷ ks) tasks acc = elim (Option-cases (lookup k tasks)) [
    | inl missing ↦
        ground (arith, lookup-submit_all k tasks, lookup-collect j ks tasks acc, eq_iff k j)
    | inr (t, there) ↦
        let r = run_with_retries x k t in
        ground (
          arith,
          lookup-submit_all k tasks,
          lookup-collect j ks tasks (insert r.task_id r acc),
          task_id-run_with_retries k t,
          lookup-insert k j r acc,
          eq_iff k j,
        )
  ]

  -- Whatever the order in which the futures complete, if each of them does, `run_all` returns for
  -- every submitted task the result of its own retries, and nothing for any other ID.
  pub run_all-lookup :
      (completed : List String) (tasks : Dict (Task T))
      → is_empty tasks ≡ false
      → any (λ k. k == "") (keys tasks) ≡ false
      → ((k : String) → mem k completed ≡ is_some (lookup k tasks))
      → (results : Dict (RetryResult T)) × (run_all x completed tasks ≡ ok results)
        × ((k : String) → lookup k results ≡ Option.map (run_with_retries x k) (lookup k tasks))
  unfolding run_all
  run_all-lookup completed tasks some_task named each = (
    collect completed (submit_all x tasks) [],
    ground arith,
    λ k. unfold lookup in ground (arith, lookup-collect k completed tasks [], each k),
  )

  -- `run` returns the result of the retries of its one task.
  pub run-eq-run_with_retries :
      (k : String) (t : Task T) → (k == "") ≡ false → run x k t ≡ ok (run_with_retries x k t)
  unfolding run lookup mem
  run-eq-run_with_retries k t named =
      ground
        (arith, lookup-collect k (k ∷ []) ((k, t) ∷ []) [], eq_refl k, task_id-run_with_retries k t)
