-- ===== src/Jobs/Stopped.antt =====
-- asyncjobqueue/queue.py: what every run keeps, and what `stop` leaves.
use python_concurrency_examp.Prelude.{
  ◌≡◌, refl, ap, ◌∙◌, subst, true, List, [], ◌∷◌, ◌++◌, append-nil, arith, length, sum_of, Star,
  Star-keeps,
}
use mathlib.Core.List.{Perm}
use python_concurrency_examp.Prelude.Int.{ℤ}
use python_concurrency_examp.Python.{Result, ok}
use python_concurrency_examp.Jobs.{
  AsyncJobQueue, Item, job, stop_token, Worker, waiting, handling, ended, create, all_ended,
  failures,
}
use python_concurrency_examp.Jobs.System.{
  returned, System, Step, starts, submits, refuses, stops, returns_at_once, drained, gathered,
  takes, takes_stop, finishes,
}
use python_concurrency_examp.Jobs.Kept.{ends, jobs_in, tokens_in, errors_of}
use python_concurrency_examp.Jobs.Invariant.{
  Phase, Inv, fresh, create-Inv, starts-Inv, submits-Inv, submit-refused, stops-Inv, stop-refused,
}
use python_concurrency_examp.Jobs.Drained.{drained-Inv, gathered-Inv}
use python_concurrency_examp.Jobs.Handled.{takes-Inv, takes_stop-Inv, finishes-Inv}

module _ {T : Type 0} (handler : T → Result (Unit {0})) where
  pub Step-Inv : (s t : System T) → Step handler s t → Inv handler s → Inv handler t
  Step-Inv s _ (starts {r} {q} h) v = starts-Inv handler s r q h v
  Step-Inv s _ (submits {q} j h) v = submits-Inv handler s j q h v
  Step-Inv s _ (refuses {q} j e h) v =
      subst (λ k. Inv handler (record s { jobs = k })) (submit-refused j e s.jobs q h) v
  Step-Inv s _ (stops {q} h) v = stops-Inv handler s q h v
  Step-Inv s _ (returns_at_once {q} h) v =
      subst (λ k. Inv handler (record s { jobs = k })) (stop-refused s.jobs q h) v
  Step-Inv s _ (drained at over) v = drained-Inv handler s at over v
  Step-Inv s _ (gathered at over) v = gathered-Inv handler s at over v
  Step-Inv s _ (takes before after j rest at front) v =
      takes-Inv handler s before after j rest at front v
  Step-Inv s _ (takes_stop before after rest at front) v =
      takes_stop-Inv handler s before after rest at front v
  Step-Inv s _ (finishes before after j at) v = finishes-Inv handler s before after j at v

  pub run-Inv :
      (n : ℤ) (q : AsyncJobQueue T) (s : System T)
      → create n ≡ ok q
      → Star (Step handler) (fresh q) s
      → Inv handler s
  run-Inv n q s made run = Star-keeps (Inv handler) Step-Inv (create-Inv handler n q made) run

  no_tokens : (ws : List (Worker T)) → all_ended ws ≡ true → sum_of ends ws ≡ length ws
  no_tokens [] h = omega arith
  no_tokens (ended ∷ ws) h = omega (arith, no_tokens ws h)
  no_tokens (waiting ∷ ws) h = ground arith
  no_tokens (handling j ∷ ws) h = ground arith

  length-jobs_in-zero : (q : List (Item T)) → jobs_in q ≡ [] → tokens_in q ≡ 0 → q ≡ []
  length-jobs_in-zero [] h k = refl
  length-jobs_in-zero (job j ∷ q) h k = absurd (omega (arith, ap length h))
  length-jobs_in-zero (stop_token ∷ q) h k = absurd (omega (arith, k))

  -- When the call of `stop` that goes on has returned, in any run of producers, worker tasks and
  -- stopping tasks, the queue is empty, every worker task has returned, the jobs handled are the jobs
  -- accepted, each as often, and `failures` holds what the handler raised, in the order of its ends.
  pub stop-drains :
      (n : ℤ) (q : AsyncJobQueue T) (s : System T)
      → create n ≡ ok q
      → Star (Step handler) (fresh q) s
      → s.stopper ≡ returned
      → (s.jobs.queue ≡ [])
        × (all_ended s.jobs.workers ≡ true)
        × Perm s.handled s.submitted
        × (failures s.jobs ≡ errors_of handler s.handled)
  unfolding failures
  stop-drains n q s made run over =
      let v = run-Inv n q s made run in
      let (no_jobs, idle, all, ends_all) =
        subst (λ p. Phase p s.jobs.queue s.jobs.workers) over v.phase in
      let none : s.jobs.queue ≡ [] =
        length-jobs_in-zero s.jobs.queue no_jobs
          (omega (arith, all, no_tokens s.jobs.workers ends_all)) in
      (
        none,
        ends_all,
        subst (λ l. Perm l s.submitted)
            (ap (λ a. s.handled ++ (a ++ jobs_in s.jobs.queue)) idle
              ∙ ap (◌++◌ s.handled) no_jobs
              ∙ append-nil s.handled)
            v.kept,
        v.errors,
      )
