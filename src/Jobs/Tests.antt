-- ===== src/Jobs/Tests.antt =====
-- A run of the queue with one worker, and the theorems at this run.
use python_concurrency_examp.Prelude.{ℕ, ◌≡◌, refl, true, false, [], ◌∷◌, Star, here, next}
use mathlib.Core.List.{Perm}
use python_concurrency_examp.Prelude.Int.{pos}
use python_concurrency_examp.Python.{Result, ok, err, value_error}
use python_concurrency_examp.Jobs.{
  AsyncJobQueue, job, waiting, ended, create, start, submit, begin_stop, all_ended, failures,
}
use python_concurrency_examp.Jobs.System.{
  joining, returned, System, Step, starts, submits, stops, drained, gathered, takes, takes_stop,
  finishes,
}
use python_concurrency_examp.Jobs.Kept.{errors_of}
use python_concurrency_examp.Jobs.Invariant.{fresh}
use python_concurrency_examp.Jobs.Stopped.{stop-drains}
use python_concurrency_examp.Jobs.Returns.{stop-returns}

-- A handler that fails on 0.
abbrev handler : ℕ → Result (Unit {0})
handler ℕ.zero = err (value_error "empty job")
handler (ℕ.suc n) = ok tt

abbrev new_queue : AsyncJobQueue ℕ
new_queue = record {
  worker_count = pos 1;
  queue = [];
  unfinished = 0;
  workers = [];
  started = false;
  stopping = false;
  failures = [];
}

new_queue-made : create (pos 1) ≡ ok new_queue
unfolding create
new_queue-made = refl

abbrev stop_begun : System ℕ
stop_begun = record {
  jobs = record new_queue {
    queue = job 0 ∷ [];
    unfinished = 1;
    workers = waiting ∷ [];
    started = true;
    stopping = true;
  };
  stopper = joining;
  submitted = 0 ∷ [];
  handled = [];
}

abbrev all_over : System ℕ
all_over = record {
  jobs = record new_queue {
    workers = ended ∷ [];
    started = true;
    stopping = true;
    failures = value_error "empty job" ∷ [];
  };
  stopper = returned;
  submitted = 0 ∷ [];
  handled = 0 ∷ [];
}

to_stop : Star (Step handler) (fresh new_queue) stop_begun
unfolding start submit begin_stop
to_stop = next (next (next here (starts refl)) (submits 0 refl)) (stops refl)

to_over : Star (Step handler) (fresh new_queue) all_over
to_over =
    next
      (next
        (next (next (next to_stop (takes [] [] 0 [] refl refl)) (finishes [] [] 0 refl))
          (drained refl refl))
        (takes_stop [] [] [] refl refl))
      (gathered refl refl)

stop-drains_example :
    (all_over.jobs.queue ≡ [])
    × (all_ended all_over.jobs.workers ≡ true)
    × Perm all_over.handled all_over.submitted
    × (failures all_over.jobs ≡ errors_of handler all_over.handled)
stop-drains_example = stop-drains handler (pos 1) new_queue all_over new_queue-made to_over refl

stop-returns_example : (t : System ℕ) × Star (Step handler) stop_begun t × (t.stopper ≡ returned)
stop-returns_example = stop-returns handler (pos 1) new_queue stop_begun new_queue-made to_stop refl
