-- ===== src/Imports/System.antt =====
-- The worker processes and the collector. The queue keeps the order of each process's messages and
-- no other, so it is kept as the messages that each process has in it.
use Prim.Native.String.{◌++◌ as ◌+++◌}
use python_concurrency_examp.Prelude.{
  ℕ, suc, ◌≡◌, Bool, true, false, List, [], ◌∷◌, ◌++◌, map, ltb, nat_eq, length, is_empty,
  if◌then◌else◌,
}
use python_concurrency_examp.Prelude.Int.{ℤ}
use python_concurrency_examp.Python.{Result, ok, err, value_error, runtime_error, check}
use python_concurrency_examp.Python.Text.{str_int}
use python_concurrency_examp.Imports.{
  ImportJob, ImportJobEvent, Message, event, worker_finished, run_import_job,
}

-- One process: the messages that the collector has got from it, those in the queue, those that it
-- will still put, and those that it will never put because it was killed.
pub record Worker : Type 0 where
  pub job : ImportJob
  pub received : List Message
  pub queued : List Message
  pub pending : List Message
  pub lost : List Message

-- The state of `collect` in its loop.
pub record System : Type 0 where
  pub workers : List Worker
  pub collected_events : List ImportJobEvent
  pub finished_workers : ℕ

-- `process.start()`
unfoldable pub start_process : ImportJob → Worker
start_process job = record {
  job = job;
  received = [];
  queued = [];
  pending = (run_import_job job []).1;
  lost = [];
}

-- `collect` up to its loop
unfoldable pub start_collect : List ImportJob → Result System
start_collect jobs =
    check (is_empty jobs) (value_error "jobs must not be empty") (
      ok (record { workers = map start_process jobs; collected_events = []; finished_workers = 0 }))

-- `finished_workers < len(processes)`
abbrev pub looping : System → Bool
looping s = ltb s.finished_workers (length s.workers)

-- the body of the loop, after `events.get()`
abbrev pub handle_message : Message → System → System
handle_message (event e) s = record s { collected_events = s.collected_events ++ e ∷ [] }
handle_message (worker_finished job_id) s = record s { finished_workers = suc s.finished_workers }

is_zero : ℤ → Bool
is_zero (ℤ.pos n) = nat_eq n 0
is_zero (ℤ.negsuc n) = false

-- `collect` after its loop, by the exit codes of the processes
pub join_all : List (ImportJob × ℤ) → List ImportJobEvent → Result (List ImportJobEvent)
unfolding is_zero
join_all [] collected_events = ok collected_events
join_all ((job, exitcode) ∷ rest) collected_events =
    let others = join_all rest collected_events in
    if is_zero exitcode
    then others
    else err
        (runtime_error (("ImportJob-" +++ job.job_id) +++ (" exited with " +++ str_int exitcode)))

pub data Step (s : System) : System → Type 0 where
  puts :
      (before after : List Worker) (w : Worker) (m : Message) (rest : List Message)
      → s.workers ≡ before ++ w ∷ after
      → w.pending ≡ m ∷ rest
      → Step s (record s {
        workers = before ++ record w { queued = w.queued ++ m ∷ []; pending = rest } ∷ after;
      })
  gets :
      (before after : List Worker) (w : Worker) (m : Message) (rest : List Message)
      → looping s ≡ true
      → s.workers ≡ before ++ w ∷ after
      → w.queued ≡ m ∷ rest
      → Step s (
          handle_message m (record s {
            workers = before ++ record w { received = w.received ++ m ∷ []; queued = rest } ∷ after;
          }))
  killed :
      (before after : List Worker) (w : Worker)
      → s.workers ≡ before ++ w ∷ after
      → Step s (record s {
        workers = before ++ record w { pending = []; lost = w.pending ++ w.lost } ∷ after;
      })
