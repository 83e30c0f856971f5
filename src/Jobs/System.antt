-- ===== src/Jobs/System.antt =====
-- Producers, worker tasks and the task that stops the queue.
use python_concurrency_examp.Prelude.{◌-◌, ◌≡◌, true, false, List, [], ◌∷◌, ◌++◌}
use python_concurrency_examp.Python.{Result, ok, err, Exc}
use python_concurrency_examp.Jobs.{
  AsyncJobQueue, Item, job, stop_token, Worker, waiting, handling, ended, start, submit, joined,
  begin_stop, put_stop_tokens, all_ended, failure,
}

-- The call of `stop` that goes on: there is none yet, it waits in `join`, it waits in `gather`, or it
-- has returned.
pub data Stopper : Type 0 where
  none_yet joining gathering returned : Stopper

-- `submitted` are the jobs accepted so far, and `handled` those of which the handler has ended.
pub record System (T : Type 0) : Type 0 where
  pub jobs : AsyncJobQueue T
  pub stopper : Stopper
  pub submitted : List T
  pub handled : List T

pub data Step {T : Type 0} (handler : T → Result (Unit {0})) (s : System T)
    : System T → Type 0 where
  starts :
      {r : Result (Unit {0})} {q : AsyncJobQueue T}
      → start s.jobs ≡ (r, q)
      → Step handler s (record s { jobs = q })
  submits :
      {q : AsyncJobQueue T} (j : T)
      → submit j s.jobs ≡ (ok tt, q)
      → Step handler s (record s { jobs = q; submitted = s.submitted ++ j ∷ [] })
  refuses :
      {q : AsyncJobQueue T} (j : T) (e : Exc)
      → submit j s.jobs ≡ (err e, q)
      → Step handler s (record s { jobs = q })
  stops :
      {q : AsyncJobQueue T}
      → begin_stop s.jobs ≡ (true, q)
      → Step handler s (record s { jobs = q; stopper = joining })
  returns_at_once :
      {q : AsyncJobQueue T}
      → begin_stop s.jobs ≡ (false, q)
      → Step handler s (record s { jobs = q })
  drained :
      s.stopper ≡ joining
      → joined s.jobs ≡ true
      → Step handler s
          (record s { jobs = put_stop_tokens s.jobs.workers s.jobs; stopper = gathering })
  gathered :
      s.stopper ≡ gathering
      → all_ended s.jobs.workers ≡ true
      → Step handler s (record s { stopper = returned })
  takes :
      (before after : List (Worker T)) (j : T) (rest : List (Item T))
      → s.jobs.workers ≡ before ++ waiting ∷ after
      → s.jobs.queue ≡ job j ∷ rest
      → Step handler s (record s {
        jobs = record (s.jobs) { workers = before ++ handling j ∷ after; queue = rest };
      })
  takes_stop :
      (before after : List (Worker T)) (rest : List (Item T))
      → s.jobs.workers ≡ before ++ waiting ∷ after
      → s.jobs.queue ≡ stop_token ∷ rest
      → Step handler s (record s {
        jobs = record (s.jobs) {
          workers = before ++ ended ∷ after;
          queue = rest;
          unfinished = s.jobs.unfinished - 1;
        };
      })
  finishes :
      (before after : List (Worker T)) (j : T)
      → s.jobs.workers ≡ before ++ handling j ∷ after
      → Step handler s (record s {
        jobs = record (s.jobs) {
          workers = before ++ waiting ∷ after;
          failures = s.jobs.failures ++ failure (handler j);
          unfinished = s.jobs.unfinished - 1;
        };
        handled = s.handled ++ j ∷ [];
      })
