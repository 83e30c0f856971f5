-- ===== src/Pipeline.antt =====
-- documentpipeline/pipeline.py: one worker thread and one FIFO queue for each stage. A document has
-- any type, and a stage maps a document to a document or raises.
pub mod System
mod Flow
mod Shutdown
pub mod Order
pub mod Progress
mod Tests
use python_concurrency_examp.Prelude.{
  String, Bool, true, false, not, ◌&&◌, Option, none, some, List, [], ◌∷◌, ◌++◌, ◌==◌, any,
  is_empty, if◌then◌else◌,
}
use python_concurrency_examp.Python.{
  Result, ok, err, Exc, value_error, runtime_error, Exec, gets, raise_if, modify, ◌>>=◌, ◌>>◌,
  check,
}

pub record DocumentFailure (A : Type 0) : Type 0 where
  pub document : A
  pub stage : String
  pub error : Exc

-- What the queues hold: a `_PipelineItem`, or the sentinel object.
pub data Item (A : Type 0) : Type 0 where
  item : (original current : A) → Item A
  sentinel : Item A

-- A named stage function, `tuple[str, Callable[[Any], Any]]`.
pub record Stage (A : Type 0) : Type 0 where
  pub name : String
  pub run : A → Result A

-- The queue and the worker thread of one stage: `held` is the item between `queue.get()` and
-- `queue.task_done()`, and `alive` is whether the thread still runs `_run_stage`.
pub record Worker (A : Type 0) : Type 0 where
  pub held : Option (Item A)
  pub queue : List (Item A)
  pub alive : Bool

pub record DocumentPipeline (A : Type 0) : Type 0 where
  pub workers : List (Worker A)
  pub closed : Bool
  pub results : List A
  pub failures : List (DocumentFailure A)

module _ {A : Type 0} where
  -- an empty queue and a started thread for each stage
  abbrev pub start_workers : List (Stage A) → List (Worker A)
  start_workers [] = []
  start_workers (f ∷ fs) = record { held = none; queue = []; alive = true } ∷ start_workers fs

  -- `__init__`
  pub create : List (Stage A) → Result (DocumentPipeline A)
  create stages = check (is_empty stages) (value_error "stages must not be empty") (
      check (any (λ f. f.name == "") stages) (value_error "stage names must not be empty") (
        ok
          (record { workers = start_workers stages; closed = false; results = []; failures = [] })))

  -- `queue.put`
  abbrev pub put : Item A → Worker A → Worker A
  put x w = record w { queue = w.queue ++ x ∷ [] }

  -- `self._queues[0].put`
  abbrev pub put_first : Item A → List (Worker A) → List (Worker A)
  put_first x [] = []
  put_first x (w ∷ ws) = put x w ∷ ws

  pub submit : A → Exec (DocumentPipeline A) (Unit {0})
  submit document = do
    raise_if (← gets (λ p. p.closed)) (runtime_error "document pipeline is closed")
    modify (λ p. record p { workers = put_first (item document document) p.workers })

  -- The locked part of `close`; joining the workers is waiting for their steps.
  pub close : DocumentPipeline A → DocumentPipeline A
  close p =
      if p.closed then p else record p { closed = true; workers = put_first sentinel p.workers }

  -- `all(not worker.is_alive() for worker in self._workers)`, what `close` returns
  abbrev pub all_stopped : List (Worker A) → Bool
  all_stopped [] = true
  all_stopped (w ∷ ws) = not w.alive && all_stopped ws

  pub results : DocumentPipeline A → List A × DocumentPipeline A
  results p = (p.results, p)

  pub failures : DocumentPipeline A → List (DocumentFailure A) × DocumentPipeline A
  failures p = (p.failures, p)
