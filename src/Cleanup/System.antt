-- ===== src/Cleanup/System.antt =====
-- The background thread, and the threads that start and stop it.
use python_concurrency_examp.Prelude.{ℕ, suc, ◌≡◌, Bool, true, false, List, [], ◌∷◌, ◌++◌}
use python_concurrency_examp.Python.{Result, ok, err, Exc}
use python_concurrency_examp.Cleanup.{
  waiting, cleaning, ended, ScheduledCleanup, start, request_stop,
}

-- `begun` counts the cleanups begun, and `finished` holds what each gave at its end.
pub record System : Type 0 where
  pub cleanup : ScheduledCleanup
  pub begun : ℕ
  pub finished : List (Result (Unit {0}))

-- `except Exception as error: self._errors.append(error)`
abbrev pub error_of : Result (Unit {0}) → List Exc
error_of (ok u) = []
error_of (err e) = e ∷ []

pub data Step (s : System) : System → Type 0 where
  starts :
      {r : Result (Unit {0})} {c : ScheduledCleanup}
      → start s.cleanup ≡ (r, c)
      → Step s (record s { cleanup = c })
  asks_to_stop :
      {b : Bool} {c : ScheduledCleanup}
      → request_stop s.cleanup ≡ (b, c)
      → Step s (record s { cleanup = c })
  -- the `wait` that returns False after the interval
  begins :
      s.cleanup.thread ≡ waiting
      → s.cleanup.stop_requested ≡ false
      → Step s
          (record s { cleanup = record (s.cleanup) { thread = cleaning }; begun = suc s.begun })
  -- the `wait` that returns True
  ends :
      s.cleanup.thread ≡ waiting
      → s.cleanup.stop_requested ≡ true
      → Step s (record s { cleanup = record (s.cleanup) { thread = ended } })
  -- the end of `self._cleanup()`
  finishes :
      (r : Result (Unit {0}))
      → s.cleanup.thread ≡ cleaning
      → Step s (record s {
        cleanup = record (s.cleanup) { thread = waiting; errors = s.cleanup.errors ++ error_of r };
        finished = s.finished ++ r ∷ [];
      })
