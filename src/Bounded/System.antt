-- ===== src/Bounded/System.antt =====
-- Producers, consumers, and callers of `task_done` and `shutdown`.
use python_concurrency_examp.Prelude.{◌≡◌, Bool, Option, some, List, [], ◌∷◌, ◌++◌, if◌then◌else◌}
use python_concurrency_examp.Prelude.Int.{ℤ}
use python_concurrency_examp.Python.{Exc, Result, ok, err}
use python_concurrency_examp.Python.Queue.{waits, ends}
use python_concurrency_examp.Bounded.{BoundedQueue, put, get, task_done, shutdown}

-- `accepted` are the items put, `returned` those that a `get` returned, and `discarded` those that a
-- shutdown took out. `marks` is what each call of `task_done` gave.
pub record System (T : Type 0) : Type 0 where
  pub work : BoundedQueue T
  pub accepted : List T
  pub returned : List T
  pub discarded : List T
  pub marks : List (Result (Unit {0}))

-- Calls that time out are those that wait, with a timeout. `task_done` may be called at any time.
pub data Step {T : Type 0} (s : System T) : System T → Type 0 where
  puts :
      {w : BoundedQueue T} (x : T) (timeout : Option ℤ)
      → put x timeout s.work ≡ (ends (ok tt), w)
      → Step s (record s { work = w; accepted = s.accepted ++ x ∷ [] })
  put_times_out :
      {w : BoundedQueue T} (x : T) (t : ℤ)
      → put x (some t) s.work ≡ (waits, w)
      → Step s (record s { work = w })
  put_raises :
      {w : BoundedQueue T} (x : T) (timeout : Option ℤ) (e : Exc)
      → put x timeout s.work ≡ (ends (err e), w)
      → Step s (record s { work = w })
  gets :
      {w : BoundedQueue T} (x : T) (timeout : Option ℤ)
      → get timeout s.work ≡ (ends (ok x), w)
      → Step s (record s { work = w; returned = s.returned ++ x ∷ [] })
  get_times_out :
      {w : BoundedQueue T} (t : ℤ)
      → get (some t) s.work ≡ (waits, w)
      → Step s (record s { work = w })
  get_raises :
      {w : BoundedQueue T} (timeout : Option ℤ) (e : Exc)
      → get timeout s.work ≡ (ends (err e), w)
      → Step s (record s { work = w })
  marks_done :
      {w : BoundedQueue T} (r : Result (Unit {0}))
      → task_done s.work ≡ (r, w)
      → Step s (record s { work = w; marks = s.marks ++ r ∷ [] })
  shuts_down :
      (immediate : Bool)
      → Step s (record s {
        work = shutdown immediate s.work;
        discarded = (if immediate then s.work.queue.items else []) ++ s.discarded;
      })
