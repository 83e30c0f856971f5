-- ===== src/Cleanup.antt =====
-- scheduledcleanup/cleanup.py: cleanup work in a background thread until it is stopped. The interval,
-- a float, is kept as an integer.
pub mod System
pub mod Stopping
mod Tests
use python_concurrency_examp.Prelude.{Bool, true, false, not, ◌&&◌, List, []}
use python_concurrency_examp.Prelude.Int.{ℤ, pos, leb_ℤ}
use python_concurrency_examp.Python.{
  Result, ok, err, Exc, value_error, runtime_error, Exec, gets, raise_if, modify, ◌>>=◌, ◌>>◌,
  check,
}

-- The background thread: none yet, in `wait` of `_run`, in `self._cleanup()`, or at its end.
pub data Thread : Type 0 where
  no_thread waiting cleaning ended : Thread

pub record ScheduledCleanup : Type 0 where
  pub interval : ℤ
  pub stop_requested : Bool
  pub thread : Thread
  pub started : Bool
  pub errors : List Exc

-- `__init__`
pub create : ℤ → Result ScheduledCleanup
create interval =
    check (leb_ℤ interval (pos 0)) (value_error "interval must be greater than zero") (
      ok (record {
        interval = interval;
        stop_requested = false;
        thread = no_thread;
        started = false;
        errors = [];
      }))

pub start : Exec ScheduledCleanup (Unit {0})
start = do
  raise_if (← gets (λ c. c.started)) (runtime_error "cleanup worker has already been started")
  modify (λ c. record c { started = true; stop_requested = false; thread = waiting })

abbrev pub is_none : Thread → Bool
is_none no_thread = true
is_none waiting = false
is_none cleaning = false
is_none ended = false

abbrev pub is_alive : Thread → Bool
is_alive no_thread = false
is_alive waiting = true
is_alive cleaning = true
is_alive ended = false

-- `stop` up to its `thread.join(timeout)`: whether it goes on to that, or has returned True
unfoldable pub request_stop : ScheduledCleanup → Bool × ScheduledCleanup
request_stop c =
    let asked = record c { stop_requested = true } in
    elim (is_none c.thread) [ true ↦ (false, c) | false ↦ (true, asked) ]

-- what `stop` returns after the join
pub stopped : ScheduledCleanup → Bool
stopped c = not (is_alive c.thread)

pub is_running : ScheduledCleanup → Bool
is_running c = not (is_none c.thread) && is_alive c.thread

pub errors : ScheduledCleanup → List Exc
errors c = c.errors
