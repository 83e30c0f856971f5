-- ===== src/Tracker.antt =====
-- requesttracker/tracker.py: requests in flight and graceful shutdown. `track_request` takes the
-- condition's lock when the handler starts and when it ends, and other threads run in between.
pub mod System
pub mod Draining
mod Tests
use python_concurrency_examp.Prelude.{
  ℕ, suc, String, Bool, true, false, Option, none, some, List, [], ◌∷◌, if◌then◌else◌,
}
use python_concurrency_examp.Prelude.Int.{ℤ, pos, ◌+ℤ◌, ◌-ℤ◌, leb_ℤ}
use python_concurrency_examp.Python.{
  Exec, ok, err, pure, gets, raise_if, modify, shutdown_started_error, ◌>>=◌, ◌>>◌,
}

-- `notifications` counts the calls of `notify_all` on the condition.
pub record RequestTracker : Type 0 where
  pub active_requests : ℤ
  pub shutdown_started : Bool
  pub notifications : ℕ

-- `__init__`
abbrev pub create : RequestTracker
create = record { active_requests = pos 0; shutdown_started = false; notifications = 0 }

is_zero : ℤ → Bool
is_zero (ℤ.pos n) = elim n [ ℕ.zero ↦ true | ℕ.suc m ↦ false ]
is_zero (ℤ.negsuc n) = false

-- `_is_drained`
unfoldable pub drained : RequestTracker → Bool
unfolding is_zero
drained t = is_zero t.active_requests

-- `if self._active_requests == 0: self._condition.notify_all()`
notify_if_drained : RequestTracker → RequestTracker
unfolding drained
notify_if_drained t = if drained t then record t { notifications = suc t.notifications } else t

-- `track_request` up to its `yield`
pub enter_request : Exec RequestTracker (Unit {0})
enter_request = do
  raise_if (← gets (λ t. t.shutdown_started))
      (shutdown_started_error "shutdown has already started")
  modify (λ t. record t { active_requests = t.active_requests +ℤ pos 1 })

-- its `finally` block, which runs however the handler ends
pub exit_request : RequestTracker → RequestTracker
unfolding notify_if_drained
exit_request t = notify_if_drained (record t { active_requests = t.active_requests -ℤ pos 1 })

pub begin_shutdown : RequestTracker → RequestTracker
unfolding notify_if_drained
begin_shutdown t = notify_if_drained (record t { shutdown_started = true })

pub active_requests : Exec RequestTracker ℤ
active_requests = gets (λ t. t.active_requests)

pub is_shutting_down : Exec RequestTracker Bool
is_shutting_down = gets (λ t. t.shutdown_started)
