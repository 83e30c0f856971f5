-- ===== src/Tracker/Tests.antt =====
-- Runs of the tracker, and its theorems at inputs that meet their hypotheses.
use python_concurrency_examp.Prelude.{◌≤◌, ◌≡◌, refl, true, false}
use python_concurrency_examp.Prelude.Int.{pos, ◌+ℤ◌, ◌-ℤ◌}
use python_concurrency_examp.Python.{err, shutdown_started_error}
use python_concurrency_examp.Tracker.{drained, enter_request, exit_request, begin_shutdown}
use python_concurrency_examp.Tracker.System.{
  System, testing, asleep, admit, finish, shut_down, test_fails, Reach, here, next, start,
}
use python_concurrency_examp.Tracker.Draining.{Reach-no_lost_wakeup, shutdown-drains}

-- One request in flight, shutdown begun, and the waiter asleep.
abbrev closing : System
closing = record {
  tracker = record { active_requests = pos 1; shutdown_started = true; notifications = 0 };
  in_flight = 1;
  waiter = asleep;
}

Reach-closing : Reach start closing
unfolding enter_request begin_shutdown drained ◌+ℤ◌
Reach-closing = next (next (next here (admit refl)) shut_down) (test_fails refl refl)

-- The end of the request wakes the waiter.
abbrev closed : System
closed = record {
  tracker = record { active_requests = pos 0; shutdown_started = true; notifications = 1 };
  in_flight = 0;
  waiter = testing;
}

Reach-closed : Reach closing closed
unfolding exit_request drained ◌-ℤ◌
Reach-closed = next here (finish refl)

Reach-no_lost_wakeup_example :
    (closing.tracker.active_requests ≡ pos closing.in_flight)
    × (closing.waiter ≡ asleep → drained closing.tracker ≡ false)
Reach-no_lost_wakeup_example = Reach-no_lost_wakeup Reach-closing

shutdown-drains_example :
    (enter_request closed.tracker
      ≡ (err (shutdown_started_error "shutdown has already started"), closed.tracker))
    × (closed.in_flight ≤ closing.in_flight)
    × (drained closing.tracker ≡ true → drained closed.tracker ≡ true)
shutdown-drains_example = shutdown-drains Reach-closing refl Reach-closed
