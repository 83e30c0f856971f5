-- ===== src/Tracker/System.antt =====
-- Handlers, a shutdown thread and one waiter over one tracker.
use python_concurrency_examp.Prelude.{ℕ, suc, ◌≡◌, true, false, if◌then◌else◌, nat_eq}
use python_concurrency_examp.Python.{Exc, ok, err}
use python_concurrency_examp.Tracker.{
  RequestTracker, create, drained, enter_request, exit_request, begin_shutdown,
}

-- A thread in `wait_until_drained`, that is in `Condition.wait_for(self._is_drained)`: about to
-- test the predicate with the lock held, asleep until a notification, or back with True.
pub data Waiter : Type 0 where
  testing asleep returned : Waiter

-- `in_flight` is the number of handlers between `yield` and `finally`.
pub record System : Type 0 where
  pub tracker : RequestTracker
  pub in_flight : ℕ
  pub waiter : Waiter

abbrev wake : Waiter → Waiter
wake asleep = testing
wake testing = testing
wake returned = returned

-- `notify_all` wakes a sleeping waiter, which then competes for the lock.
abbrev pub hears : RequestTracker → RequestTracker → Waiter → Waiter
hears before after w = if nat_eq before.notifications after.notifications then w else wake w

abbrev moves : RequestTracker → ℕ → System → System
moves t n s = record { tracker = t; in_flight = n; waiter = hears s.tracker t s.waiter }

pub data Step (s : System) : System → Type 0 where
  admit :
      {t : RequestTracker}
      → enter_request s.tracker ≡ (ok tt, t)
      → Step s (moves t (suc s.in_flight) s)
  refuse :
      {t : RequestTracker} (e : Exc)
      → enter_request s.tracker ≡ (err e, t)
      → Step s (moves t s.in_flight s)
  finish : {n : ℕ} → s.in_flight ≡ suc n → Step s (moves (exit_request s.tracker) n s)
  shut_down : Step s (moves (begin_shutdown s.tracker) s.in_flight s)
  test_passes :
      s.waiter ≡ testing → drained s.tracker ≡ true → Step s (record s { waiter = returned })
  test_fails :
      s.waiter ≡ testing → drained s.tracker ≡ false → Step s (record s { waiter = asleep })

pub data Reach (s : System) : System → Type 0 where
  here : Reach s s
  next : {t u : System} → Reach s t → Step t u → Reach s u

abbrev pub start : System
start = record { tracker = create; in_flight = 0; waiter = testing }
