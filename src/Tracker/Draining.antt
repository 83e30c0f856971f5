-- ===== src/Tracker/Draining.antt =====
-- The count of requests in flight, admission after the shutdown, and the waiter.
use python_concurrency_examp.Prelude.{◌≤◌, ◌≡◌, ◌≢◌, refl, true, false, arith}
use python_concurrency_examp.Prelude.Int.{pos, ◌+ℤ◌, ◌-ℤ◌}
use python_concurrency_examp.Python.{err, shutdown_started_error}
use python_concurrency_examp.Tracker.{drained, enter_request, exit_request, begin_shutdown}
use python_concurrency_examp.Tracker.System.{
  System, asleep, Step, admit, refuse, finish, shut_down, test_passes, test_fails, Reach, here,
  next, start,
}

pub record Inv (s : System) : Type 0 where
  pub exact : s.tracker.active_requests ≡ pos s.in_flight
  pub awake : s.waiter ≡ asleep → s.in_flight ≢ 0

start-Inv : Inv start
start-Inv = record { exact = refl; awake = λ e. cc }

Step-Inv : {s t : System} → Step s t → Inv s → Inv t
unfolding drained enter_request exit_request begin_shutdown ◌+ℤ◌ ◌-ℤ◌
Step-Inv (admit e) v = ground arith
Step-Inv (refuse x e) v = ground arith
Step-Inv (finish e) v = ground arith
Step-Inv shut_down v = ground arith
Step-Inv (test_passes w e) v = ground arith
Step-Inv (test_fails w e) v = ground arith

Reach-Inv : {s t : System} → Inv s → Reach s t → Inv t
Reach-Inv v here = v
Reach-Inv v (next r st) = Step-Inv st (Reach-Inv v r)

drained-zero : (s : System) → Inv s → drained s.tracker ≡ true → s.in_flight ≡ 0
unfolding drained
drained-zero s v h = ground arith

-- However handlers, shutdown and a waiter interleave, the active count is the number of handlers
-- in flight, and a waiter that sleeps in `wait_until_drained` does so only while one is in flight:
-- the end of the last request always wakes it.
pub Reach-no_lost_wakeup :
    {s : System}
    → Reach start s
    → (s.tracker.active_requests ≡ pos s.in_flight)
      × (s.waiter ≡ asleep → drained s.tracker ≡ false)
Reach-no_lost_wakeup {s} r = let v = Reach-Inv start-Inv r in (v.exact, sleeps s v)
  where
    sleeps : (s : System) → Inv s → s.waiter ≡ asleep → drained s.tracker ≡ false
    sleeps s v w = ground (arith, drained-zero s v)

-- After shutdown has started it stays so and the handlers in flight do not grow.
Step-shutdown :
    {s t : System}
    → Step s t
    → s.tracker.shutdown_started ≡ true
    → (t.tracker.shutdown_started ≡ true) × (t.in_flight ≤ s.in_flight)
unfolding drained enter_request exit_request begin_shutdown
Step-shutdown (admit e) h = ground arith
Step-shutdown (refuse x e) h = ground arith
Step-shutdown (finish e) h = ground arith
Step-shutdown shut_down h = ground arith
Step-shutdown (test_passes w e) h = ground arith
Step-shutdown (test_fails w e) h = ground arith

Reach-shutdown :
    {s t : System}
    → Reach s t
    → s.tracker.shutdown_started ≡ true
    → (t.tracker.shutdown_started ≡ true) × (t.in_flight ≤ s.in_flight)
Reach-shutdown here h = (h, omega arith)
Reach-shutdown (next r st) h =
    let (still, fewer) = Reach-shutdown r h in
    let (still', fewer') = Step-shutdown st still in (still', omega arith)

-- From the start of shutdown on, every new request is refused and changes nothing, the active count
-- never grows, and a drained tracker stays drained.
pub shutdown-drains :
    {s t : System}
    → Reach start s
    → s.tracker.shutdown_started ≡ true
    → Reach s t
    → (enter_request t.tracker
        ≡ (err (shutdown_started_error "shutdown has already started"), t.tracker))
      × (t.in_flight ≤ s.in_flight)
      × (drained s.tracker ≡ true → drained t.tracker ≡ true)
shutdown-drains {s} {t} before shut after =
    let (still, fewer) = Reach-shutdown after shut in
    let v = Reach-Inv start-Inv before in
    let w = Reach-Inv v after in (refused t still, fewer, λ h. stays s t v w fewer h)
  where
    refused :
        (t : System)
        → t.tracker.shutdown_started ≡ true
        → enter_request t.tracker
          ≡ (err (shutdown_started_error "shutdown has already started"), t.tracker)
    refused t still = unfold enter_request in ground arith

    stays :
        (s t : System)
        → Inv s
        → Inv t
        → t.in_flight ≤ s.in_flight
        → drained s.tracker ≡ true
        → drained t.tracker ≡ true
    stays s t v w fewer h = unfold drained in ground (arith, drained-zero s v h)
