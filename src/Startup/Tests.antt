-- ===== src/Startup/Tests.antt =====
-- Waiters before and after the signal.
use python_concurrency_examp.Prelude.{◌≡◌, refl, true, false, none, some, [], ◌∷◌}
use python_concurrency_examp.Startup.{create, marks, reads, wait_until_ready}

woken : wait_until_ready false (reads ∷ marks ∷ []) create ≡ some true
unfolding wait_until_ready
woken = refl

timed_out : wait_until_ready true (reads ∷ []) create ≡ some false
unfolding wait_until_ready
timed_out = refl

still_waiting : wait_until_ready false (reads ∷ []) create ≡ none
unfolding wait_until_ready
still_waiting = refl
