-- ===== src/Cleanup/Tests.antt =====
-- A worker that is asked to stop during its first cleanup.
use python_concurrency_examp.Prelude.{◌≡◌, refl, true, false, [], ◌∷◌, length, Star, here, next}
use python_concurrency_examp.Prelude.Int.{pos}
use python_concurrency_examp.Python.{ok, err, app_error}
use python_concurrency_examp.Cleanup.{
  ScheduledCleanup, no_thread, cleaning, ended, create, start, request_stop, stopped,
}
use python_concurrency_examp.Cleanup.System.{
  System, Step, starts, asks_to_stop, begins, ends, finishes,
}
use python_concurrency_examp.Cleanup.Stopping.{fresh, stop-ends}

abbrev new_cleanup : ScheduledCleanup
new_cleanup = record {
  interval = pos 60;
  stop_requested = false;
  thread = no_thread;
  started = false;
  errors = [];
}

new_cleanup-made : create (pos 60) ≡ ok new_cleanup
unfolding create
new_cleanup-made = refl

abbrev asked : System
asked = record {
  cleanup = record new_cleanup { stop_requested = true; thread = cleaning; started = true };
  begun = 1;
  finished = [];
}

abbrev over : System
over = record {
  cleanup = record new_cleanup {
    stop_requested = true;
    thread = ended;
    started = true;
    errors = app_error 1 ∷ [];
  };
  begun = 1;
  finished = err (app_error 1) ∷ [];
}

to_asked : Star Step (fresh new_cleanup) asked
unfolding start request_stop
to_asked = next (next (next here (starts refl)) (begins refl refl)) (asks_to_stop refl)

to_over : Star Step asked over
to_over = next (next here (finishes (err (app_error 1)) refl)) (ends refl refl)

stop-ends_example :
    (t : System) × Star Step asked t
    × (stopped t.cleanup ≡ true)
    × (t.begun ≡ 1)
    × (length t.finished ≡ 1)
stop-ends_example = stop-ends (pos 60) new_cleanup asked new_cleanup-made to_asked refl
