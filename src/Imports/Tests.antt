-- ===== src/Imports/Tests.antt =====
-- Runs of import jobs and of the collector, and the theorems at these runs.
use python_concurrency_examp.Prelude.{◌≡◌, refl, true, false, List, [], ◌∷◌, Star, here, next}
use python_concurrency_examp.Prelude.Int.{pos}
use python_concurrency_examp.Python.{ok}
use python_concurrency_examp.Python.Text.{str_int}
use python_concurrency_examp.Python.StrSet.{mem}
use python_concurrency_examp.Imports.{
  ImportJob, ImportJobEvent, event, worker_finished, run_import_job,
}
use python_concurrency_examp.Imports.Worker.{progress, script}
use python_concurrency_examp.Imports.System.{
  System, start_process, start_collect, looping, Step, puts, gets, killed,
}
use python_concurrency_examp.Imports.Merged.{Merge}
use python_concurrency_examp.Imports.Collected.{collect-Merge}
use python_concurrency_examp.Imports.Killed.{killed-looping}
use python_concurrency_examp.Imports.Returns.{collect-returns}

abbrev bad : ImportJob
bad = record {
  job_id = "j1";
  file_name = "a.csv";
  row_count = pos 120;
  should_fail_validation = true;
}

bad_run : run_import_job bad [] ≡ (
  ok tt,
  event (record { job_id = "j1"; stage = "started"; detail = "started importing a.csv" })
      ∷ event (record { job_id = "j1"; stage = "parsed"; detail = "parsed 120 rows" })
      ∷ event (record { job_id = "j1"; stage = "failed"; detail = "a.csv failed validation" })
      ∷ worker_finished "j1"
      ∷ [],
)
unfolding run_import_job mem str_int
bad_run = refl

abbrev bad_events : List ImportJobEvent
bad_events = progress bad

abbrev started_one : System
started_one = record {
  workers = record { job = bad; received = []; queued = []; pending = script bad; lost = [] } ∷ [];
  collected_events = [];
  finished_workers = 0;
}

started : start_collect (bad ∷ []) ≡ ok started_one
unfolding start_collect start_process run_import_job mem str_int
started = refl

abbrev collected_one : System
collected_one = record {
  workers = record { job = bad; received = script bad; queued = []; pending = []; lost = [] } ∷ [];
  collected_events = bad_events;
  finished_workers = 1;
}

to_collected : Star Step started_one collected_one
unfolding str_int
to_collected =
    next
      (next
        (next
          (next
            (next
              (next
                (next (next here (puts [] [] _ _ _ refl refl)) (gets [] [] _ _ _ refl refl refl))
                (puts [] [] _ _ _ refl refl))
              (puts [] [] _ _ _ refl refl))
            (gets [] [] _ _ _ refl refl refl))
          (puts [] [] _ _ _ refl refl))
        (gets [] [] _ _ _ refl refl refl))
      (gets [] [] _ _ _ refl refl refl)

abbrev killed_one : System
killed_one = record started_one {
  workers = record { job = bad; received = []; queued = []; pending = []; lost = script bad } ∷ [];
}

to_killed : Star Step started_one killed_one
to_killed = next here (killed [] [] _ refl)

collect-Merge_example : Merge (progress bad ∷ []) bad_events
collect-Merge_example =
    collect-Merge (bad ∷ []) started_one collected_one (refl, tt) started to_collected refl

killed-looping_example : looping killed_one ≡ true
killed-looping_example =
    killed-looping (bad ∷ []) started_one killed_one killed_one (refl, tt) started to_killed refl
      here

collect-returns_example :
    (u : System) × Star Step started_one u
    × (looping u ≡ false)
    × Merge (progress bad ∷ []) u.collected_events
collect-returns_example =
    collect-returns (bad ∷ []) started_one started_one (refl, tt) started here (refl, tt)
