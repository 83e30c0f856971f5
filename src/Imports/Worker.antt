-- ===== src/Imports/Worker.antt =====
-- What one worker process puts on the queue.
use Prim.Native.String.{◌++◌ as ◌+++◌}
use text.Mathlib.TextLemmas.{append-eq-nil_iff}
use python_concurrency_examp.Prelude.{
  String, ◌≡◌, ◌≢◌, refl, Bool, true, false, List, [], ◌∷◌, ◌++◌, ◌==◌, map, append_assoc, arith,
  if◌then◌else◌, eq_iff, inl, inr, Bool-cases,
}
use python_concurrency_examp.Prelude.Int.{ℤ}
use python_concurrency_examp.Python.{ok}
use python_concurrency_examp.Python.Text.{str_int}
use python_concurrency_examp.Python.StrSet.{mem}
use python_concurrency_examp.Imports.{
  ImportJob, ImportJobEvent, Message, event, worker_finished, create_job, create_event, put_event,
  run_import_job, valid_stages,
}

nonempty_left : (a b : String) → a ≢ "" → (a +++ b == "") ≡ false
nonempty_left a b h = elim (Bool-cases (a +++ b == "")) [
  | inl empty ↦ absurd (h (append-eq-nil_iff.0 ((eq_iff (a +++ b) "").0 empty)).0)
  | inr ok_ ↦ ok_
]

nonempty_right : (a b : String) → b ≢ "" → (a +++ b == "") ≡ false
nonempty_right a b h = elim (Bool-cases (a +++ b == "")) [
  | inl empty ↦ absurd (h (append-eq-nil_iff.0 ((eq_iff (a +++ b) "").0 empty)).1)
  | inr ok_ ↦ ok_
]

literal : (a : String) → (a == "") ≡ false → a ≢ ""
literal a h e = ground (arith, eq_iff a "")

abbrev step_event : ImportJob → String → String → ImportJobEvent
step_event job stage detail = record { job_id = job.job_id; stage = stage; detail = detail }

-- The events of a job, in order.
abbrev pub progress : ImportJob → List ImportJobEvent
progress job =
    step_event job "started" ("started importing " +++ job.file_name)
    ∷ step_event job "parsed" ("parsed " +++ (str_int job.row_count +++ " rows"))
    ∷ (if job.should_fail_validation
        then step_event job "failed" (job.file_name +++ " failed validation") ∷ []
        else step_event job "validated" "validated rows"
          ∷ step_event job "stored" "stored import rows"
          ∷ [])

abbrev pub script : ImportJob → List Message
script job = map event (progress job) ++ worker_finished job.job_id ∷ []

create_job-named :
    (i f : String) (n : ℤ) (b : Bool) (job : ImportJob)
    → create_job i f n b ≡ ok job
    → (job.job_id == "") ≡ false
unfolding create_job
create_job-named i f n b job h = ground arith

put_event_lem :
    (job : ImportJob) (stage detail : String) (sent : List Message)
    → (job.job_id == "") ≡ false
    → mem stage valid_stages ≡ true
    → (detail == "") ≡ false
    → put_event job.job_id stage detail sent
      ≡ (ok tt, sent ++ event (step_event job stage detail) ∷ [])
unfolding put_event create_event
put_event_lem job stage detail sent named known given = ground arith

four_puts :
    (s : List Message) (a b c d : Message)
    → (((s ++ a ∷ []) ++ b ∷ []) ++ c ∷ []) ++ d ∷ [] ≡ s ++ (a ∷ b ∷ c ∷ d ∷ [])
four_puts s a b c d = simp append_assoc

five_puts :
    (s : List Message) (a b c d e : Message)
    → ((((s ++ a ∷ []) ++ b ∷ []) ++ c ∷ []) ++ d ∷ []) ++ e ∷ [] ≡ s ++ (a ∷ b ∷ c ∷ d ∷ e ∷ [])
five_puts s a b c d e = simp append_assoc

-- A worker of a job with a name puts the events of the job in order and then that it has finished,
-- and ends with no exception.
pub run_import_job_lem :
    (job : ImportJob) (sent : List Message)
    → (job.job_id == "") ≡ false
    → run_import_job job sent ≡ (ok tt, sent ++ script job)
unfolding run_import_job mem
run_import_job_lem job sent named =
    let started =
      nonempty_left "started importing " job.file_name (literal "started importing " refl) in
    let parsed =
      nonempty_left "parsed " (str_int job.row_count +++ " rows") (literal "parsed " refl) in
    let failed =
      nonempty_right job.file_name " failed validation" (literal " failed validation" refl) in
    let s = step_event job "started" ("started importing " +++ job.file_name) in
    let p = step_event job "parsed" ("parsed " +++ (str_int job.row_count +++ " rows")) in
    let f = step_event job "failed" (job.file_name +++ " failed validation") in
    let v = step_event job "validated" "validated rows" in
    let st = step_event job "stored" "stored import rows" in
    let over = worker_finished job.job_id in
    elim (Bool-cases job.should_fail_validation) [
      | inl bad ↦
          ground (arith, started, parsed, failed, four_puts sent (event s) (event p) (event f) over)
      | inr good ↦
          ground
            (arith, started, parsed, five_puts sent (event s) (event p) (event v) (event st) over)
    ]
