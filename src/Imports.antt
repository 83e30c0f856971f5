-- ===== src/Imports.antt =====
-- importjobevents/events.py: one process for each import job, and a queue from all of them to the
-- collector in the parent process.
pub mod Worker
pub mod System
pub mod Merged
pub mod Invariant
pub mod Collected
pub mod Killed
pub mod Returns
mod Tests
use Prim.Native.String.{◌++◌ as ◌+++◌}
use python_concurrency_examp.Prelude.{
  ℕ, suc, String, Bool, true, false, not, List, [], ◌∷◌, ◌++◌, ◌==◌, if◌then◌else◌, is_empty,
}
use python_concurrency_examp.Prelude.Int.{ℤ, pos, ltb_ℤ}
use python_concurrency_examp.Python.{
  Result, ok, err, Exc, value_error, str, Exec, raise_if, raise, pure, modify, ◌>>=◌, ◌>>◌, check,
}
use python_concurrency_examp.Python.StrSet.{StrSet, mem}
use python_concurrency_examp.Python.Text.{str_int}

-- `_VALID_STAGES`
abbrev pub valid_stages : StrSet
valid_stages = "started" ∷ "parsed" ∷ "validated" ∷ "stored" ∷ "failed" ∷ []

pub record ImportJob : Type 0 where
  pub job_id : String
  pub file_name : String
  pub row_count : ℤ
  pub should_fail_validation : Bool

-- `ImportJob(...)` with its `__post_init__`
pub create_job : String → String → ℤ → Bool → Result ImportJob
create_job job_id file_name row_count should_fail_validation =
    check (job_id == "") (value_error "job_id must not be empty") (
      check (file_name == "") (value_error "file_name must not be empty") (
        check (ltb_ℤ row_count (pos 0)) (value_error "row_count must not be negative") (
          ok (record {
            job_id = job_id;
            file_name = file_name;
            row_count = row_count;
            should_fail_validation = should_fail_validation;
          }))))

pub record ImportJobEvent : Type 0 where
  pub job_id : String
  pub stage : String
  pub detail : String

-- `ImportJobEvent(...)` with its `__post_init__`
pub create_event : String → String → String → Result ImportJobEvent
create_event job_id stage detail = check (job_id == "") (value_error "job_id must not be empty") (
    check (not (mem stage valid_stages)) (value_error "stage must be a known import stage") (
      check (detail == "") (value_error "detail must not be empty")
        (ok (record { job_id = job_id; stage = stage; detail = detail }))))

-- What the queue carries: an event, or `_WorkerFinished`.
pub data Message : Type 0 where
  event : ImportJobEvent → Message
  worker_finished : String → Message

-- `events.put(ImportJobEvent(...))`, on the messages that the process has put so far
put_event : String → String → String → Exec (List Message) (Unit {0})
unfolding create_event
put_event job_id stage detail sent = elim (create_event job_id stage detail) [
  | err error ↦ (err error, sent)
  | ok e ↦ (ok tt, sent ++ event e ∷ [])
]

-- the body of `try` in `_run_import_job`
import_rows : ImportJob → Exec (List Message) (Unit {0})
unfolding put_event
import_rows job = do
  put_event job.job_id "started" ("started importing " +++ job.file_name)
  put_event job.job_id "parsed" ("parsed " +++ (str_int job.row_count +++ " rows"))
  raise_if job.should_fail_validation (value_error (job.file_name +++ " failed validation"))
  put_event job.job_id "validated" "validated rows"
  put_event job.job_id "stored" "stored import rows"

-- its `except` clause, where the body has raised
handle_error : ImportJob → Result (Unit {0}) → Exec (List Message) (Unit {0})
unfolding put_event
handle_error job (ok u) = pure tt
handle_error job (err error) = put_event job.job_id "failed" (str error)

-- `_run_import_job`, with its `finally` clause
pub run_import_job : ImportJob → Exec (List Message) (Unit {0})
unfolding import_rows handle_error
run_import_job job sent =
    let (outcome, sent') = import_rows job sent in
    let (outcome', sent'') = handle_error job outcome sent' in
    (outcome', sent'' ++ worker_finished job.job_id ∷ [])
