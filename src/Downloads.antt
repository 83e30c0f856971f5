-- ===== src/Downloads.antt =====
-- downloadpool/pool.py: a pool with a fixed number of download slots.
pub mod Slots
mod Tests
use python_concurrency_examp.Prelude.{
  String, Bool, true, false, Option, none, some, ◌==◌, if◌then◌else◌,
}
use python_concurrency_examp.Prelude.Int.{ℤ, pos, pos_part, leb_ℤ}
use python_concurrency_examp.Python.{Result, ok, err, Exc, value_error, timeout_error, check}
use python_concurrency_examp.Python.Semaphore.{Semaphore, Guarded}

pub record DownloadPool : Type 0 where
  pub slots : Semaphore

-- `__init__`
pub create : ℤ → Result DownloadPool
create max_concurrent =
    check (leb_ℤ max_concurrent (pos 0)) (value_error "max_concurrent must be greater than zero")
      (ok (record { slots = record { value = pos_part max_concurrent; limit = none } }))

-- A call of `run`: `download` is what the callable returns or raises, and `timed` whether `timeout` is
-- a number, however long.
pub record Call (T : Type 0) : Type 0 where
  pub download_id : String
  pub download : Result T
  pub timed : Bool

module _ {T : Type 0} where
  -- the check before the slot is asked for
  abbrev pub check_id : Call T → Option (Result T)
  check_id c =
      if c.download_id == "" then some (err (value_error "download_id must not be empty")) else none

  -- `_acquire_slot` that returns False, and the exception that `run` then raises
  abbrev pub no_slot : Call T → Option (Result T)
  no_slot c = if c.timed then some (err (timeout_error c.download_id)) else none

  -- `return download()`, and `release` in the `finally`, of which an exception would win
  abbrev pub download_and_release : Call T → Result (Unit {0}) → Result T
  download_and_release c (ok u) = c.download
  download_and_release c (err e) = err e

  unfoldable pub run : Guarded (Call T) (Result T)
  run = record { enter = check_id; timed_out = no_slot; leave = download_and_release }
