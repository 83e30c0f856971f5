-- ===== src/Limiter.antt =====
-- ratelimiter/limiter.py: permits for calls of a third-party API.
pub mod Permits
mod Tests
use python_concurrency_examp.Prelude.{Bool, true, false, Option, none, some, if◌then◌else◌}
use python_concurrency_examp.Prelude.Int.{ℤ, pos, pos_part, leb_ℤ}
use python_concurrency_examp.Python.{Result, ok, err, Exc, value_error, timeout_error, check}
use python_concurrency_examp.Python.Semaphore.{Semaphore, Guarded}

pub record ApiRateLimiter : Type 0 where
  pub permits : Semaphore

-- `__init__`
pub create : ℤ → Result ApiRateLimiter
create max_in_flight =
    check (leb_ℤ max_in_flight (pos 0)) (value_error "max_in_flight must be greater than zero") (
      ok (record {
        permits = record { value = pos_part max_in_flight; limit = some (pos_part max_in_flight) };
      }))

-- `with limiter.acquire(timeout): body`: `body` is what the block returns or raises, and `timed` whether
-- `timeout` is a number.
pub record Leased (T : Type 0) : Type 0 where
  pub body : Result T
  pub timed : Bool

module _ {T : Type 0} where
  -- `_acquire_permit` that returns False, and the exception that `acquire` then raises
  abbrev pub no_permit : Leased T → Option (Result T)
  no_permit c =
      if c.timed then some (err (timeout_error "timed out waiting for API call permit")) else none

  -- `yield`, and `release` in the `finally`, of which an exception would win
  abbrev pub yield_and_release : Leased T → Result (Unit {0}) → Result T
  yield_and_release c (ok u) = c.body
  yield_and_release c (err e) = err e

  unfoldable pub acquire : Guarded (Leased T) (Result T)
  acquire = record { enter = λ c. none; timed_out = no_permit; leave = yield_and_release }
