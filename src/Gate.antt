-- ===== src/Gate.antt =====
-- barrierdeployment/deployment.py: workers that go on only when all of them are ready.
pub mod System
pub mod Passing
pub mod Rendezvous
mod Tests
use python_concurrency_examp.Prelude.{ℕ, String, Bool, Option, none, some, ◌==◌, if◌then◌else◌}
use python_concurrency_examp.Prelude.Int.{ℤ, pos, pos_part, ltb_ℤ}
use python_concurrency_examp.Python.{Result, ok, err, Exc, value_error, check}
use python_concurrency_examp.Python.Barrier
use python_concurrency_examp.Python.Barrier.{Barrier, new_barrier, Arrival, arrive, resume}

pub record DeploymentGate : Type 0 where
  pub barrier : Barrier

-- `__init__`
pub create : ℤ → Result DeploymentGate
create required_workers =
    check (ltb_ℤ required_workers (pos 2)) (value_error "required_workers must be at least two")
      (ok (record { barrier = new_barrier (pos_part required_workers) }))

-- `wait_until_ready` up to its wait: an exception, or how the worker arrived
unfoldable pub begin_wait : String → DeploymentGate → Result Arrival × DeploymentGate
begin_wait step_name g =
    if step_name == ""
    then (err (value_error "step_name must not be empty"), g)
    else (ok (arrive g.barrier).0, record { barrier = (arrive g.barrier).1 })

-- the end of the wait
unfoldable pub end_wait : ℕ → DeploymentGate → Result ℕ × DeploymentGate
end_wait index g = ((resume index g.barrier).0, record { barrier = (resume index g.barrier).1 })

unfoldable pub reset : DeploymentGate → DeploymentGate
reset g = record { barrier = Barrier.reset g.barrier }

pub is_broken : DeploymentGate → Bool
is_broken g = Barrier.is_broken g.barrier
