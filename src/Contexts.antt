-- ===== src/Contexts.antt =====
-- threadlocalrequest/context.py and asynccontextrequest/context.py: a request ID for each thread or task.
-- Threads and tasks are numbers.
pub mod Threads
pub mod Tasks
pub mod Restored
mod Tests
use python_concurrency_examp.Prelude.{ℕ, String, Bool, Option, none, ◌==◌, nat_eq, if◌then◌else◌}

-- The request IDs of all threads or tasks.
abbrev pub Slots : Type 0
Slots = ℕ → Option String

abbrev pub empty : Slots
empty i = none

abbrev pub update : ℕ → Option String → Slots → Slots
update i v slots j = if nat_eq i j then v else slots j
