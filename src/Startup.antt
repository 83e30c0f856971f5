-- ===== src/Startup.antt =====
-- servicestartup/startup.py: a readiness signal, as a threading.Event that is only ever set.
pub mod Waiting
mod Tests
use python_concurrency_examp.Prelude.{
  Bool, true, false, Option, none, some, List, [], ◌∷◌, if◌then◌else◌,
}

pub record ServiceStartup : Type 0 where
  pub ready : Bool

-- `__init__`
abbrev pub create : ServiceStartup
create = record { ready = false }

abbrev pub mark_ready : ServiceStartup → ServiceStartup
mark_ready s = record { ready = true }

pub is_ready : ServiceStartup → Bool
is_ready s = s.ready

-- The calls of other threads.
pub data Call : Type 0 where
  marks reads : Call

abbrev pub step : Call → ServiceStartup → ServiceStartup
step marks s = mark_ready s
step reads s = s

abbrev pub run : List Call → ServiceStartup → ServiceStartup
run [] s = s
run (c ∷ cs) s = run cs (step c s)

-- `wait_until_ready` while other threads make the calls `cs`; a timeout, if there is one, expires at
-- their end, and without one the thread still waits, which is `none`.
unfoldable pub wait_until_ready : Bool → List Call → ServiceStartup → Option Bool
wait_until_ready timed [] s = if s.ready then some true else if timed then some false else none
wait_until_ready timed (c ∷ cs) s =
    let woken = wait_until_ready timed cs (step c s) in if s.ready then some true else woken
