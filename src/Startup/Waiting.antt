-- ===== src/Startup/Waiting.antt =====
-- servicestartup/startup.py: what a waiter gets, and that readiness stays.
use python_concurrency_examp.Prelude.{
  ◌≡◌, refl, sym, ap, ◌∙◌, inl, inr, Bool, true, false, Option, none, some, List, [], ◌∷◌,
  Bool-cases, if◌then◌else◌,
}
use python_concurrency_examp.Startup.{
  ServiceStartup, mark_ready, is_ready, Call, marks, reads, step, run, wait_until_ready,
}

ready-run : (cs : List Call) (s : ServiceStartup) → s.ready ≡ true → (run cs s).ready ≡ true
ready-run [] s h = h
ready-run (marks ∷ cs) s h = ready-run cs (mark_ready s) refl
ready-run (reads ∷ cs) s h = ready-run cs s h

-- The answer at the end of a wait.
abbrev answer : Bool → Bool → Option Bool
answer timed ready = if ready then some true else if timed then some false else none

wait-end :
    (timed : Bool) (cs : List Call) (s : ServiceStartup)
    → wait_until_ready timed cs s ≡ answer timed (run cs s).ready
unfolding wait_until_ready
wait-end timed [] s = refl
wait-end timed (c ∷ cs) s = elim (Bool-cases s.ready) [
  | inl at_once ↦
      ap (λ b. if b then some true else wait_until_ready timed cs (step c s)) at_once
      ∙ sym (ap (answer timed) (ready-run (c ∷ cs) s at_once))
  | inr not_yet ↦
      ap (λ b. if b then some true else wait_until_ready timed cs (step c s)) not_yet
      ∙ wait-end timed cs (step c s)
]

-- A thread that waits while others call, and is ready by the end, gets True, as does every thread that
-- waits afterwards; else it gets False with a timeout and waits on without.
wait_until_ready_lem :
    (timed : Bool) (cs ds : List Call) (s : ServiceStartup)
    → (wait_until_ready timed cs s ≡ answer timed (is_ready (run cs s)))
      × (wait_until_ready timed ds (mark_ready (run cs s)) ≡ some true)
unfolding is_ready
wait_until_ready_lem timed cs ds s = (
  wait-end timed cs s,
  wait-end timed ds (mark_ready (run cs s))
      ∙ ap (answer timed) (ready-run ds (mark_ready (run cs s)) refl),
)
