-- ===== src/Gate/System.antt =====
-- The workers of a deployment, and callers of `reset`.
use python_concurrency_examp.Prelude.{ℕ, suc, String, ◌≡◌, List, [], ◌∷◌, ◌++◌}
use python_concurrency_examp.Python.{Exc, Result, ok, err, broken_barrier}
use python_concurrency_examp.Python.Barrier.{blocked, refused, waits, released}
use python_concurrency_examp.Gate.{DeploymentGate, begin_wait, end_wait, reset}

-- The indices of the workers that wait, what the calls that ended gave, and how often a last worker
-- has released the others.
pub record System : Type 0 where
  pub gate : DeploymentGate
  pub waiting : List ℕ
  pub returned : List (Result ℕ)
  pub releases : ℕ

pub data Step (s : System) : System → Type 0 where
  raises :
      {g : DeploymentGate} (step_name : String) (e : Exc)
      → begin_wait step_name s.gate ≡ (err e, g)
      → Step s (record s { gate = g; returned = s.returned ++ err e ∷ [] })
  is_blocked :
      {g : DeploymentGate} (step_name : String)
      → begin_wait step_name s.gate ≡ (ok blocked, g)
      → Step s (record s { gate = g })
  is_refused :
      {g : DeploymentGate} (step_name : String)
      → begin_wait step_name s.gate ≡ (ok refused, g)
      → Step s (record s { gate = g; returned = s.returned ++ err broken_barrier ∷ [] })
  joins :
      {g : DeploymentGate} (step_name : String) (index : ℕ)
      → begin_wait step_name s.gate ≡ (ok (waits index), g)
      → Step s (record s { gate = g; waiting = s.waiting ++ index ∷ [] })
  releases_all :
      {g : DeploymentGate} (step_name : String) (index : ℕ)
      → begin_wait step_name s.gate ≡ (ok (released index), g)
      → Step s
          (record s { gate = g; returned = s.returned ++ ok index ∷ []; releases = suc s.releases })
  goes_on :
      {g : DeploymentGate} (before after : List ℕ) (index : ℕ) (r : Result ℕ)
      → s.waiting ≡ before ++ index ∷ after
      → end_wait index s.gate ≡ (r, g)
      → Step s (record s { gate = g; waiting = before ++ after; returned = s.returned ++ r ∷ [] })
  resets : Step s (record s { gate = reset s.gate })
