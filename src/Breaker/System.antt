-- ===== src/Breaker/System.antt =====
-- Many threads over one breaker: the calls in flight are counted by the state that admitted them.
use python_concurrency_examp.Prelude.{ℕ, suc, ◌≡◌}
use python_concurrency_examp.Prelude.Int.{ℤ}
use python_concurrency_examp.Python.{Exc, ok, err}
use python_concurrency_examp.Breaker.{
  CircuitBreaker, closed, half_open, before_call, record_success, record_failure,
}

-- `normals` and `trials` are the calls in flight that were admitted CLOSED and HALF_OPEN; `lost`
-- counts the trials that a `BaseException` has ended.
pub record System : Type 0 where
  pub breaker : CircuitBreaker
  pub normals : ℕ
  pub trials : ℕ
  pub lost : ℕ

-- One step of one thread: each is the body of a `with self._lock:` block, and an aborted call
-- takes the lock no more.
pub data Step (s : System) : System → Type 0 where
  admit_normal :
      {b : CircuitBreaker} (now : ℤ)
      → before_call now s.breaker ≡ (ok closed, b)
      → Step s (record s { breaker = b; normals = suc s.normals })
  admit_trial :
      {b : CircuitBreaker} (now : ℤ)
      → before_call now s.breaker ≡ (ok half_open, b)
      → Step s (record s { breaker = b; trials = suc s.trials })
  reject :
      {b : CircuitBreaker} (now : ℤ) (e : Exc)
      → before_call now s.breaker ≡ (err e, b)
      → Step s (record s { breaker = b })
  normal_success :
      {n : ℕ}
      → s.normals ≡ suc n
      → Step s (record s { breaker = record_success closed s.breaker; normals = n })
  normal_failure :
      {n : ℕ} (now : ℤ)
      → s.normals ≡ suc n
      → Step s (record s { breaker = record_failure closed now s.breaker; normals = n })
  normal_abort : {n : ℕ} → s.normals ≡ suc n → Step s (record s { normals = n })
  trial_success :
      {n : ℕ}
      → s.trials ≡ suc n
      → Step s (record s { breaker = record_success half_open s.breaker; trials = n })
  trial_failure :
      {n : ℕ} (now : ℤ)
      → s.trials ≡ suc n
      → Step s (record s { breaker = record_failure half_open now s.breaker; trials = n })
  trial_abort : {n : ℕ} → s.trials ≡ suc n → Step s (record s { trials = n; lost = suc s.lost })

pub data Reach (s : System) : System → Type 0 where
  here : Reach s s
  next : {t u : System} → Reach s t → Step t u → Reach s u

abbrev pub idle : CircuitBreaker → System
idle b = record { breaker = b; normals = 0; trials = 0; lost = 0 }
