-- ===== src/Retry/Attempts.antt =====
-- How often a task is called, and what its result records.
use python_concurrency_examp.Prelude.{
  ℕ, zero, suc, ◌+◌, ◌-◌, ◌≤◌, ◌<◌, String, ◌≡◌, refl, ◌⊎◌, inl, inr, Option, none, some, arith, ap,
  ◌∙◌, subst,
}
use native.Mathlib.Decide.{dec_lt}
use python_concurrency_examp.Prelude.Int.{ℤ, pos, pos_part}
use python_concurrency_examp.Python.{Result, ok, err, Exc}
use python_concurrency_examp.Retry.{
  RetryResult, RetryExecutor, Task, attempt_loop, run_with_retries,
}

module _ {T : Type 0} where
  -- An attempt that raises.
  abbrev pub Fails : Result T → Type 0
  Fails r = (e : Exc) × (r ≡ err e)

  pub result-cases : (r : Result T) → ((a : T) × (r ≡ ok a)) ⊎ Fails r
  result-cases (ok a) = inl (a, refl)
  result-cases (err e) = inr (e, refl)

  -- All attempts from `lo` up to but not `hi` raise.
  abbrev pub AllFail : Task T → ℕ → ℕ → Type 0
  AllFail task lo hi = (j : ℕ) → lo ≤ j → j < hi → Fails (task j)

  abbrev pub success : String → ℕ → T → RetryResult T
  success task_id k a = record { task_id = task_id; attempts = pos k; value = some a; error = none }

  abbrev pub failure : String → ℤ → Option Exc → RetryResult T
  failure task_id max_attempts e = record {
    task_id = task_id;
    attempts = max_attempts;
    value = none;
    error = e;
  }

  module _ (m : ℤ) (task_id : String) (task : Task T) where
    -- The first success among the `left` rounds from `attempt` on, or the last of as many failures.
    abbrev Settled : ℕ → ℕ → Option Exc → RetryResult T → Type 0
    Settled left attempt last r =
        ((k : ℕ) × (a : T) × (attempt ≤ k)
          × (k < attempt + left)
          × (task k ≡ ok a)
          × AllFail task attempt k
          × (r ≡ success task_id k a))
        ⊎ (AllFail task attempt (attempt + left)
            × (((left ≡ 0) × (r ≡ failure task_id m last))
                ⊎ ((e : Exc) × (task (attempt + left - 1) ≡ err e)
                    × (r ≡ failure task_id m (some e)))))

    AllFail-cons :
        (lo hi : ℕ) (e : Exc) → task lo ≡ err e → AllFail task (suc lo) hi → AllFail task lo hi
    AllFail-cons lo hi e failed rest j above below = elim (dec_lt lo j) [
      | yes later ↦ rest j (omega arith) below
      | no now ↦ let here : j ≡ lo = omega arith in (e, ap task here ∙ failed)
    ]

    -- A failed attempt, and what the rounds after it settle.
    failed-Settled :
        (left attempt : ℕ) (last : Option Exc) (e : Exc) (r : RetryResult T)
        → task attempt ≡ err e
        → Settled left (suc attempt) (some e) r
        → Settled (suc left) attempt last r
    failed-Settled left attempt last e r failed (inl (k, a, from, upto, won, earlier, same)) =
        inl (k, a, omega arith, omega arith, won, AllFail-cons attempt k e failed earlier, same)
    failed-Settled left attempt last e r failed (inr (all, inl (done, same))) = inr (
      λ j above below. AllFail-cons attempt (suc attempt + left) e failed all j above (omega arith),
      inr (e, ap task (omega arith) ∙ failed, same),
    )
    failed-Settled left attempt last e r failed (inr (all, inr (e', final, same))) = inr (
      λ j above below. AllFail-cons attempt (suc attempt + left) e failed all j above (omega arith),
      inr (e', ap task (omega arith) ∙ final, same),
    )

    attempt_loop-Settled :
        (left attempt : ℕ) (last : Option Exc)
        → Settled left attempt last (attempt_loop left attempt last m task_id task)
    unfolding attempt_loop
    attempt_loop-Settled zero attempt last =
        inr (λ j above below. absurd (omega arith), inl (refl, refl))
    attempt_loop-Settled (suc left) attempt last = elim (result-cases (task attempt)) [
      | inl (a, won) ↦ inl (
        attempt,
        a,
        omega arith,
        omega arith,
        won,
        λ j above below. absurd (omega arith),
        ground arith,
      )
      | inr (e, failed) ↦
          failed-Settled left attempt last e (attempt_loop (suc left) attempt last m task_id task)
            failed
            (subst (Settled left (suc attempt) (some e)) (ground arith)
              (attempt_loop-Settled left (suc attempt) (some e)))
    ]

  -- With a positive limit a task is retried until its first success, whose value and attempt the
  -- result records with no error; if all `max_attempts` attempts raise, the result records that
  -- number and the exception of the last one.
  pub run_with_retries-Settled :
      (x : RetryExecutor) (task_id : String) (task : Task T) (n : ℕ)
      → x.max_attempts ≡ pos (suc n)
      → ((k : ℕ) × (a : T) × (1 ≤ k)
          × (k ≤ suc n)
          × (task k ≡ ok a)
          × AllFail task 1 k
          × (run_with_retries x task_id task ≡ success task_id k a))
        ⊎ (AllFail task 1 (suc (suc n))
            × ((e : Exc) × (task (suc n) ≡ err e)
                × (run_with_retries x task_id task ≡ failure task_id (pos (suc n)) (some e))))
  unfolding run_with_retries
  run_with_retries-Settled x task_id task n limit =
      elim (attempt_loop-Settled (pos (suc n)) task_id task (suc n) 1 none) [
        | inl (k, a, from, upto, won, earlier, same) ↦
            inl (k, a, from, omega arith, won, earlier, looped ∙ same)
        | inr (all, inl (done, same)) ↦ absurd (omega arith)
        | inr (all, inr (e, final, same)) ↦ inr (
          λ j above below. all j above (omega arith),
          (e, ap task (omega arith) ∙ final, looped ∙ same),
        )
      ]
    where
      looped :
          attempt_loop (pos_part x.max_attempts) 1 none x.max_attempts task_id task
          ≡ attempt_loop (suc n) 1 none (pos (suc n)) task_id task
      looped = ap (λ m. attempt_loop (pos_part m) 1 none m task_id task) limit
