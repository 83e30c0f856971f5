-- ===== src/Jobs/Waiting.antt =====
-- The worker that a step of the drain is about.
use python_concurrency_examp.Prelude.{
  ◌≤◌, ◌<◌, ◌≡◌, refl, ap, ◌⊎◌, inl, inr, true, List, [], ◌∷◌, ◌++◌, arith, length, sum_of,
}
use python_concurrency_examp.Jobs.{
  Item, job, stop_token, Worker, waiting, handling, ended, all_ended,
}
use python_concurrency_examp.Jobs.Kept.{busy, ends, jobs_in, tokens_in}

module _ {T : Type 0} where
  pub find_busy :
      (ws : List (Worker T))
      → (busy ws ≡ [])
        ⊎ ((before : List (Worker T)) × (after : List (Worker T)) × (j : T) × (ws
              ≡ before ++ handling j ∷ after))
  find_busy [] = inl refl
  find_busy (handling j ∷ ws) = inr ([], ws, j, refl)
  find_busy (waiting ∷ ws) = elim (find_busy ws) [
    | inl idle ↦ inl idle
    | inr (before, after, j, at) ↦ inr (waiting ∷ before, after, j, ap (◌∷◌ waiting) at)
  ]
  find_busy (ended ∷ ws) = elim (find_busy ws) [
    | inl idle ↦ inl idle
    | inr (before, after, j, at) ↦ inr (ended ∷ before, after, j, ap (◌∷◌ ended) at)
  ]

  pub ends-length : (ws : List (Worker T)) → sum_of ends ws ≤ length ws
  ends-length [] = omega arith
  ends-length (waiting ∷ ws) = omega (arith, ends-length ws)
  ends-length (handling j ∷ ws) = omega (arith, ends-length ws)
  ends-length (ended ∷ ws) = omega (arith, ends-length ws)

  -- Among idle workers, all have ended, or one waits and fewer have ended.
  pub find_waiting :
      (ws : List (Worker T))
      → busy ws ≡ []
      → (all_ended ws ≡ true)
        ⊎ ((before : List (Worker T)) × (after : List (Worker T)) × (ws ≡ before ++ waiting ∷ after)
            × (sum_of ends ws < length ws))
  find_waiting [] idle = inl refl
  find_waiting (waiting ∷ ws) idle = inr ([], ws, refl, omega (arith, ends-length ws))
  find_waiting (handling j ∷ ws) idle = absurd (omega (arith, ap length idle))
  find_waiting (ended ∷ ws) idle = elim (find_waiting ws idle) [
    | inl all ↦ inl all
    | inr (before, after, at, less) ↦
        inr (ended ∷ before, after, ap (◌∷◌ ended) at, omega (arith, less))
  ]

  pub list-cases :
      (q : List (Item T)) → (q ≡ []) ⊎ ((x : Item T) × (rest : List (Item T)) × (q ≡ x ∷ rest))
  list-cases [] = inl refl
  list-cases (x ∷ rest) = inr (x, rest, refl)

  pub first_job : (x : Item T) → tokens_in (x ∷ []) ≡ 0 → (j : T) × (x ≡ job j)
  first_job (job j) h = (j, refl)
  first_job stop_token h = absurd (omega (arith, h))

  pub first_token :
      (q : List (Item T))
      → jobs_in q ≡ []
      → 0 < tokens_in q
      → (rest : List (Item T)) × (q ≡ stop_token ∷ rest)
  first_token [] h some = absurd (omega (arith, some))
  first_token (job j ∷ q) h some = absurd (omega (arith, ap length h))
  first_token (stop_token ∷ q) h some = (q, refl)

  pub first_waiting :
      (ws : List (Worker T))
      → 0 < length ws
      → busy ws ≡ []
      → sum_of ends ws ≡ 0
      → (after : List (Worker T)) × (ws ≡ waiting ∷ after)
  first_waiting [] some idle none = absurd (omega (arith, some))
  first_waiting (waiting ∷ ws) some idle none = (ws, refl)
  first_waiting (handling j ∷ ws) some idle none = absurd (omega (arith, ap length idle))
  first_waiting (ended ∷ ws) some idle none = absurd (omega (arith, none))
