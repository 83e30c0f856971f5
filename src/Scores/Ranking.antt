-- ===== src/Scores/Ranking.antt =====
-- The ranking that `top` returns.
use python_concurrency_examp.Prelude.{String, ◌≡◌, true, List, [], ◌∷◌, All}
use mathlib.Core.List.{Perm}
use mathlib.Core.List.Perm
use python_concurrency_examp.Prelude.Int.{ℤ}
use python_concurrency_examp.Scores.{ranks_before}

-- Every entry ranks before all that follow it.
abbrev pub IsRanked : List (String × ℤ) → Type 0
IsRanked [] = Unit
IsRanked (e ∷ es) = All (λ x. ranks_before e x ≡ true) es × IsRanked es
