-- ===== src/Scores.antt =====
-- leaderboard/scores.py: best scores behind a lock. Each method body is one atomic step, so what
-- many threads do is a list of calls in the order in which they take the lock.
pub mod Best
pub mod Ranking
mod Tests
use python_concurrency_examp.Prelude.{
  ℕ, String, Bool, true, false, Option, none, some, List, [], ◌∷◌, map, ◌==◌, if◌then◌else◌, take,
}
use python_concurrency_examp.Prelude.Int.{ℤ, pos, pos_part, ltb_ℤ, leb_ℤ}
use python_concurrency_examp.Python.{
  Result, ok, err, value_error, Exec, pure, gets, raise_if, modify, ◌>>=◌, ◌>>◌,
}
use python_concurrency_examp.Python.Dict.{Dict, lookup, insert}
use python_concurrency_examp.Python.Text.{text_leb, lex_leb}

pub record ScoreEntry : Type 0 where
  pub player_id : String
  pub score : ℤ

pub record Leaderboard : Type 0 where
  pub scores : Dict ℤ

-- `__init__`
abbrev pub create : Leaderboard
create = record { scores = [] }

-- `previous_score is None or score > previous_score`
improves : Option ℤ → ℤ → Bool
improves none score = true
improves (some previous_score) score = ltb_ℤ previous_score score

pub record_score : String → ℤ → Exec Leaderboard (Unit {0})
unfolding improves
record_score player_id score = do
  raise_if (player_id == "") (value_error "player_id must not be empty")
  raise_if (ltb_ℤ score (pos 0)) (value_error "score must not be negative")
  previous_score ← gets (λ b. lookup player_id b.scores)
  if improves previous_score score
      then modify (λ b. record b { scores = insert player_id score b.scores })
      else pure tt

pub score_for : String → Exec Leaderboard (Option ℤ)
score_for player_id = do
  raise_if (player_id == "") (value_error "player_id must not be empty")
  gets (λ b. lookup player_id b.scores)

-- The order of the keys `(-item[1], item[0])`.
unfoldable pub ranks_before : String × ℤ → String × ℤ → Bool
ranks_before (p, x) (q, y) = if ltb_ℤ y x then true else if ltb_ℤ x y then false else text_leb p q

-- `sorted` with that key: stable, here by insertion.
unfoldable pub place : String × ℤ → List (String × ℤ) → List (String × ℤ)
place e [] = e ∷ []
place e (x ∷ xs) = if ranks_before e x then e ∷ x ∷ xs else x ∷ place e xs

unfoldable pub sorted : List (String × ℤ) → List (String × ℤ)
sorted [] = []
sorted (e ∷ es) = place e (sorted es)

abbrev pub entry : String × ℤ → ScoreEntry
entry (player_id, score) = record { player_id = player_id; score = score }

pub top : ℤ → Exec Leaderboard (List ScoreEntry)
top limit = do
  raise_if (leb_ℤ limit (pos 0)) (value_error "limit must be greater than zero")
  gets (λ b. map entry (take (pos_part limit) (sorted b.scores)))

pub snapshot : Exec Leaderboard (Dict ℤ)
snapshot = gets (λ b. b.scores)

-- The `record_score` calls of all threads.
pub run : List (String × ℤ) → Leaderboard → Leaderboard
run [] b = b
run ((player_id, score) ∷ cs) b = run cs (record_score player_id score b).1
