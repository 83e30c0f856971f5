-- ===== src/Scores/Tests.antt =====
-- Runs of the leaderboard, and its theorems at inputs that meet their hypotheses.
use python_concurrency_examp.Prelude.{String, ◌≡◌, refl, none, List, [], ◌∷◌}
use python_concurrency_examp.Prelude.Int.{ℤ, pos}
use python_concurrency_examp.Python.{ok, err, value_error}
use python_concurrency_examp.Python.Dict.{lookup, insert}
use python_concurrency_examp.Python.Text.{lex_leb}
use python_concurrency_examp.Scores.{
  Leaderboard, create, record_score, score_for, ranks_before, place, sorted, top, run,
}
use python_concurrency_examp.Scores.Best.{best_from, score_for-run}

abbrev calls : List (String × ℤ)
calls = ("zoe", pos 5) ∷ ("amy", pos 9) ∷ ("zoe", pos 9) ∷ ("amy", pos 3) ∷ ("bob", pos 1) ∷ []

calls-top :
    (top (pos 2) (run calls create)).0
    ≡ ok (
        record { player_id = "amy"; score = pos 9 }
        ∷ record { player_id = "zoe"; score = pos 9 }
        ∷ [])
unfolding top run record_score lookup insert sorted place ranks_before lex_leb
calls-top = refl

bad_limit : (top (pos 0) create).0 ≡ err (value_error "limit must be greater than zero")
unfolding top
bad_limit = refl

score_for-run_example : (score_for "zoe" (run calls create)).0 ≡ ok (best_from "zoe" none calls)
score_for-run_example = score_for-run "zoe" calls refl

abbrev board : Leaderboard
board = record { scores = ("zoe", pos 9) ∷ ("amy", pos 9) ∷ ("bob", pos 1) ∷ [] }
