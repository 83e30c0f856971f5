-- ===== src/Checks/Tests.antt =====
-- Two checks that succeed, and the same with one that fails and cancels the other.
use python_concurrency_examp.Prelude.{ℕ, ◌≡◌, ◌↔◌, refl, [], ◌∷◌, map, Star, here, next}
use python_concurrency_examp.Python.{ok, err, app_error}
use python_concurrency_examp.Checks.{
  CheckoutChecks, task, running, cancelled, done, Group, passed, failed, create, start, Step, ends,
  is_cancelled, finish,
}
use python_concurrency_examp.Checks.Together.{passing, run-passed_iff}

abbrev good : CheckoutChecks ℕ
good = record { checks = ("fraud", ok 1) ∷ ("stock", ok 2) ∷ [] }

good-made : create (("fraud", ok 1) ∷ ("stock", ok 2) ∷ []) ≡ ok good
unfolding create
good-made = refl

abbrev good_end : Group ℕ
good_end = record {
  tasks = task ("fraud", ok 1) (done (ok 1)) ∷ task ("stock", ok 2) (done (ok 2)) ∷ [];
  errors = [];
}

to_good_end : Star Step (start good) good_end
to_good_end =
    next (next here (ends (task ("fraud", ok 1) running ∷ []) [] ("stock", ok 2) refl))
      (ends [] (task ("stock", ok 2) (done (ok 2)) ∷ []) ("fraud", ok 1) refl)

abbrev bad : CheckoutChecks ℕ
bad = record { checks = ("fraud", err (app_error 7)) ∷ ("stock", ok 2) ∷ [] }

abbrev bad_end : Group ℕ
bad_end = record {
  tasks =
      task ("fraud", err (app_error 7)) (done (err (app_error 7)))
      ∷ task ("stock", ok 2) cancelled
      ∷ [];
  errors = app_error 7 ∷ [];
}

to_bad_end : Star Step (start bad) bad_end
to_bad_end =
    next (next here (ends [] (task ("stock", ok 2) running ∷ []) ("fraud", err (app_error 7)) refl))
      (is_cancelled (task ("fraud", err (app_error 7)) (done (err (app_error 7))) ∷ []) []
        ("stock", ok 2) refl refl)

bad_outcome : finish bad_end ≡ failed (app_error 7 ∷ [])
unfolding finish
bad_outcome = refl

run-passed_iff_example :
    (finish good_end ≡ passed (("fraud", 1) ∷ ("stock", 2) ∷ []))
    ↔ (good.checks ≡ map passing (("fraud", 1) ∷ ("stock", 2) ∷ []))
run-passed_iff_example =
    run-passed_iff good good_end (("fraud", 1) ∷ ("stock", 2) ∷ []) to_good_end refl
