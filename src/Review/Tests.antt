-- ===== src/Review/Tests.antt =====
-- Runs of the async review batch, and its theorems at inputs that meet their hypotheses.
use python_concurrency_examp.Prelude.{
  ◌≡◌, refl, true, false, some, none, [], ◌∷◌, if◌then◌else◌, arith,
}
use python_concurrency_examp.Prelude.Int.{pos, negsuc}
use python_concurrency_examp.Python.{value_error}
use python_concurrency_examp.Python.StrSet.{mem, add, subset}
use python_concurrency_examp.Approval
use python_concurrency_examp.Review.{
  AsyncReviewBatch, holds, approve, run, wait_until_approved, returns, raises,
}
use python_concurrency_examp.Review.Agreement.{
  to_batch, during, Expired, wait_until_approved-agrees, wait_until_approved-negative,
}

abbrev batch : AsyncReviewBatch
batch = record { required_reviewers = "risk" ∷ []; approved_reviewers = []; notifications = 0 }

waits : (wait_until_approved none ("ops" ∷ "risk" ∷ []) batch).0 ≡ returns true
unfolding wait_until_approved holds approve mem add subset
waits = refl

times_out : (wait_until_approved (some (pos 3)) ("ops" ∷ []) batch).0 ≡ returns false
unfolding wait_until_approved holds approve mem add subset
times_out = refl

lets_nobody_in : (wait_until_approved (some (pos 0)) ("risk" ∷ []) batch).0 ≡ returns false
unfolding wait_until_approved holds approve mem add subset
lets_nobody_in = refl

wait_until_approved-agrees_example :
    (to_batch (run ("ops" ∷ []) batch) ≡ Approval.run ("ops" ∷ []) (to_batch batch))
    × ((wait_until_approved (some (pos 3)) ("ops" ∷ []) batch).0 ≡ (
        if Approval.holds (Approval.run (during (some (pos 3)) ("ops" ∷ [])) (to_batch batch))
        then returns true
        else Expired (some (pos 3))))
wait_until_approved-agrees_example =
    wait_until_approved-agrees (some (pos 3)) ("ops" ∷ []) batch (λ t e. ground (arith, e))

wait_until_approved-negative_example :
    wait_until_approved (some (negsuc 0)) ("risk" ∷ []) batch
    ≡ (raises (value_error "timeout must not be negative"), batch)
wait_until_approved-negative_example =
    wait_until_approved-negative (negsuc 0) ("risk" ∷ []) batch refl
