-- ===== src/Review/Agreement.antt =====
-- The async batch against the threaded one, and its waiters.
use python_concurrency_examp.Prelude.{
  String, ◌≡◌, refl, ap, ◌∙◌, true, false, Option, some, none, List, [], ◌∷◌, arith, if◌then◌else◌,
  Bool-cases, inl, inr,
}
use python_concurrency_examp.Prelude.Int.{ℤ, pos, ltb_ℤ, leb_ℤ, ◌≤ℤ◌}
use python_concurrency_examp.Python.{value_error}
use python_concurrency_examp.Approval.{BatchApproval}
use python_concurrency_examp.Approval
use python_concurrency_examp.Approval.Waiting
use python_concurrency_examp.Review.{
  AsyncReviewBatch, holds, approve, run, sleep, wait_until_approved, returns, raises, suspended,
  Waited,
}

abbrev pub to_batch : AsyncReviewBatch → BatchApproval
to_batch b = record {
  required_reviewers = b.required_reviewers;
  approved_reviewers = b.approved_reviewers;
  notifications = b.notifications;
}

-- One call of `approve` has the same result in both classes and leaves the same state.
approve-agrees :
    (r : String) (b : AsyncReviewBatch)
    → ((approve r b).0 ≡ (Approval.approve r (to_batch b)).0)
      × (to_batch (approve r b).1 ≡ (Approval.approve r (to_batch b)).1)
unfolding approve Approval.approve
approve-agrees r b = (ground arith, ground arith)

run-agrees :
    (rs : List String) (b : AsyncReviewBatch) → to_batch (run rs b) ≡ Approval.run rs (to_batch b)
unfolding run Approval.run
run-agrees [] b = refl
run-agrees (r ∷ rs) b = run-agrees rs (approve r b).1 ∙ ap (Approval.run rs) (approve-agrees r b).1

holds-approve : (r : String) (b : AsyncReviewBatch) → holds b ≡ true → holds (approve r b).1 ≡ true
unfolding holds Approval.holds
holds-approve r b h =
    ap Approval.holds (approve-agrees r b).1 ∙ Waiting.holds-approve r (to_batch b) h

holds-run : (rs : List String) (b : AsyncReviewBatch) → holds b ≡ true → holds (run rs b) ≡ true
unfolding run
holds-run [] b h = h
holds-run (r ∷ rs) b h = holds-run rs (approve r b).1 (holds-approve r b h)

-- What a wait that is over by its last test returns.
abbrev pub Expired : Option ℤ → Waited
Expired none = suspended
Expired (some t) = returns false

sleep_lem :
    (timeout : Option ℤ) (rs : List String) (b : AsyncReviewBatch)
    → (sleep timeout rs b).0 ≡ (if holds (run rs b) then returns true else Expired timeout)
unfolding sleep run
sleep_lem none [] b = refl
sleep_lem (some t) [] b = refl
sleep_lem none (r ∷ rs) b =
    ground
      (arith, holds-run rs (approve r b).1, holds-approve r b, sleep_lem none rs (approve r b).1)
sleep_lem (some t) (r ∷ rs) b =
    ground (
      arith,
      holds-run rs (approve r b).1,
      holds-approve r b,
      sleep_lem (some t) rs (approve r b).1,
    )

-- The calls of other tasks during a wait: a timeout that is not positive lets none of them in.
abbrev pub during : Option ℤ → List String → List String
during none rs = rs
during (some t) rs = if leb_ℤ t (pos 0) then [] else rs

-- The async batch goes through the states of the threaded one. A wait with no timeout, or with one
-- that is not negative, returns True exactly when the batch is approved after the calls of other
-- tasks during the wait, and if not, returns False with a timeout and is suspended without; with a
-- timeout of 0 there are no calls during the wait.
pub wait_until_approved-agrees :
    (timeout : Option ℤ) (rs : List String) (b : AsyncReviewBatch)
    → ((t : ℤ) → timeout ≡ some t → pos 0 ≤ℤ t)
    → (to_batch (run rs b) ≡ Approval.run rs (to_batch b))
      × ((wait_until_approved timeout rs b).0 ≡ (
          if Approval.holds (Approval.run (during timeout rs) (to_batch b))
          then returns true
          else Expired timeout))
unfolding wait_until_approved holds Approval.holds Approval.run
wait_until_approved-agrees none rs b valid =
    (run-agrees rs b, rw (← run-agrees rs b) (ground (arith, sleep_lem none rs b, holds-run rs b)))
wait_until_approved-agrees (some t) rs b valid =
    let nonneg = valid t refl in
    (
      run-agrees rs b,
      elim (Bool-cases (leb_ℤ t (pos 0))) [
        | inl at_once ↦ ground arith
        | inr later ↦
            rw (later, ← run-agrees rs b) (ground (arith, sleep_lem (some t) rs b, holds-run rs b))
      ],
    )

-- A negative timeout is refused before anything is read, and changes nothing.
pub wait_until_approved-negative :
    (t : ℤ) (rs : List String) (b : AsyncReviewBatch)
    → ltb_ℤ t (pos 0) ≡ true
    → wait_until_approved (some t) rs b ≡ (raises (value_error "timeout must not be negative"), b)
unfolding wait_until_approved
wait_until_approved-negative t rs b neg = ground arith
